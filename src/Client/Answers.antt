-- ===== src/Client/Answers.antt =====
-- src/client.rs and src/types.rs: what the requests make of the answers.
use axelar_relayer_ton.Prelude.{
  String, true, ◌⊎◌, inl, inr, Option, none, some, List, [], ◌∷◌, map, ◌≡◌, refl, ok, >>=-eq-ok,
  Bool-cases, Option-cases, nat_eq, subst,
}
use axelar_relayer_ton.Prelude.Int.{ℤ}
use axelar_relayer_ton.Types.{Trace, Transaction, lift_err, append}
use axelar_relayer_ton.Types.Response.{TraceRest, TracesResponseRest, filter_map, to_trace, from}
use axelar_relayer_ton.Client.{
  bad_response, connection_failed, Response, TonRpcClient, is_success, read, endpoint, query_params,
  clean_json_string_full, get_traces_for_account,
}

module _ {A : Type 0} where
  -- The transactions that the map has, in the order of the keys; a key that it does not have is passed
  -- over.
  pub data InOrder (get : String → Option (Transaction A))
      : List String → List (Transaction A) → Type 0 where
    done : InOrder get [] []
    missing :
        {key : String} {keys : List String} {txs : List (Transaction A)}
        → get key ≡ none
        → InOrder get keys txs
        → InOrder get (key ∷ keys) txs
    found :
        {key : String} {keys : List String} {txs : List (Transaction A)} {tx : Transaction A}
        → get key ≡ some tx
        → InOrder get keys txs
        → InOrder get (key ∷ keys) (tx ∷ txs)

  abbrev pub Transcribes : TraceRest A → Trace A → Type 0
  Transcribes rest trace =
      (trace.trace_id ≡ rest.trace_id)
      × ((trace.is_incomplete ≡ rest.is_incomplete)
          × ((trace.start_lt ≡ rest.start_lt)
              × ((trace.end_lt ≡ rest.end_lt)
                  × InOrder rest.transactions rest.transactions_order trace.transactions)))

  -- One trace for each trace of the answer, in its order.
  pub data Transcript : List (TraceRest A) → List (Trace A) → Type 0 where
    end : Transcript [] []
    line :
        {rest : TraceRest A} {trace : Trace A} {rests : List (TraceRest A)}
        {traces : List (Trace A)}
        → Transcribes rest trace
        → Transcript rests traces
        → Transcript (rest ∷ rests) (trace ∷ traces)

  filter_map-InOrder :
      (get : String → Option (Transaction A)) (keys : List String)
      → InOrder get keys (filter_map get keys)
  filter_map-InOrder get [] = done
  filter_map-InOrder get (key ∷ keys) = elim (Option-cases (get key)) [
    | inl absent ↦ rw absent (missing absent (filter_map-InOrder get keys))
    | inr (tx, present) ↦ rw present (found present (filter_map-InOrder get keys))
  ]

  from-Transcript : (rests : List (TraceRest A)) → Transcript rests (map to_trace rests)
  from-Transcript [] = end
  from-Transcript (rest ∷ rests) =
      line
        (refl, (refl, (refl, (refl, filter_map-InOrder rest.transactions rest.transactions_order))))
        (from-Transcript rests)

module _ {E : Type 0} {B : Type 0} where
  lift_err-eq-ok : (f : String → E) (r : String ⊎ B) {b : B} → lift_err f r ≡ ok b → r ≡ inr b
  lift_err-eq-ok f (inl e) h = cc
  lift_err-eq-ok f (inr b) h = cc

module _ {A : Type 0} (self : TonRpcClient A) where
  -- The server answered with a success, and the body, cleaned, reads as the value.
  abbrev pub Succeeded :
      {B : Type 0} → (String → String) → (String → String ⊎ B) → String ⊎ Response → B → Type 0
  Succeeded clean from_str answer value =
      (response : Response) × (text : String) × ((answer ≡ inr response)
        × ((is_success response.status ≡ true)
            × ((response.body ≡ inr text) × (from_str (clean text) ≡ inr value))))

  read-eq-ok :
      {B : Type 0} (clean : String → String) (what : String) (from_str : String → String ⊎ B)
      (response : Response) (value : B)
      → read self clean what from_str response ≡ ok value
      → (text : String) × ((is_success response.status ≡ true)
          × ((response.body ≡ inr text) × (from_str (clean text) ≡ inr value)))
  read-eq-ok clean what from_str response value h =
      let (text, has_text, h1) = >>=-eq-ok (lift_err bad_response response.body) _ h in
      elim (Bool-cases (is_success response.status)) [
        | inl success ↦ (
          text,
          (
            success,
            (
              lift_err-eq-ok bad_response response.body has_text,
              lift_err-eq-ok (λ e. bad_response (append what e)) (from_str (clean text))
                  (rw success at h1),
            ),
          ),
        )
        | inr failure ↦ (let fails = rw failure at h1 in cc)
      ]

  -- Traces are returned only if the answer to the query was a success, and they are then the traces of
  -- its cleaned body, in its order; each has the transactions of the body's map, in the order that the
  -- body gives, and the keys that the map does not have are passed over.
  pub get_traces_for_account-Transcript :
      (account : Option A) (trace_ids : Option (List String)) (start_lt : Option ℤ)
      (traces : List (Trace A))
      → get_traces_for_account self account trace_ids start_lt ≡ ok traces
      → (rest : TracesResponseRest A) × (Succeeded clean_json_string_full self.http.traces_from_str
            (self.http.get
              (endpoint self "/api/v3/traces")
              self.api_key
              (query_params self account trace_ids start_lt))
            rest
          × Transcript rest.traces traces)
  unfolding get_traces_for_account from
  get_traces_for_account-Transcript account trace_ids start_lt traces h =
      let (response, answered, h1) =
        >>=-eq-ok
          (lift_err connection_failed (
            self.http.get (endpoint self "/api/v3/traces") self.api_key
              (query_params self account trace_ids start_lt)))
          _ h in
      let (rest, is_read, h2) =
        >>=-eq-ok
          (read self clean_json_string_full "Failed to parse traces list: "
            self.http.traces_from_str response)
          _ h1 in
      let (text, facts) =
        read-eq-ok clean_json_string_full "Failed to parse traces list: " self.http.traces_from_str
          response rest is_read in
      let same : map to_trace rest.traces ≡ traces = cc in
      (
        rest,
        (
          (response, text, (lift_err-eq-ok connection_failed _ answered, facts)),
          subst (Transcript rest.traces) same (from-Transcript rest.traces),
        ),
      )
