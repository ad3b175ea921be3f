-- ===== src/RetrySubscriber.antt =====
-- src/retry_subscriber.rs: the traces that were incomplete when they were seen are asked for again.
pub mod Retries
pub mod End
pub mod Answered
pub mod AllPolls
pub mod Live
use axelar_relayer_ton.Prelude.{
  String, Bool, true, false, not, ◌&&◌, ◌⊎◌, inl, inr, List, [], ◌∷◌, map, Outcome, ok, err, panic,
  ◌>>=◌, if◌then◌else◌,
}
use axelar_relayer_ton.Types.{Trace, Transaction}
use axelar_relayer_ton.TonTrace.{
  JsonEq, TonTrace, Table, from, upsert_and_return_if_changed, decrease_retry,
}
use axelar_relayer_ton.Subscriber.{is_changed}

-- Why a poll fails: the query for the rows, the client's request, or the statement for a trace.
pub data RetryError : Type 0 where
  fetch_error request_error statement_error : String → RetryError

-- What the other parties do at one poll: the rows that the query returns, which have retries left and
-- are incomplete, at most a hundred of them; the client's answer for their ids; and the trace ids at
-- which a statement fails.
pub record RetryPoll (A : Type 0) : Type 0 where
  pub rows : String ⊎ List (TonTrace (List (Transaction A)))
  pub traces_of : List String → String ⊎ List (Trace A)
  pub statement_fails : String → Bool

module _ {A : Type 0} ⦃e : JsonEq (List (Transaction A))⦄ where
  -- The statement that the loop makes for a trace: what it returns is whether the trace is new.
  unfoldable pub settle :
      Trace A → Table (List (Transaction A)) → Bool × Table (List (Transaction A))
  settle trace t =
      let (changed, t') = upsert_and_return_if_changed (from trace) t in
      if trace.is_incomplete
      then (false, decrease_retry (from trace) t)
      else (is_changed changed && not trace.is_incomplete, t')

  -- The loop over the traces.
  unfoldable pub collect_retried :
      (String → Bool)
      → List (Trace A)
      → Table (List (Transaction A))
      → Outcome RetryError (List (Trace A)) × Table (List (Transaction A))
  collect_retried fails [] t = (ok [], t)
  collect_retried fails (trace ∷ traces) t =
      let (is_new, t') = settle trace t in
      let (unseen, t'') = collect_retried fails traces t' in
      if fails trace.trace_id
      then (err (statement_error trace.trace_id), t)
      else if is_new
      then (unseen >>= λ rest. ok (trace ∷ rest), t'')
      else (unseen, t'')

  abbrev ask :
      RetryPoll A
      → List (TonTrace (List (Transaction A)))
      → Table (List (Transaction A))
      → Outcome RetryError (List (Trace A)) × Table (List (Transaction A))
  ask p [] t = (ok [], t)
  ask p (row ∷ rows) t = elim (p.traces_of (map (λ r. r.trace_id) (row ∷ rows))) [
    | inl error ↦ (err (request_error error), t)
    | inr traces ↦ collect_retried p.statement_fails traces t
  ]

  unfoldable pub poll_retries :
      RetryPoll A
      → Table (List (Transaction A))
      → Outcome RetryError (List (Trace A)) × Table (List (Transaction A))
  poll_retries p t = elim p.rows [
    | inl error ↦ (err (fetch_error error), t)
    | inr rows ↦ ask p rows t
  ]
