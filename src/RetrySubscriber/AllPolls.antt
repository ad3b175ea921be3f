-- ===== src/RetrySubscriber/AllPolls.antt =====
-- src/retry_subscriber.rs over src/models/ton_trace.rs: polls that ask for all rows that can be
-- retried.
use mathlib.Core.List.{Memᴰ}
use mathlib.Core.Option.{some_inj}
use axelar_relayer_ton.Prelude.{
  ℕ, zero, suc, ◌≤◌, String, Bool, true, false, inl, inr, Option, none, some, List, [], ◌∷◌, map,
  length, ◌≡◌, refl, sym, ap, subst, ◌∙◌, Bool-cases, Outcome, ok, ◌==◌, ==_iff, string_eq,
  if◌then◌else◌,
}
use axelar_relayer_ton.Types.{Trace, Transaction}
use axelar_relayer_ton.TonTrace.{
  JsonEq, TonTrace, Table, from, unchanged, upsert_row, spend_row, retriable_rows, is_retriable,
  fetch_retry,
}
use axelar_relayer_ton.TonTrace.Fetch.{
  Keyed, Distinct, ids_of, retriable_rows-Distinct, retriable_rows-Mem, fetch_retry-all,
}
use axelar_relayer_ton.RetrySubscriber.{
  RetryPoll, RetryError, settle, collect_retried, poll_retries,
}
use axelar_relayer_ton.RetrySubscriber.Retries.{collect_retried-table}
use axelar_relayer_ton.RetrySubscriber.Answered.{
  or_old, no_failures, settle_row, settle_new, settle-here, settle-other, collect_retried-ok,
  Answering, collect_retried-row, collect_retried-sent,
}

module _ {A : Type 0} ⦃e : JsonEq (List (Transaction A))⦄ where
  -- A row that has or has not the id.
  abbrev HasKey : String → Option (TonTrace (List (Transaction A))) → Type 0
  HasKey id o = (row : TonTrace (List (Transaction A))) → o ≡ some row → row.trace_id ≡ id

  key_of :
      (id : String) (row : TonTrace (List (Transaction A)))
      → row.trace_id ≡ id
      → HasKey id (some row)
  key_of id row is other same = ap (λ r. r.trace_id) (sym (some_inj.0 same)) ∙ is

  or_old-HasKey :
      (y : Trace A) (o : Option (TonTrace (List (Transaction A))))
      → HasKey y.trace_id o
      → HasKey y.trace_id (or_old (upsert_row (from y) o) o)
  unfolding from
  or_old-HasKey y none has = key_of y.trace_id _ refl
  or_old-HasKey y (some row) has = elim (Bool-cases (unchanged row (from y))) [
    | inl same ↦ rw same has
    | inr differs ↦ rw differs (key_of y.trace_id _ (has row refl))
  ]

  spend_row-HasKey :
      (id : String) (o : Option (TonTrace (List (Transaction A))))
      → HasKey id o
      → HasKey id (spend_row o)
  spend_row-HasKey id none has = has
  spend_row-HasKey id (some row) has = key_of id _ (has row refl)

  settle-Keyed : (y : Trace A) (t : Table (List (Transaction A))) → Keyed t → Keyed (settle y t).1
  settle-Keyed y t keyed id = elim (Bool-cases (id == y.trace_id)) [
    | inr differs ↦
        subst (HasKey id)
          (sym (settle-other y t id (λ same. let is = (==_iff id y.trace_id).1 same in cc)))
          (keyed id)
    | inl is ↦
        subst (λ k. HasKey k ((settle y t).1 k)) (sym ((==_iff id y.trace_id).0 is))
          (subst (HasKey y.trace_id) (sym (settle-here y t)) (
            either y.is_incomplete (spend_row-HasKey y.trace_id (t y.trace_id) (keyed y.trace_id))
              (or_old-HasKey y (t y.trace_id) (keyed y.trace_id))))
  ]
    where
      either :
          {first second : Option (TonTrace (List (Transaction A)))} (b : Bool)
          → HasKey y.trace_id first
          → HasKey y.trace_id second
          → HasKey y.trace_id (if b then first else second)
      either true h h' = h
      either false h h' = h'

  collect_retried-Keyed :
      (ys : List (Trace A)) (t : Table (List (Transaction A)))
      → Keyed t
      → Keyed (collect_retried no_failures ys t).1
  unfolding collect_retried
  collect_retried-Keyed [] t keyed = keyed
  collect_retried-Keyed (y ∷ ys) t keyed =
      subst Keyed (sym (collect_retried-table no_failures y ys t refl))
        (collect_retried-Keyed ys (settle y t).1 (settle-Keyed y t keyed))

  -- A poll of a hundred rows at most, at which the node answers for each id with what it knows.
  abbrev pub answered_poll :
      List String → (String → Trace A) → Table (List (Transaction A)) → RetryPoll A
  answered_poll ids chain t = record {
    rows = inr (fetch_retry 100 ids t);
    traces_of = λ asked. inr (map chain asked);
    statement_fails = no_failures;
  }

  unfoldable pub poll_all :
      List String
      → (String → Trace A)
      → Table (List (Transaction A))
      → Outcome RetryError (List (Trace A)) × Table (List (Transaction A))
  unfolding poll_retries fetch_retry
  poll_all ids chain t = poll_retries (answered_poll ids chain t) t

  -- The table after some polls, at each of which the node knows something else.
  unfoldable pub after :
      List String
      → ℕ
      → (ℕ → String → Trace A)
      → Table (List (Transaction A))
      → Table (List (Transaction A))
  unfolding poll_all
  after ids zero chains t = t
  after ids (suc k) chains t = after ids k (λ i. chains (suc i)) (poll_all ids (chains 0) t).1

  module _ (ids : List String) (few : length ids ≤ 100) (distinct : Distinct ids) where
    poll_rows :
        (chain : String → Trace A) (t : Table (List (Transaction A)))
        (rows : List (TonTrace (List (Transaction A))))
        → poll_retries
            (record {
              rows = inr rows;
              traces_of = λ asked. inr (map chain asked);
              statement_fails = no_failures;
            })
            t
          ≡ collect_retried no_failures (map chain (ids_of rows)) t
    unfolding poll_retries collect_retried
    poll_rows chain t [] = refl
    poll_rows chain t (row ∷ rows) = refl

    poll_all-collect :
        (chain : String → Trace A) (t : Table (List (Transaction A)))
        → poll_all ids chain t
          ≡ collect_retried no_failures (map chain (ids_of (retriable_rows ids t))) t
    unfolding poll_all
    poll_all-collect chain t =
        poll_rows chain t (fetch_retry 100 ids t)
        ∙ ap (λ rows. collect_retried no_failures (map chain (ids_of rows)) t)
            (fetch_retry-all 100 t ids few)

    Mem-ids_of :
        (rows : List (TonTrace (List (Transaction A)))) (row : TonTrace (List (Transaction A)))
        → Memᴰ row rows
        → Memᴰ row.trace_id (ids_of rows)
    Mem-ids_of [] row mem = elim mem [ ]
    Mem-ids_of (r ∷ rows) row (Memᴰ.head same) = Memᴰ.head (ap (λ x. x.trace_id) same)
    Mem-ids_of (r ∷ rows) row (Memᴰ.tail m) = Memᴰ.tail (Mem-ids_of rows row m)

    asked-Mem :
        (t : Table (List (Transaction A))) (id : String) (row : TonTrace (List (Transaction A)))
        → Keyed t
        → Memᴰ id ids
        → t id ≡ some row
        → is_retriable (some row) ≡ true
        → Memᴰ id (ids_of (retriable_rows ids t))
    asked-Mem t id row keyed mem has live =
        subst (λ k. Memᴰ k (ids_of (retriable_rows ids t))) (keyed id row has)
          (Mem-ids_of (retriable_rows ids t) row (retriable_rows-Mem t ids id row mem has live))

    -- What a poll does to a row that can be retried.
    pub poll_all-row :
        (chain : String → Trace A) (t : Table (List (Transaction A))) (id : String)
        (row : TonTrace (List (Transaction A)))
        → Answering chain
        → Keyed t
        → Memᴰ id ids
        → t id ≡ some row
        → is_retriable (some row) ≡ true
        → (poll_all ids chain t).1 id ≡ settle_row (chain id) (some row)
    poll_all-row chain t id row answers keyed mem has live =
        ap (λ polled. polled.1 id) (poll_all-collect chain t)
        ∙ collect_retried-row chain answers (ids_of (retriable_rows ids t)) t id
            (retriable_rows-Distinct t ids keyed distinct) (asked-Mem t id row keyed mem has live)
        ∙ ap (settle_row (chain id)) has

    pub poll_all-sent :
        (chain : String → Trace A) (t : Table (List (Transaction A))) (id : String)
        (row : TonTrace (List (Transaction A)))
        → Answering chain
        → Keyed t
        → Memᴰ id ids
        → t id ≡ some row
        → is_retriable (some row) ≡ true
        → settle_new (chain id) (some row) ≡ true
        → (sent : List (Trace A)) × (((poll_all ids chain t).0 ≡ ok sent) × Memᴰ (chain id) sent)
    poll_all-sent chain t id row answers keyed mem has live new =
        let asked = ids_of (retriable_rows ids t) in
        let (sent, is) = collect_retried-ok (map chain asked) t in
        (
          sent,
          (
            ap (λ polled. polled.0) (poll_all-collect chain t) ∙ is,
            collect_retried-sent chain answers asked t id sent
                (retriable_rows-Distinct t ids keyed distinct)
                (asked-Mem t id row keyed mem has live) (ap (settle_new (chain id)) has ∙ new) is,
          ),
        )

    pub poll_all-Keyed :
        (chain : String → Trace A) (t : Table (List (Transaction A)))
        → Keyed t
        → Keyed (poll_all ids chain t).1
    poll_all-Keyed chain t keyed =
        subst (λ polled. Keyed polled.1) (sym (poll_all-collect chain t))
          (collect_retried-Keyed (map chain (ids_of (retriable_rows ids t))) t keyed)
