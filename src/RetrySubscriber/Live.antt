-- ===== src/RetrySubscriber/Live.antt =====
-- src/retry_subscriber.rs over src/models/ton_trace.rs: a trace that becomes complete is sent.
use mathlib.Core.List.{Memᴰ}
use axelar_relayer_ton.Prelude.{
  ℕ, zero, suc, ◌≤◌, ◌<◌, String, Bool, true, false, ◌&&◌, some, List, length, ◌≡◌, refl, ap, ◌∙◌,
  ok, string_eq, arith,
}
use axelar_relayer_ton.Prelude.Int.{pos, ltb_ℤ}
use axelar_relayer_ton.Types.{Trace, Transaction}
use axelar_relayer_ton.TonTrace.{JsonEq, TonTrace, Table, from, is_retriable}
use axelar_relayer_ton.TonTrace.Fetch.{Keyed, Distinct}
use axelar_relayer_ton.RetrySubscriber.Answered.{settle_row, settle_new, Answering}
use axelar_relayer_ton.RetrySubscriber.AllPolls.{
  poll_all, after, poll_all-row, poll_all-sent, poll_all-Keyed,
}

and_false : (b : Bool) → (b && false) ≡ false
and_false true = refl
and_false false = refl

module _ {A : Type 0} ⦃e : JsonEq (List (Transaction A))⦄ where
  retriable-pos :
      (row : TonTrace (List (Transaction A))) (m : ℕ)
      → row.is_incomplete ≡ true
      → row.retries ≡ pos (suc m)
      → is_retriable (some row) ≡ true
  unfolding is_retriable
  retriable-pos row m incomplete left =
      let more : ltb_ℤ (pos 0) (pos (suc m)) ≡ true = ground arith in
      rw (left, more, incomplete) refl

  -- A complete trace differs from an incomplete row: it is sent, and its row is not found again.
  complete-new :
      (y : Trace A) (row : TonTrace (List (Transaction A)))
      → row.is_incomplete ≡ true
      → y.is_incomplete ≡ false
      → settle_new y (some row) ≡ true
  unfolding from
  complete-new y row incomplete complete = rw (complete, incomplete) refl

  complete-settled :
      (y : Trace A) (row : TonTrace (List (Transaction A)))
      → row.is_incomplete ≡ true
      → y.is_incomplete ≡ false
      → is_retriable (settle_row y (some row)) ≡ false
  unfolding is_retriable from
  complete-settled y row incomplete complete =
      rw (complete, incomplete) (and_false (ltb_ℤ (pos 0) row.retries))

  incomplete-settled :
      (y : Trace A) (row : TonTrace (List (Transaction A))) (m : ℕ)
      → y.is_incomplete ≡ true
      → row.retries ≡ pos (suc m)
      → settle_row y (some row) ≡ some (record row { retries = pos m })
  incomplete-settled y row m incomplete left = rw (incomplete, left) refl

  module _ (ids : List String) (few : length ids ≤ 100) (distinct : Distinct ids) (id : String)
      (listed : Memᴰ id ids) where
    -- Suppose that polls for retries alone change a table of a hundred rows at most, each under its
    -- trace id, that the node answers each of them with a trace for each id that is asked for, that no
    -- statement fails, and that a row of the table is incomplete and has more retries than the polls at
    -- which its trace is still incomplete. Then the first poll at which the trace is complete returns
    -- it, and the query does not find its row any more.
    pub poll_all-live :
        (k : ℕ) (chains : ℕ → String → Trace A) (t : Table (List (Transaction A)))
        (row : TonTrace (List (Transaction A))) (m : ℕ)
        → ((i : ℕ) → Answering (chains i))
        → Keyed t
        → t id ≡ some row
        → row.is_incomplete ≡ true
        → row.retries ≡ pos m
        → k < m
        → ((i : ℕ) → i < k → (chains i id).is_incomplete ≡ true)
        → (chains k id).is_incomplete ≡ false
        → let polled = poll_all ids (chains k) (after ids k chains t) in
          ((sent : List (Trace A)) × ((polled.0 ≡ ok sent) × Memᴰ (chains k id) sent))
          × (is_retriable (polled.1 id) ≡ false)
    unfolding after
    poll_all-live k chains t row zero answers keyed has unfinished left more early done =
        absurd (omega arith)
    poll_all-live zero chains t row (suc m) answers keyed has unfinished left more early done =
        let live = retriable-pos row m unfinished left in
        (
          poll_all-sent ids few distinct (chains 0) t id row (answers 0) keyed listed has live
              (complete-new (chains 0 id) row unfinished done),
          ap is_retriable (
                poll_all-row ids few distinct (chains 0) t id row (answers 0) keyed listed has live)
              ∙ complete-settled (chains 0 id) row unfinished done,
        )
    poll_all-live (suc k) chains t row (suc m) answers keyed has unfinished left more early done =
        let live = retriable-pos row m unfinished left in
        poll_all-live k (λ i. chains (suc i)) (poll_all ids (chains 0) t).1
          (record row { retries = pos m }) m (λ i. answers (suc i))
          (poll_all-Keyed ids few distinct (chains 0) t keyed)
          (poll_all-row ids few distinct (chains 0) t id row (answers 0) keyed listed has live
            ∙ incomplete-settled (chains 0 id) row m (early 0 (omega arith)) left)
          unfinished refl (omega arith) (λ i less. early (suc i) (omega arith)) done
