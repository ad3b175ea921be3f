-- ===== src/RetrySubscriber/End.antt =====
-- src/retry_subscriber.rs: the retries of a trace come to an end.
use axelar_relayer_ton.Prelude.{
  ℕ, zero, suc, ◌≤◌, String, false, Option, none, some, List, [], ◌∷◌, length, ◌≡◌, arith, refl, ap,
  ◌∙◌, All,
}
use axelar_relayer_ton.Prelude.Int.{ℤ, pos, negsuc, pos_part, ltb_ℤ}
use axelar_relayer_ton.Types.{Transaction}
use axelar_relayer_ton.TonTrace.{JsonEq, TonTrace, Table, pred_ℤ, is_retriable}
use axelar_relayer_ton.RetrySubscriber.{poll_retries}
use axelar_relayer_ton.RetrySubscriber.Retries.{
  Round, asked, reports, spend, row_retries, retries_at, no_retries, some_injective,
  poll_retries-retries,
}
use axelar_relayer_ton.Subscriber.Polling.{NoneFails}

pred-budget : (z : ℤ) (n : ℕ) → pos_part z ≤ suc n → pos_part (pred_ℤ z) ≤ n
pred-budget (pos zero) n h = omega arith
pred-budget (pos (suc m)) n h = omega arith
pred-budget (negsuc m) n h = omega arith

ltb_ℤ-spent : (z : ℤ) → pos_part z ≤ 0 → ltb_ℤ (pos 0) z ≡ false
ltb_ℤ-spent (pos n) h = ground arith
ltb_ℤ-spent (negsuc n) h = ground arith

module _ {A : Type 0} ⦃e : JsonEq (List (Transaction A))⦄ where
  spent-is_retriable :
      (o : Option (TonTrace (List (Transaction A)))) (z : ℤ)
      → row_retries o ≡ some z
      → pos_part z ≤ 0
      → is_retriable o ≡ false
  unfolding is_retriable
  spent-is_retriable none z has spent = no_retries has
  spent-is_retriable (some row) z has spent = rw (some_injective has, ltb_ℤ-spent z spent) refl

  -- The table after some polls.
  abbrev pub poll_rounds :
      List (Round A) → Table (List (Transaction A)) → Table (List (Transaction A))
  poll_rounds [] t = t
  poll_rounds (r ∷ rounds) t = poll_rounds rounds (poll_retries (asked r) t).1

  -- No statement of the poll fails, and the client's answer has the trace once, as incomplete.
  abbrev pub StillIncomplete : String → Round A → Type 0
  StillIncomplete id r = NoneFails r.fails r.traces × (reports id r.traces ≡ 1)

  -- A trace that stays incomplete is not retried for ever: after as many polls as it has retries, at
  -- each of which no statement fails and the client's answer has it once, as incomplete, the query for
  -- the retries does not find its row any more.
  pub poll_rounds-is_retriable :
      (rounds : List (Round A)) (t : Table (List (Transaction A))) (id : String) (z : ℤ)
      → All (StillIncomplete id) rounds
      → retries_at t id ≡ some z
      → pos_part z ≤ length rounds
      → is_retriable (poll_rounds rounds t id) ≡ false
  poll_rounds-is_retriable [] t id z still has budget = spent-is_retriable (t id) z has budget
  poll_rounds-is_retriable (r ∷ rounds) t id z still has budget =
      poll_rounds-is_retriable rounds (poll_retries (asked r) t).1 id (pred_ℤ z) still.1
        (poll_retries-retries r t id z still.0.0 has ∙ ap (λ n. some (spend n z)) still.0.1)
        (pred-budget z (length rounds) budget)
