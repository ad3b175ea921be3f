-- ===== src/Delivery/Rounds.antt =====
-- src/bin/ton_subscriber.rs: the bound for the loops, for rounds in any order.
use axelar_relayer_ton.Prelude.{
  ℕ, ◌+◌, ◌≤◌, String, Bool, not, ◌&&◌, ◌⊎◌, inl, inr, List, [], ◌∷◌, map, ◌≡◌, refl, sym, subst,
  All, All-map, Outcome, err, arith,
}
use axelar_relayer_ton.Types.{Trace, Transaction}
use axelar_relayer_ton.TonTrace.{
  from, upsert_and_return_if_changed, JsonEq, TonTrace, Table, EventSummary, update_events,
}
use axelar_relayer_ton.Subscriber.{
  State, Poll, max_end_lt, advance, collect, poll_account, is_changed,
}
use axelar_relayer_ton.Subscriber.Polling.{advance-traces}
use axelar_relayer_ton.RetrySubscriber.{
  settle, RetryPoll, RetryError, request_error, collect_retried, poll_retries,
}
use axelar_relayer_ton.Delivery.{
  System, Round, polled, retried, summarised, polled_one, retried_one, returned, at_account, round,
  rounds,
}
use axelar_relayer_ton.Delivery.Loops.{
  count, count-append, count-sent, Upserts, Settles, collect-count, collect_retried-count,
}

abbrev pub OfAnswer : {A : Type 0} → (Trace A → Type 0) → String ⊎ List (Trace A) → Type 0
OfAnswer P (inl error) = Unit
OfAnswer P (inr traces) = All P traces

-- All traces of the answers to a round.
abbrev pub Answers : {A : Type 0} → (Trace A → Type 0) → Round A → Type 0
Answers P (polled context p) = OfAnswer P p.answer
Answers P (retried p) = (ids : List String) → OfAnswer P (p.traces_of ids)
Answers P (summarised trace_id events) = Unit
Answers P (polled_one trace) = P trace
Answers P (retried_one trace) = P trace

OfAnswer-map :
    {A : Type 0} {P Q : Trace A → Type 0} (answer : String ⊎ List (Trace A))
    → ((y : Trace A) → P y → Q y)
    → OfAnswer P answer
    → OfAnswer Q answer
OfAnswer-map (inl error) f h = tt
OfAnswer-map (inr traces) f h = All-map traces f h

Answer-cases :
    {B : Type 0} (answer : String ⊎ B)
    → ((error : String) × (answer ≡ inl error)) ⊎ ((b : B) × (answer ≡ inr b))
Answer-cases (inl error) = inl (error, refl)
Answer-cases (inr b) = inr (b, refl)

module _ {A : Type 0} ⦃e : JsonEq (List (Transaction A))⦄ (id : String)
    (room : Table (List (Transaction A)) → ℕ) (P : Trace A → Type 0)
    (P-Upserts : (y : Trace A) → P y → Upserts id room y)
    (P-Settles : (y : Trace A) → P y → Settles id room y)
    (room-update_events : (trace_id : String) (events : List EventSummary)
        (t : Table (List (Transaction A)))
      → room (update_events trace_id events t) ≤ room t) where
  poll-count :
      (answer : String ⊎ List (Trace A)) (height_fails : Bool) (upsert_fails : String → Bool)
      (s : State A)
      → OfAnswer P answer
      → let p : Poll A = record {
        answer = answer;
        height_fails = height_fails;
        upsert_fails = upsert_fails;
      } in
        count id (returned (poll_account p s).0) + room (poll_account p s).1.traces ≤ room s.traces
  unfolding poll_account
  poll-count (inl error) height_fails upsert_fails s of_answer = omega arith
  poll-count (inr traces) height_fails upsert_fails s of_answer =
      let p : Poll A = record {
        answer = inr traces;
        height_fails = height_fails;
        upsert_fails = upsert_fails;
      } in
      subst
        (λ t.
          count id
              (returned (collect upsert_fails traces (advance p (max_end_lt traces) s).traces).0)
            + room (collect upsert_fails traces (advance p (max_end_lt traces) s).traces).1
          ≤ room t)
        (advance-traces p (max_end_lt traces) s)
        (collect-count id room upsert_fails traces (advance p (max_end_lt traces) s).traces
          (All-map traces P-Upserts of_answer))

  -- What the client answers is what the loop goes over.
  retry-answered :
      (row : TonTrace (List (Transaction A))) (rows : List (TonTrace (List (Transaction A))))
      (traces_of : List String → String ⊎ List (Trace A)) (fails : String → Bool)
      (t : Table (List (Transaction A))) (traces : List (Trace A))
      → traces_of (map (λ r. r.trace_id) (row ∷ rows)) ≡ inr traces
      → poll_retries
          (record { rows = inr (row ∷ rows); traces_of = traces_of; statement_fails = fails })
          t
        ≡ collect_retried fails traces t
  unfolding poll_retries
  retry-answered row rows traces_of fails t traces is = rw is refl

  retry-failed :
      (row : TonTrace (List (Transaction A))) (rows : List (TonTrace (List (Transaction A))))
      (traces_of : List String → String ⊎ List (Trace A)) (fails : String → Bool)
      (t : Table (List (Transaction A))) (error : String)
      → traces_of (map (λ r. r.trace_id) (row ∷ rows)) ≡ inl error
      → poll_retries
          (record { rows = inr (row ∷ rows); traces_of = traces_of; statement_fails = fails })
          t
        ≡ (err (request_error error), t)
  unfolding poll_retries
  retry-failed row rows traces_of fails t error is = rw is refl

  abbrev Within :
      Table (List (Transaction A))
      → Outcome RetryError (List (Trace A)) × Table (List (Transaction A))
      → Type 0
  Within t after = count id (returned after.0) + room after.1 ≤ room t

  retry-count :
      (rows : String ⊎ List (TonTrace (List (Transaction A))))
      (traces_of : List String → String ⊎ List (Trace A)) (fails : String → Bool)
      (t : Table (List (Transaction A)))
      → ((ids : List String) → OfAnswer P (traces_of ids))
      → let p : RetryPoll A = record {
        rows = rows;
        traces_of = traces_of;
        statement_fails = fails;
      } in
        count id (returned (poll_retries p t).0) + room (poll_retries p t).1 ≤ room t
  unfolding poll_retries
  retry-count (inl error) traces_of fails t of_answers = omega arith
  retry-count (inr []) traces_of fails t of_answers = omega arith
  retry-count (inr (row ∷ rows)) traces_of fails t of_answers =
      let ids = map (λ r. r.trace_id) (row ∷ rows) in
      elim (Answer-cases (traces_of ids)) [
        | inl (error, is) ↦
            subst (Within t) (sym (retry-failed row rows traces_of fails t error is)) (omega arith)
        | inr (traces, is) ↦
            (let of_answer = subst (OfAnswer P) is (of_answers ids) in
              subst (Within t) (sym (retry-answered row rows traces_of fails t traces is))
                (collect_retried-count id room fails traces t (All-map traces P-Settles of_answer)))
      ]

  round-count :
      (r : Round A) (s : System A)
      → Answers P r
      → count id (round r s).0 + room (round r s).1.traces ≤ room s.traces
  unfolding round
  round-count (polled context p) s answers =
      poll-count p.answer p.height_fails p.upsert_fails (at_account context s) answers
  round-count (retried p) s answers =
      retry-count p.rows p.traces_of p.statement_fails s.traces answers
  round-count (summarised trace_id events) s answers =
      omega (arith, room-update_events trace_id events s.traces)
  round-count (polled_one trace) s answers =
      let (changed, t') = upsert_and_return_if_changed (from trace) s.traces in
      let one = count-sent id (is_changed changed && not trace.is_incomplete) trace in
      omega (arith, one, P-Upserts trace answers s.traces)
  round-count (retried_one trace) s answers =
      let one = count-sent id (settle trace s.traces).0 trace in
      omega (arith, one, P-Settles trace answers s.traces)

  pub rounds-count :
      (rs : List (Round A)) (s : System A)
      → All (Answers P) rs
      → count id (rounds rs s).0 + room (rounds rs s).1.traces ≤ room s.traces
  unfolding rounds
  rounds-count [] s answers = omega arith
  rounds-count (r ∷ rs) s answers =
      let first = round-count r s answers.0 in
      let rest = rounds-count rs (round r s).1 answers.1 in
      let both = count-append id (round r s).0 (rounds rs (round r s).1).0 in
      omega (arith, first, rest, both)
