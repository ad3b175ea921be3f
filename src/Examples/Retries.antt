-- ===== src/Examples/Retries.antt =====
-- src/retry_subscriber.rs at a trace with two retries that stays incomplete.
use mathlib.Core.List.{Memᴰ}
use mathlib.Core.Option.{some_inj}
use axelar_relayer_ton.Prelude.{
  zero, suc, ◌<◌, inl, inr, Option, Bool-cases, ==_iff, ap, sym, ◌∙◌, ℕ, String, ◌≢◌, true, false,
  none, some, List, [], ◌∷◌, ◌≡◌, refl, ok, ◌==◌, string_eq, if◌then◌else◌, arith,
}
use axelar_relayer_ton.Prelude.Int.{pos}
use axelar_relayer_ton.Types.{Transaction, Trace}
use axelar_relayer_ton.TonTrace.{
  TonTrace, Table, from, upsert_and_return_if_changed, upsert, find, delete, decrease_retry,
  is_retriable, fetch_retry,
}
use axelar_relayer_ton.TonTrace.Fetch.{Keyed}
use axelar_relayer_ton.TonTrace.Rows.{Upserted, find-upsert}
use axelar_relayer_ton.RetrySubscriber.{RetryPoll, settle, collect_retried, poll_retries}
use axelar_relayer_ton.RetrySubscriber.Retries.{Round, asked, retries_at, poll_retries-retries}
use axelar_relayer_ton.RetrySubscriber.End.{poll_rounds, poll_rounds-is_retriable}
use axelar_relayer_ton.RetrySubscriber.Answered.{Answering}
use axelar_relayer_ton.RetrySubscriber.AllPolls.{poll_all, after}
use axelar_relayer_ton.RetrySubscriber.Live.{poll_all-live}
use axelar_relayer_ton.Examples.Polls.{by_hashes, trace_of}

abbrev incomplete_row : TonTrace (List (Transaction ℕ))
incomplete_row = record {
  trace_id = "t2";
  is_incomplete = true;
  start_lt = pos 1;
  end_lt = pos 12;
  retries = pos 2;
  transactions = [];
  events = none;
}

abbrev one_row : Table (List (Transaction ℕ))
one_row id = if id == "t2" then some incomplete_row else none

abbrev told : List (Trace ℕ) → Round ℕ
told traces = record { row = incomplete_row; rows = []; traces = traces; fails = λ _. false }

abbrev still : Round ℕ
still = told (trace_of "t2" true 12 ∷ [])

poll_retries-retries_example : retries_at (poll_retries (asked still) one_row).1 "t2" ≡ some (pos 1)
poll_retries-retries_example = poll_retries-retries still one_row "t2" (pos 2) (refl, tt) refl

poll_rounds-is_retriable_example :
    is_retriable (poll_rounds (still ∷ still ∷ []) one_row "t2") ≡ false
poll_rounds-is_retriable_example =
    poll_rounds-is_retriable (still ∷ still ∷ []) one_row "t2" (pos 2)
      (((refl, tt), refl), (((refl, tt), refl), tt)) refl (omega arith)

-- After one of the two polls the row is still found.
retried_again : is_retriable (poll_rounds (still ∷ []) one_row "t2") ≡ true
unfolding is_retriable poll_retries collect_retried settle decrease_retry from
retried_again = refl

-- A trace that has become complete is returned.
becomes_complete :
    (poll_retries (asked (told (trace_of "t2" false 12 ∷ []))) one_row).0
    ≡ ok (trace_of "t2" false 12 ∷ [])
unfolding poll_retries collect_retried settle upsert_and_return_if_changed from
becomes_complete = refl

-- The trace has become complete, and its row keeps the retries.
completed :
    find "t2" (upsert (from (trace_of "t2" false 12)) one_row)
    ≡ some (record incomplete_row {
      is_incomplete = false;
      transactions = (trace_of "t2" false 12).transactions;
    })
unfolding find upsert upsert_and_return_if_changed from
completed = refl

find-upsert_example :
    Upserted
      (from (trace_of "t2" false 12))
      (find "t2" one_row)
      (find "t2" (upsert (from (trace_of "t2" false 12)) one_row))
    × ((id : String)
        → id ≢ "t2"
        → find id (upsert (from (trace_of "t2" false 12)) one_row) ≡ find id one_row)
unfolding find from
find-upsert_example = find-upsert (from (trace_of "t2" false 12)) one_row

deleted : find "t2" (delete incomplete_row one_row) ≡ none
unfolding find delete
deleted = refl

-- The node knows the trace as incomplete at the first poll, and as complete then.
abbrev chains : ℕ → String → Trace ℕ
chains zero id = trace_of id true 12
chains (suc k) id = trace_of id false 13

one_row-Keyed : Keyed one_row
one_row-Keyed id row is = elim (Bool-cases (id == "t2")) [
  | inr other ↦
      (let fails : ◌≡◌ {A = Option (TonTrace (List (Transaction ℕ)))} none (some row) =
          rw other at is in
        cc)
  | inl here ↦
      (let found : some incomplete_row ≡ some row = rw here at is in
        ap (λ r. r.trace_id) (sym (some_inj.0 found)) ∙ sym ((==_iff id "t2").0 here))
]

poll_all-live_example :
    ((sent : List (Trace ℕ)) × (((poll_all
            ("t2" ∷ [])
            (chains 1)
            (after ("t2" ∷ []) 1 chains one_row)).0
          ≡ ok sent)
        × Memᴰ (trace_of "t2" false 13) sent))
    × (is_retriable ((poll_all ("t2" ∷ []) (chains 1) (after ("t2" ∷ []) 1 chains one_row)).1 "t2")
        ≡ false)
poll_all-live_example =
    poll_all-live ("t2" ∷ []) (omega arith) (tt, tt) "t2" (Memᴰ.head refl) 1 chains one_row
      incomplete_row 2 answers one_row-Keyed refl refl refl (omega arith) first_incomplete refl
  where
    answers : (i : ℕ) → Answering (chains i)
    answers zero id = refl
    answers (suc i) id = refl

    first_incomplete : (i : ℕ) → i < 1 → (chains i "t2").is_incomplete ≡ true
    first_incomplete zero less = refl
    first_incomplete (suc i) less = absurd (omega arith)

-- A trace that the node does not know takes no retry from its row, which is found first again; with a
-- limit of one row, the other is never asked for.
abbrev two_rows : Table (List (Transaction ℕ))
two_rows id = if id == "t1" then some (record incomplete_row { trace_id = "t1" }) else one_row id

abbrev unknown : RetryPoll ℕ
unknown = record {
  rows = inr (fetch_retry 1 ("t1" ∷ "t2" ∷ []) two_rows);
  traces_of = λ asked. inr [];
  statement_fails = λ id. false;
}

starved :
    (fetch_retry 1 ("t1" ∷ "t2" ∷ []) two_rows ≡ record incomplete_row { trace_id = "t1" } ∷ [])
    × ((poll_retries unknown two_rows).1 ≡ two_rows)
unfolding fetch_retry is_retriable poll_retries collect_retried
starved = (refl, refl)
