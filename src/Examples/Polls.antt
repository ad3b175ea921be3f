-- ===== src/Examples/Polls.antt =====
-- src/subscriber.rs at two traces, polled by a subscriber that has seen none.
use axelar_relayer_ton.Prelude.{
  ℕ, String, Bool, true, false, ◌&&◌, none, List, [], ◌∷◌, ◌≡◌, ◌≢◌, refl, inr, ok, err, ◌==◌,
  ==_iff, string_eq, All, not,
}
use axelar_relayer_ton.Prelude.Int.{pos, negsuc}
use axelar_relayer_ton.Types.{Transaction, Trace}
use axelar_relayer_ton.TonTrace.{JsonEq, from, is_retriable, upsert_and_return_if_changed}
use axelar_relayer_ton.Subscriber.{
  State, upsert_error, max_end_lt, advance, collect, new, poll_account,
}
use axelar_relayer_ton.Subscriber.Fresh.{fresh}
use axelar_relayer_ton.Subscriber.Polling.{answered, poll_account-fresh}
use axelar_relayer_ton.Subscriber.Lost.{poll_account-lost}
use axelar_relayer_ton.Subscriber.Restart.{polls, polls-new}
use axelar_relayer_ton.Examples.Traces.{transaction}

-- Transactions are compared by their hashes.
abbrev same_hashes : List (Transaction ℕ) → List (Transaction ℕ) → Bool
same_hashes [] [] = true
same_hashes (tx ∷ txs) (tx' ∷ txs') = tx.hash == tx'.hash && same_hashes txs txs'
same_hashes _ _ = false

pub same_hashes_refl : (txs : List (Transaction ℕ)) → same_hashes txs txs ≡ true
same_hashes_refl [] = refl
same_hashes_refl (tx ∷ txs) = rw ((==_iff tx.hash tx.hash).1 refl, same_hashes_refl txs)

instance abbrev pub by_hashes : JsonEq (List (Transaction ℕ))
by_hashes = record { same = same_hashes; same_refl = same_hashes_refl }

abbrev pub trace_of : String → Bool → ℕ → Trace ℕ
trace_of trace_id is_incomplete end_lt = record {
  is_incomplete = is_incomplete;
  start_lt = pos 1;
  end_lt = pos end_lt;
  trace_id = trace_id;
  transactions = transaction 1 trace_id 9 "call" ∷ [];
}

abbrev new_subscriber : State ℕ
new_subscriber = record { latest_lt = negsuc 0; height = none; traces = λ _. none }

abbrev two_traces : List (Trace ℕ)
two_traces = trace_of "t1" false 10 ∷ trace_of "t2" true 12 ∷ []

t2_ne_t1 : ◌≢◌ {A = String} "t2" "t1"
t2_ne_t1 e = let h : false ≡ true = (==_iff "t2" "t1").1 e in cc

poll_account-fresh_example :
    ((poll_account (answered two_traces false (λ _. false)) new_subscriber).0
      ≡ ok (fresh new_subscriber.traces two_traces))
    × ((poll_account
          (answered two_traces false (λ _. false))
          (poll_account (answered two_traces false (λ _. false)) new_subscriber).1).0
        ≡ ok [])
poll_account-fresh_example =
    poll_account-fresh two_traces false (λ _. false) new_subscriber (refl, (refl, tt))
      ((t2_ne_t1, tt), (tt, tt))

-- The incomplete trace is not returned, and the cursor is at its end.
first_poll :
    ((poll_account (answered two_traces false (λ _. false)) new_subscriber).0
      ≡ ok (trace_of "t1" false 10 ∷ []))
    × ((poll_account (answered two_traces false (λ _. false)) new_subscriber).1.latest_lt ≡ pos 12)
unfolding poll_account advance max_end_lt collect upsert_and_return_if_changed from
first_poll = (refl, refl)

abbrev fails_t2 : String → Bool
fails_t2 id = id == "t2"

poll_account-lost_example :
    ((poll_account
        (answered (trace_of "t1" false 10 ∷ trace_of "t2" true 12 ∷ []) false fails_t2)
        new_subscriber).0
      ≡ err (upsert_error "t2"))
    × ((poll_account
          (answered (trace_of "t1" false 10 ∷ []) false fails_t2)
          (poll_account
            (answered (trace_of "t1" false 10 ∷ trace_of "t2" true 12 ∷ []) false fails_t2)
            new_subscriber).1).0
        ≡ ok [])
    × All
        (λ trace.
          (is_retriable (
              (poll_account
                  (answered (trace_of "t1" false 10 ∷ trace_of "t2" true 12 ∷ []) false fails_t2)
                  new_subscriber).1.traces
                trace.trace_id)
            && not trace.is_incomplete)
          ≡ false)
        (trace_of "t1" false 10 ∷ [])
poll_account-lost_example =
    poll_account-lost (trace_of "t1" false 10 ∷ []) (trace_of "t2" true 12) [] fails_t2
      new_subscriber (refl, tt) refl (tt, tt)

polls-new_example :
    new
      (inr (polls (answered two_traces false (λ _. false) ∷ []) new_subscriber).height)
      (polls (answered two_traces false (λ _. false) ∷ []) new_subscriber).traces
    ≡ ok (polls (answered two_traces false (λ _. false) ∷ []) new_subscriber)
unfolding new
polls-new_example =
    polls-new (inr none) (λ _. none) new_subscriber (answered two_traces false (λ _. false) ∷ [])
      refl (refl, tt)

-- Where the height cannot be stored, the cursor of the new start is behind.
behind :
    new (inr (polls (answered two_traces true (λ _. false) ∷ []) new_subscriber).height) (λ _. none)
    ≡ ok new_subscriber
unfolding new polls poll_account max_end_lt advance collect
behind = refl
