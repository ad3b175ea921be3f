-- ===== src/Examples/Deliveries.antt =====
-- src/bin/ton_subscriber.rs: two subscribers and the retry subscriber get one trace.
use axelar_relayer_ton.Prelude.{ℕ, ◌≤◌, String, true, false, inr, none, List, [], ◌∷◌, ◌≡◌, refl}
use axelar_relayer_ton.Prelude.Int.{negsuc}
use axelar_relayer_ton.Types.{Trace}
use axelar_relayer_ton.TonTrace.{from, upsert_and_return_if_changed, decrease_retry, update_events}
use axelar_relayer_ton.Subscriber.{max_end_lt, advance, collect, poll_account}
use axelar_relayer_ton.Subscriber.Polling.{answered}
use axelar_relayer_ton.RetrySubscriber.{settle, collect_retried, poll_retries}
use axelar_relayer_ton.Delivery.{
  System, Round, polled, retried, summarised, polled_one, round, rounds,
}
use axelar_relayer_ton.Delivery.Loops.{count}
use axelar_relayer_ton.Delivery.Once.{rounds-once}
use axelar_relayer_ton.Examples.Polls.{by_hashes, trace_of}

abbrev finished : Trace ℕ
finished = trace_of "t1" false 12

abbrev unfinished : Trace ℕ
unfinished = trace_of "t1" true 10

abbrev poll_of : String → Trace ℕ → Round ℕ
poll_of context trace = polled context (answered (trace ∷ []) false (λ _. false))

abbrev retry_of : Trace ℕ → Round ℕ
retry_of trace = retried (record {
  rows = inr (from unfinished ∷ []);
  traces_of = λ ids. inr (trace ∷ []);
  statement_fails = λ _. false;
})

abbrev at_start : System ℕ
at_start = record {
  cursor = λ _. record { latest_lt = negsuc 0; height = none };
  traces = λ _. none;
}

abbrev early : List (Round ℕ)
early = poll_of "gateway" unfinished ∷ retry_of unfinished ∷ []

abbrev late : List (Round ℕ)
late =
    poll_of "gas service" finished
    ∷ polled_one finished
    ∷ summarised "t1" []
    ∷ retry_of finished
    ∷ poll_of "gateway" finished
    ∷ []

rounds-once_example :
    (count "t1" (rounds early at_start).0 ≡ 0)
    × (count "t1" (rounds late (rounds early at_start).1).0 ≤ 1)
rounds-once_example =
    rounds-once finished early late at_start ((λ _. refl, tt), ((λ ids. (λ _. refl, tt)), tt))
      ((λ _. refl, tt), ((λ _. refl), (tt, ((λ ids. (λ _. refl, tt)), ((λ _. refl, tt), tt)))))

-- It is sent by the first of the later rounds.
sent : (rounds late (rounds early at_start).1).0 ≡ finished ∷ []
unfolding rounds round poll_account max_end_lt advance collect poll_retries collect_retried settle
    from upsert_and_return_if_changed decrease_retry update_events
sent = refl
