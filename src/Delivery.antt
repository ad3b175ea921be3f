-- ===== src/Delivery.antt =====
-- src/bin/ton_subscriber.rs: the subscribers of the accounts, each with a cursor of its own, and the
-- retry subscriber share one table of traces, to which the ingestor writes as well. A round is a call,
-- or, for calls that run at the same time, one pass of a loop: it has one statement, which the database
-- carries out as a whole. The rounds come in any order.
use axelar_relayer_ton.Prelude.{
  String, Bool, not, ◌&&◌, Option, List, [], ◌∷◌, ◌++◌, Outcome, ok, err, panic, ◌==◌, string_eq,
  if◌then◌else◌,
}
use axelar_relayer_ton.Prelude.Int.{ℤ}
use axelar_relayer_ton.Types.{Trace, Transaction}
use axelar_relayer_ton.TonTrace.{
  JsonEq, Table, EventSummary, update_events, from, upsert_and_return_if_changed,
}
use axelar_relayer_ton.Subscriber.{State, Poll, poll_account, is_changed}
use axelar_relayer_ton.RetrySubscriber.{RetryPoll, settle, poll_retries}
pub mod Loops
pub mod Rounds
pub mod Once

pub record Cursor : Type 0 where
  pub latest_lt : ℤ
  pub height : Option ℤ

-- The cursor of each account, by its text, and the table.
pub record System (A : Type 0) : Type 0 where
  pub cursor : String → Cursor
  pub traces : Table (List (Transaction A))

pub data Round (A : Type 0) : Type 0 where
  polled : (context : String) → Poll A → Round A
  retried : RetryPoll A → Round A
  summarised : (trace_id : String) → List EventSummary → Round A
  polled_one : Trace A → Round A
  retried_one : Trace A → Round A

abbrev pub returned : {E B : Type 0} → Outcome E (List B) → List B
returned (ok traces) = traces
returned (err e) = []
returned panic = []

abbrev pub sent : {B : Type 0} → Bool → B → List B
sent is_new trace = if is_new then trace ∷ [] else []

module _ {A : Type 0} ⦃e : JsonEq (List (Transaction A))⦄ where
  abbrev pub at_account : String → System A → State A
  at_account context s = record {
    latest_lt = (s.cursor context).latest_lt;
    height = (s.cursor context).height;
    traces = s.traces;
  }

  abbrev pub set_cursor : String → State A → (String → Cursor) → String → Cursor
  set_cursor context s cursor k =
      if k == context then record { latest_lt = s.latest_lt; height = s.height } else cursor k

  -- The traces that a round sends to the queue, and the system after it.
  unfoldable pub round : Round A → System A → List (Trace A) × System A
  unfolding poll_account poll_retries update_events
  round (polled context p) s =
      let (result, s') = poll_account p (at_account context s) in
      (returned result, record { cursor = set_cursor context s' s.cursor; traces = s'.traces })
  round (retried p) s =
      let (result, traces) = poll_retries p s.traces in
      (returned result, record s { traces = traces })
  round (summarised trace_id events) s =
      ([], record s { traces = update_events trace_id events s.traces })
  round (polled_one trace) s =
      let (changed, traces) = upsert_and_return_if_changed (from trace) s.traces in
      (sent (is_changed changed && not trace.is_incomplete) trace, record s { traces = traces })
  round (retried_one trace) s =
      let (is_new, traces) = settle trace s.traces in
      (sent is_new trace, record s { traces = traces })

  unfoldable pub rounds : List (Round A) → System A → List (Trace A) × System A
  unfolding round
  rounds [] s = ([], s)
  rounds (r ∷ rs) s =
      let (sent, s') = round r s in let (later, s'') = rounds rs s' in (sent ++ later, s'')
