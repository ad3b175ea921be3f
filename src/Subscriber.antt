-- ===== src/Subscriber.antt =====
-- src/subscriber.rs: the traces of an account that are new.
pub mod Fresh
pub mod Polling
pub mod Lost
pub mod Restart
use axelar_relayer_ton.Prelude.{
  ℕ, zero, String, Bool, true, false, not, ◌&&◌, ◌⊎◌, inl, inr, Option, none, some, List, [], ◌∷◌,
  Outcome, ok, err, panic, ◌>>=◌, if◌then◌else◌,
}
use axelar_relayer_ton.Prelude.Int.{ℤ, pos, negsuc, ltb_ℤ}
use axelar_relayer_ton.Types.{Trace, Transaction}
use axelar_relayer_ton.TonTrace.{JsonEq, TonTrace, Table, from, upsert_and_return_if_changed}

-- Why a poll fails: the client's request, or the statement for a trace.
pub data PollError : Type 0 where
  client_error upsert_error : String → PollError

-- The subscriber, its height in the database and the table of traces.
pub record State (A : Type 0) : Type 0 where
  pub latest_lt : ℤ
  pub height : Option ℤ
  pub traces : Table (List (Transaction A))

-- What the other parties do at one poll: the answer of the client, whether the height can be stored,
-- and the trace ids at which the table's statement fails.
pub record Poll (A : Type 0) : Type 0 where
  pub answer : String ⊎ List (Trace A)
  pub height_fails : Bool
  pub upsert_fails : String → Bool

-- relayer_core::error::SubscriberError, the one case that the file makes
pub data SubscriberError : Type 0 where
  generic_error : String → SubscriberError

-- `unwrap_or(-1)`
abbrev pub unwrap_or_minus_one : Option ℤ → ℤ
unwrap_or_minus_one none = negsuc 0
unwrap_or_minus_one (some lt) = lt

abbrev pub max_lt : ℤ → ℤ → ℤ
max_lt a b = if ltb_ℤ a b then b else a

abbrev pub is_changed : {B : Type 0} → Option B → Bool
is_changed none = false
is_changed (some _) = true

abbrev pub is_minus_one : ℤ → Bool
is_minus_one (negsuc zero) = true
is_minus_one _ = false

module _ {A : Type 0} where
  -- `traces.iter().map(|trace| trace.end_lt).max()`
  unfoldable pub max_end_lt : List (Trace A) → Option ℤ
  max_end_lt [] = none
  max_end_lt (trace ∷ traces) = elim (max_end_lt traces) [
    | none ↦ some trace.end_lt
    | some lt ↦ some (max_lt trace.end_lt lt)
  ]

  -- A subscriber at start, from the answer of the database for the height.
  unfoldable pub new :
      String ⊎ Option ℤ → Table (List (Transaction A)) → Outcome SubscriberError (State A)
  new (inl e) traces = err (generic_error e)
  new (inr height) traces =
      ok (record { latest_lt = unwrap_or_minus_one height; height = height; traces = traces })

  -- The lower bound that the poll asks for.
  unfoldable pub start_lt : State A → Option ℤ
  start_lt s = if is_minus_one s.latest_lt then none else some s.latest_lt

  -- The cursor moves before the traces are written; a failure to store it is only logged.
  unfoldable pub advance : Poll A → Option ℤ → State A → State A
  advance p none s = s
  advance p (some lt) s = record s {
    latest_lt = lt;
    height = if p.height_fails then s.height else some lt;
  }

module _ {A : Type 0} ⦃e : JsonEq (List (Transaction A))⦄ where
  -- The loop over the traces.
  unfoldable pub collect :
      (String → Bool)
      → List (Trace A)
      → Table (List (Transaction A))
      → Outcome PollError (List (Trace A)) × Table (List (Transaction A))
  collect fails [] t = (ok [], t)
  collect fails (trace ∷ traces) t =
      let (changed, t') = upsert_and_return_if_changed (from trace) t in
      let (unseen, t'') = collect fails traces t' in
      if fails trace.trace_id
      then (err (upsert_error trace.trace_id), t)
      else if is_changed changed && not trace.is_incomplete
      then (unseen >>= λ rest. ok (trace ∷ rest), t'')
      else (unseen, t'')

  unfoldable pub poll_account : Poll A → State A → Outcome PollError (List (Trace A)) × State A
  poll_account p s = elim p.answer [
    | inl error ↦ (err (client_error error), s)
    | inr traces ↦
        (let s' = advance p (max_end_lt traces) s in
          let (unseen, t) = collect p.upsert_fails traces s'.traces in
          (unseen, record s' { traces = t }))
  ]
