-- ===== src/Delivery/Loops.antt =====
-- src/subscriber.rs and src/retry_subscriber.rs: a bound on how often their loops return a trace, from
-- a bound on what one statement does.
use axelar_relayer_ton.Prelude.{
  ℕ, suc, ◌+◌, ◌≤◌, String, Bool, true, false, not, ◌&&◌, inl, inr, List, [], ◌∷◌, ◌++◌, ◌≡◌, refl,
  All, Outcome, ok, err, panic, ◌>>=◌, Bool-cases, ◌==◌, string_eq, if◌then◌else◌, arith,
}
use axelar_relayer_ton.Types.{Trace, Transaction}
use axelar_relayer_ton.TonTrace.{JsonEq, Table, from, upsert_and_return_if_changed}
use axelar_relayer_ton.Subscriber.{is_changed, collect}
use axelar_relayer_ton.RetrySubscriber.{settle, collect_retried}
use axelar_relayer_ton.Delivery.{returned, sent}

module _ {A : Type 0} (id : String) where
  -- How many of the traces have the id.
  abbrev pub count : List (Trace A) → ℕ
  count [] = 0
  count (trace ∷ traces) = if trace.trace_id == id then suc (count traces) else count traces

  pub count-append :
      (front back : List (Trace A)) → count (front ++ back) ≡ count front + count back
  count-append [] back = omega arith
  count-append (trace ∷ front) back = elim (Bool-cases (trace.trace_id == id)) [
    | inl is ↦ (let rest = count-append front back in rw is (omega (arith, rest)))
    | inr other ↦ rw other (count-append front back)
  ]

  -- One for a trace with the id that is returned.
  abbrev pub cost : Bool → Trace A → ℕ
  cost is_new trace = if is_new && trace.trace_id == id then 1 else 0

  pub count-sent : (is_new : Bool) (trace : Trace A) → count (sent is_new trace) ≡ cost is_new trace
  count-sent true trace = elim (Bool-cases (trace.trace_id == id)) [
    | inl is ↦ rw is refl
    | inr other ↦ rw other refl
  ]
  count-sent false trace = refl

  module _ {E S : Type 0} (room : S → ℕ) where
    abbrev pub kept :
        Bool → Trace A → Outcome E (List (Trace A)) → S → Outcome E (List (Trace A)) × S
    kept is_new trace unseen t =
        if is_new then (unseen >>= λ rest. ok (trace ∷ rest), t) else (unseen, t)

    count-kept :
        (is_new : Bool) (trace : Trace A) (unseen : Outcome E (List (Trace A))) (t : S)
        → count (returned (kept is_new trace unseen t).0) + room (kept is_new trace unseen t).1
          ≤ cost is_new trace + (count (returned unseen) + room t)
    count-kept false trace unseen t = omega arith
    count-kept true trace (ok rest) t = elim (Bool-cases (trace.trace_id == id)) [
      | inl is ↦ rw is (omega arith)
      | inr other ↦ rw other (omega arith)
    ]
    count-kept true trace (err e) t = omega arith
    count-kept true trace panic t = omega arith

module _ {A : Type 0} ⦃e : JsonEq (List (Transaction A))⦄ (id : String)
    (room : Table (List (Transaction A)) → ℕ) where
  -- A statement for the trace takes from the room what it costs.
  abbrev pub Upserts : Trace A → Type 0
  Upserts trace =
      (t : Table (List (Transaction A)))
      → let (changed, t') = upsert_and_return_if_changed (from trace) t in
        cost id (is_changed changed && not trace.is_incomplete) trace + room t' ≤ room t

  abbrev pub Settles : Trace A → Type 0
  Settles trace =
      (t : Table (List (Transaction A)))
      → cost id (settle trace t).0 trace + room (settle trace t).1 ≤ room t

  pub collect-count :
      (fails : String → Bool) (traces : List (Trace A)) (t : Table (List (Transaction A)))
      → All Upserts traces
      → count id (returned (collect fails traces t).0) + room (collect fails traces t).1 ≤ room t
  unfolding collect
  collect-count fails [] t upserts = omega arith
  collect-count fails (trace ∷ traces) t upserts =
      let (changed, t') = upsert_and_return_if_changed (from trace) t in
      let rest = collect-count fails traces t' upserts.1 in
      let here = upserts.0 t in
      let later =
        count-kept id room (is_changed changed && not trace.is_incomplete) trace
          (collect fails traces t').0 (collect fails traces t').1 in
      elim (Bool-cases (fails trace.trace_id)) [
        | inl down ↦ rw down (omega arith)
        | inr works ↦ rw works (omega (arith, later, rest, here))
      ]

  pub collect_retried-count :
      (fails : String → Bool) (traces : List (Trace A)) (t : Table (List (Transaction A)))
      → All Settles traces
      → count id (returned (collect_retried fails traces t).0)
          + room (collect_retried fails traces t).1
        ≤ room t
  unfolding collect_retried
  collect_retried-count fails [] t settles = omega arith
  collect_retried-count fails (trace ∷ traces) t settles =
      let (is_new, t') = settle trace t in
      let rest = collect_retried-count fails traces t' settles.1 in
      let here = settles.0 t in
      let later =
        count-kept id room is_new trace (collect_retried fails traces t').0
          (collect_retried fails traces t').1 in
      elim (Bool-cases (fails trace.trace_id)) [
        | inl down ↦ rw down (omega arith)
        | inr works ↦ rw works (omega (arith, later, rest, here))
      ]
