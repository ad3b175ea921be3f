-- ===== src/Delivery/Once.antt =====
-- src/bin/ton_subscriber.rs: a trace is sent once.
use axelar_relayer_ton.Prelude.{
  ℕ, ◌+◌, ◌≤◌, String, Bool, true, false, not, ◌&&◌, inl, inr, Option, none, some, List, ◌≡◌, refl,
  sym, ap, subst, All, Bool-cases, ◌==◌, ==_iff, string_eq, if◌then◌else◌, arith,
}
use axelar_relayer_ton.Types.{Trace, Transaction}
use axelar_relayer_ton.TonTrace.{
  JsonEq, TonTrace, Table, EventSummary, from, upsert_and_return_if_changed, decrease_retry,
  spend_row, with_events, update_events,
}
use axelar_relayer_ton.Subscriber.{is_changed}
use axelar_relayer_ton.Subscriber.Fresh.{
  stored, same_row, changed-stored, upsert-stored, upsert-elsewhere,
}
use axelar_relayer_ton.RetrySubscriber.{settle}
use axelar_relayer_ton.Delivery.{System, Round, rounds}
use axelar_relayer_ton.Delivery.Loops.{count, cost, Upserts, Settles}
use axelar_relayer_ton.Delivery.Rounds.{Answers, rounds-count}

abbrev left : Bool → ℕ
left has = if has then 0 else 1

module _ {A : Type 0} (id : String) where
  cost_other : (b : Bool) (y : Trace A) → (y.trace_id == id) ≡ false → cost id b y ≡ 0
  cost_other true y other = rw other
  cost_other false y other = refl

  cost_unfinished :
      (b : Bool) (y : Trace A) → y.is_incomplete ≡ true → cost id (b && not y.is_incomplete) y ≡ 0
  cost_unfinished true y incomplete = rw incomplete
  cost_unfinished false y incomplete = refl

  cost_le : (b : Bool) (y : Trace A) → cost id b y ≤ 1
  cost_le true y = elim (Bool-cases (y.trace_id == id)) [
    | inl is ↦ rw is (omega arith)
    | inr other ↦ rw other (omega arith)
  ]
  cost_le false y = omega arith

module _ {A : Type 0} ⦃e : JsonEq (List (Transaction A))⦄ where
  stored-spend_row :
      (o : Option (TonTrace (List (Transaction A)))) (x : Trace A)
      → same_row (spend_row o) x ≡ same_row o x
  unfolding from
  stored-spend_row none x = refl
  stored-spend_row (some row) x = refl

  stored-with_events :
      (events : List EventSummary) (o : Option (TonTrace (List (Transaction A)))) (x : Trace A)
      → same_row (with_events events o) x ≡ same_row o x
  unfolding from
  stored-with_events events none x = refl
  stored-with_events events (some row) x = refl

  stored-decrease_retry :
      (tx : TonTrace (List (Transaction A))) (t : Table (List (Transaction A))) (x : Trace A)
      → stored (decrease_retry tx t) x ≡ stored t x
  unfolding stored decrease_retry
  stored-decrease_retry tx t x = elim (Bool-cases (x.trace_id == tx.trace_id)) [
    | inl is ↦ rw is (stored-spend_row (t x.trace_id) x)
    | inr other ↦ rw other refl
  ]

  stored-update_events :
      (trace_id : String) (events : List EventSummary) (t : Table (List (Transaction A)))
      (x : Trace A)
      → stored (update_events trace_id events t) x ≡ stored t x
  unfolding stored update_events
  stored-update_events trace_id events t x = elim (Bool-cases (x.trace_id == trace_id)) [
    | inl is ↦ rw is (stored-with_events events (t x.trace_id) x)
    | inr other ↦ rw other refl
  ]

  -- Whether the trace can still be sent.
  abbrev room : Trace A → Table (List (Transaction A)) → ℕ
  room x t = left (stored t x)

  room-le : (x : Trace A) (t : Table (List (Transaction A))) → room x t ≤ 1
  room-le x t = elim (Bool-cases (stored t x)) [
    | inl has ↦ rw has (omega arith)
    | inr lacks ↦ rw lacks (omega arith)
  ]

  -- A trace of this id is this trace.
  abbrev pub Settled : Trace A → Trace A → Type 0
  Settled x y = y.trace_id ≡ x.trace_id → y ≡ x

  abbrev pub Unfinished : String → Trace A → Type 0
  Unfinished id y = y.trace_id ≡ id → y.is_incomplete ≡ true

  self-Upserts : (x : Trace A) → Upserts x.trace_id (room x) x
  self-Upserts x t =
      let (changed, t') = upsert_and_return_if_changed (from x) t in
      let most = cost_le x.trace_id (is_changed changed && not x.is_incomplete) x in
      elim (Bool-cases (stored t x)) [
        | inl has ↦
            (let old : is_changed changed ≡ false = rw has at (changed-stored x t) in
              rw (upsert-stored x t, old) (omega arith))
        | inr lacks ↦ rw (upsert-stored x t, lacks) (omega (arith, most))
      ]

  Settled-Upserts : (x y : Trace A) → Settled x y → Upserts x.trace_id (room x) y
  Settled-Upserts x y settled = elim (Bool-cases (y.trace_id == x.trace_id)) [
    | inl is ↦
        subst (Upserts x.trace_id (room x)) (sym (settled ((==_iff y.trace_id x.trace_id).0 is)))
          (self-Upserts x)
    | inr other ↦ (λ t.
        let (changed, t') = upsert_and_return_if_changed (from y) t in
        let nothing = cost_other x.trace_id (is_changed changed && not y.is_incomplete) y other in
        rw
          (
            nothing,
            upsert-elsewhere y x t
                (λ same. let is = (==_iff y.trace_id x.trace_id).1 (sym same) in cc),
          )
          (omega arith))
  ]

  either_branch :
      (id : String) (space : Table (List (Transaction A)) → ℕ) (y : Trace A) (n : ℕ) (b : Bool)
      (first second : Bool × Table (List (Transaction A)))
      → cost id first.0 y + space first.1 ≤ n
      → cost id second.0 y + space second.1 ≤ n
      → cost id (if b then first else second).0 y + space (if b then first else second).1 ≤ n
  either_branch id space y n true first second h k = h
  either_branch id space y n false first second h k = k

  Upserts-Settles :
      (id : String) (space : Table (List (Transaction A)) → ℕ) (y : Trace A)
      → ((t : Table (List (Transaction A))) → space (decrease_retry (from y) t) ≡ space t)
      → Upserts id space y
      → Settles id space y
  unfolding settle
  Upserts-Settles id space y kept upserts t =
      let (changed, t') = upsert_and_return_if_changed (from y) t in
      let same = kept t in
      either_branch id space y (space t) y.is_incomplete (false, decrease_retry (from y) t)
        (is_changed changed && not y.is_incomplete, t') (omega (arith, same)) (upserts t)

  Unfinished-Upserts : (id : String) (y : Trace A) → Unfinished id y → Upserts id (λ t. 0) y
  Unfinished-Upserts id y unfinished t =
      let (changed, t') = upsert_and_return_if_changed (from y) t in
      elim (Bool-cases (y.trace_id == id)) [
        | inl is ↦
            (let nothing =
                cost_unfinished id (is_changed changed) y
                  (unfinished ((==_iff y.trace_id id).0 is)) in
              omega (arith, nothing))
        | inr other ↦
            (let nothing = cost_other id (is_changed changed && not y.is_incomplete) y other in
              omega (arith, nothing))
      ]

  -- Suppose that, in rounds in any order, which are polls or single passes of the loops of polls that
  -- run at the same time, the answers have a trace first as incomplete, in any states, and from some
  -- round on only as one trace that stays as it is. Then it is not sent in the first rounds, and at
  -- most once in all the later ones: by whichever subscriber, however many of them get it, again or
  -- not, whatever statements fail and whatever summaries the ingestor writes.
  pub rounds-once :
      (x : Trace A) (early late : List (Round A)) (s : System A)
      → All (Answers (Unfinished x.trace_id)) early
      → All (Answers (Settled x)) late
      → (count x.trace_id (rounds early s).0 ≡ 0)
        × (count x.trace_id (rounds late (rounds early s).1).0 ≤ 1)
  rounds-once x early late s unfinished settled =
      let none_early =
        rounds-count x.trace_id (λ t. 0) (Unfinished x.trace_id) (Unfinished-Upserts x.trace_id)
          (λ y h.
            Upserts-Settles x.trace_id (λ t. 0) y (λ t. refl) (Unfinished-Upserts x.trace_id y h))
          (λ i events t. omega arith) early s unfinished in
      let at_most =
        rounds-count x.trace_id (room x) (Settled x) (Settled-Upserts x)
          (λ y h.
            Upserts-Settles x.trace_id (room x) y
              (λ t. ap left (stored-decrease_retry (from y) t x)) (Settled-Upserts x y h))
          (λ i events t.
            let same = ap left (stored-update_events i events t x) in omega (arith, same))
          late (rounds early s).1 settled in
      let free = room-le x (rounds early s).1.traces in
      (omega (arith, none_early), omega (arith, at_most, free))
