-- ===== src/RetrySubscriber/Answered.antt =====
-- src/retry_subscriber.rs: what the loop does to one row, and whether it returns the trace.
use mathlib.Core.List.{Memᴰ}
use axelar_relayer_ton.Prelude.{
  String, Bool, true, false, not, ◌&&◌, inl, inr, Option, none, some, List, [], ◌∷◌, map, ◌≡◌, ◌≢◌,
  refl, sym, ap, subst, ◌∙◌, Bool-cases, All, ok, ◌==◌, ==_iff, string_eq, if◌then◌else◌,
}
use axelar_relayer_ton.Types.{Trace, Transaction}
use axelar_relayer_ton.TonTrace.{
  JsonEq, TonTrace, Table, from, upsert_row, write, upsert_and_return_if_changed, decrease_retry,
  spend_row,
}
use axelar_relayer_ton.TonTrace.Fetch.{Distinct}
use axelar_relayer_ton.Subscriber.{is_changed}
use axelar_relayer_ton.Subscriber.Fresh.{write-elsewhere}
use axelar_relayer_ton.RetrySubscriber.{settle, collect_retried}
use axelar_relayer_ton.RetrySubscriber.Retries.{collect_retried-table}

abbrev pub or_old : {B : Type 0} → Option B → Option B → Option B
or_old none old = old
or_old (some new) old = some new

abbrev pub no_failures : String → Bool
no_failures id = false

module _ {A : Type 0} ⦃e : JsonEq (List (Transaction A))⦄ where
  -- What the statement for a trace makes of its row, and whether it is sent.
  abbrev pub settle_row :
      Trace A → Option (TonTrace (List (Transaction A))) → Option (TonTrace (List (Transaction A)))
  settle_row y o = if y.is_incomplete then spend_row o else or_old (upsert_row (from y) o) o

  abbrev pub settle_new : Trace A → Option (TonTrace (List (Transaction A))) → Bool
  settle_new y o = if y.is_incomplete then false else is_changed (upsert_row (from y) o)

  write-here :
      (tx : TonTrace (List (Transaction A))) (o : Option (TonTrace (List (Transaction A))))
      (t : Table (List (Transaction A)))
      → (write tx o t).1 tx.trace_id ≡ or_old o (t tx.trace_id)
  write-here tx none t = refl
  write-here tx (some row) t = rw ((==_iff tx.trace_id tx.trace_id).1 refl) refl

  write-returned :
      (tx : TonTrace (List (Transaction A))) (o : Option (TonTrace (List (Transaction A))))
      (t : Table (List (Transaction A)))
      → (write tx o t).0 ≡ o
  write-returned tx none t = refl
  write-returned tx (some row) t = refl

  module _ (k : String) (yes_row no_row : Option (TonTrace (List (Transaction A)))) where
    row-if :
        (b : Bool) (first second : Bool × Table (List (Transaction A)))
        → first.1 k ≡ yes_row
        → second.1 k ≡ no_row
        → (if b then first else second).1 k ≡ (if b then yes_row else no_row)
    row-if true first second h h' = h
    row-if false first second h h' = h'

  new-if :
      (b c : Bool) (first second : Bool × Table (List (Transaction A)))
      → first.0 ≡ false
      → second.0 ≡ (c && not b)
      → (if b then first else second).0 ≡ (if b then false else c)
  new-if true c first second h h' = h
  new-if false true first second h h' = h'
  new-if false false first second h h' = h'

  -- The two statements of the loop, each with whether the trace is sent.
  abbrev spends : Trace A → Table (List (Transaction A)) → Bool × Table (List (Transaction A))
  spends y t = (false, decrease_retry (from y) t)

  abbrev writes : Trace A → Table (List (Transaction A)) → Bool × Table (List (Transaction A))
  writes y t =
      let (changed, t') = upsert_and_return_if_changed (from y) t in
      (is_changed changed && not y.is_incomplete, t')

  pub settle-here :
      (y : Trace A) (t : Table (List (Transaction A)))
      → (settle y t).1 y.trace_id ≡ settle_row y (t y.trace_id)
  unfolding settle upsert_and_return_if_changed decrease_retry from
  settle-here y t =
      row-if y.trace_id (spend_row (t y.trace_id))
        (or_old (upsert_row (from y) (t y.trace_id)) (t y.trace_id)) y.is_incomplete (spends y t)
        (writes y t) (rw ((==_iff y.trace_id y.trace_id).1 refl) refl)
        (write-here (from y) (upsert_row (from y) (t y.trace_id)) t)

  pub settle-other :
      (y : Trace A) (t : Table (List (Transaction A))) (id : String)
      → id ≢ y.trace_id
      → (settle y t).1 id ≡ t id
  unfolding settle upsert_and_return_if_changed decrease_retry from
  settle-other y t id other =
      let differs : (id == y.trace_id) ≡ false = elim (Bool-cases (id == y.trace_id)) [
        | inl same ↦ absurd (other ((==_iff id y.trace_id).0 same))
        | inr differs ↦ differs
      ] in
      either y.is_incomplete (spends y t) (writes y t) (rw differs refl)
        (write-elsewhere (from y) (upsert_row (from y) (t y.trace_id)) t id other)
    where
      either :
          (b : Bool) (first second : Bool × Table (List (Transaction A)))
          → first.1 id ≡ t id
          → second.1 id ≡ t id
          → (if b then first else second).1 id ≡ t id
      either true first second h h' = h
      either false first second h h' = h'

  settle-new :
      (y : Trace A) (t : Table (List (Transaction A)))
      → (settle y t).0 ≡ settle_new y (t y.trace_id)
  unfolding settle upsert_and_return_if_changed from
  settle-new y t =
      new-if y.is_incomplete (is_changed (upsert_row (from y) (t y.trace_id))) (spends y t)
        (writes y t) refl
        (ap (λ o. is_changed o && not y.is_incomplete)
          (write-returned (from y) (upsert_row (from y) (t y.trace_id)) t))

  -- The loop when no statement fails: it does not fail, and returns the new traces.
  pub collect_retried-ok :
      (ys : List (Trace A)) (t : Table (List (Transaction A)))
      → (sent : List (Trace A)) × ((collect_retried no_failures ys t).0 ≡ ok sent)
  unfolding collect_retried
  collect_retried-ok [] t = ([], refl)
  collect_retried-ok (y ∷ ys) t =
      let (rest, is) = collect_retried-ok ys (settle y t).1 in
      elim (Bool-cases (settle y t).0) [
        | inl new ↦ (y ∷ rest, rw (new, is) refl)
        | inr old ↦ (rest, rw (old, is) refl)
      ]

  collect_retried-head :
      (y : Trace A) (ys : List (Trace A)) (t : Table (List (Transaction A))) (sent : List (Trace A))
      → (settle y t).0 ≡ true
      → (collect_retried no_failures (y ∷ ys) t).0 ≡ ok sent
      → Memᴰ y sent
  unfolding collect_retried
  collect_retried-head y ys t sent new is =
      let (rest, has) = collect_retried-ok ys (settle y t).1 in
      let all : ok (y ∷ rest) ≡ ok sent = rw (new, has) at is in
      let same : y ∷ rest ≡ sent = cc in subst (Memᴰ y) same (Memᴰ.head refl)

  collect_retried-tail :
      (x y : Trace A) (ys : List (Trace A)) (t : Table (List (Transaction A)))
      (sent : List (Trace A))
      → ((rest : List (Trace A))
          → (collect_retried no_failures ys (settle y t).1).0 ≡ ok rest
          → Memᴰ x rest)
      → (collect_retried no_failures (y ∷ ys) t).0 ≡ ok sent
      → Memᴰ x sent
  unfolding collect_retried
  collect_retried-tail x y ys t sent later is =
      let (rest, has) = collect_retried-ok ys (settle y t).1 in
      let mem = later rest has in
      elim (Bool-cases (settle y t).0) [
        | inl new ↦
            (let all : ok (y ∷ rest) ≡ ok sent = rw (new, has) at is in
              let same : y ∷ rest ≡ sent = cc in subst (Memᴰ x) same (Memᴰ.tail mem))
        | inr old ↦
            (let all : ok rest ≡ ok sent = rw (old, has) at is in
              let same : rest ≡ sent = cc in subst (Memᴰ x) same mem)
      ]

-- A node that knows a trace for each id.
abbrev pub Answering : {A : Type 0} → (String → Trace A) → Type 0
Answering chain = (id : String) → (chain id).trace_id ≡ id

module _ {A : Type 0} ⦃e : JsonEq (List (Transaction A))⦄ (chain : String → Trace A)
    (keyed : Answering chain) where
  -- An id that is not asked for keeps its row.
  pub collect_retried-elsewhere :
      (asked : List String) (t : Table (List (Transaction A))) (id : String)
      → All (λ other. other ≢ id) asked
      → (collect_retried no_failures (map chain asked) t).1 id ≡ t id
  unfolding collect_retried
  collect_retried-elsewhere [] t id others = refl
  collect_retried-elsewhere (first ∷ asked) t id others =
      ap (λ u. u id) (collect_retried-table no_failures (chain first) (map chain asked) t refl)
      ∙ collect_retried-elsewhere asked (settle (chain first) t).1 id others.1
      ∙ settle-other (chain first) t id (λ same. others.0 (sym (same ∙ keyed first)))

  collect_retried-first :
      (first : String) (t : Table (List (Transaction A)))
      → (settle (chain first) t).1 first ≡ settle_row (chain first) (t first)
  collect_retried-first first t =
      subst (λ k. (settle (chain first) t).1 k ≡ settle_row (chain first) (t k)) (keyed first)
        (settle-here (chain first) t)

  not-first :
      (first id : String) (asked : List String)
      → All (λ other. other ≢ first) asked
      → Memᴰ id asked
      → id ≢ first
  not-first first id [] others mem = elim mem [ ]
  not-first first id (next ∷ asked) others (Memᴰ.head e) = λ same. others.0 (sym e ∙ same)
  not-first first id (next ∷ asked) others (Memᴰ.tail m) = not-first first id asked others.1 m

  -- An id that is asked for once has what the statement makes of its row.
  pub collect_retried-row :
      (asked : List String) (t : Table (List (Transaction A))) (id : String)
      → Distinct asked
      → Memᴰ id asked
      → (collect_retried no_failures (map chain asked) t).1 id ≡ settle_row (chain id) (t id)
  collect_retried-row [] t id distinct mem = elim mem [ ]
  collect_retried-row (first ∷ asked) t id distinct (Memᴰ.head e) =
      subst
        (λ k.
          (collect_retried no_failures (map chain (first ∷ asked)) t).1 k
          ≡ settle_row (chain k) (t k))
        (sym e)
        (ap (λ u. u first)
            (collect_retried-table no_failures (chain first) (map chain asked) t refl)
          ∙ collect_retried-elsewhere asked (settle (chain first) t).1 first distinct.0
          ∙ collect_retried-first first t)
  collect_retried-row (first ∷ asked) t id distinct (Memᴰ.tail m) =
      ap (λ u. u id) (collect_retried-table no_failures (chain first) (map chain asked) t refl)
      ∙ collect_retried-row asked (settle (chain first) t).1 id distinct.1 m
      ∙ ap (settle_row (chain id)) (
          settle-other (chain first) t id
            (λ same. not-first first id asked distinct.0 m (same ∙ keyed first)))

  -- An id that is asked for once is sent if the statement finds it new.
  pub collect_retried-sent :
      (asked : List String) (t : Table (List (Transaction A))) (id : String) (sent : List (Trace A))
      → Distinct asked
      → Memᴰ id asked
      → settle_new (chain id) (t id) ≡ true
      → (collect_retried no_failures (map chain asked) t).0 ≡ ok sent
      → Memᴰ (chain id) sent
  collect_retried-sent [] t id sent distinct mem new is = elim mem [ ]
  collect_retried-sent (first ∷ asked) t id sent distinct (Memᴰ.head e) new is =
      subst (λ k. Memᴰ (chain k) sent) (sym e)
        (collect_retried-head (chain first) (map chain asked) t sent
          (settle-new (chain first) t
            ∙ ap (λ k. settle_new (chain first) (t k)) (keyed first)
            ∙ ap (λ k. settle_new (chain k) (t k)) (sym e)
            ∙ new)
          is)
  collect_retried-sent (first ∷ asked) t id sent distinct (Memᴰ.tail m) new is =
      collect_retried-tail (chain id) (chain first) (map chain asked) t sent
        (λ rest. collect_retried-sent asked (settle (chain first) t).1 id rest distinct.1 m (
          ap (settle_new (chain id)) (
            settle-other (chain first) t id
              (λ same. not-first first id asked distinct.0 m (same ∙ keyed first)))
          ∙ new))
        is
