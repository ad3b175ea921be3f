-- ===== src/TonTrace/Fetch.antt =====
-- src/models/ton_trace.rs: which rows the query for the retries finds.
use mathlib.Core.List.{Memᴰ}
use axelar_relayer_ton.Prelude.{
  ℕ, ◌≤◌, String, true, inl, inr, some, List, [], ◌∷◌, map, length, take-all, ◌≡◌, ◌≢◌, refl, sym,
  subst, Bool-cases, Option-cases, All, arith,
}
use axelar_relayer_ton.TonTrace.{TonTrace, Table, retriable_rows, is_retriable, fetch_retry}

-- The id of a row is the key of the table.
abbrev pub Keyed : {T : Type 0} → Table T → Type 0
Keyed {T} t = (id : String) (row : TonTrace T) → t id ≡ some row → row.trace_id ≡ id

abbrev pub Distinct : List String → Type 0
Distinct [] = Unit
Distinct (id ∷ ids) = All (λ other. other ≢ id) ids × Distinct ids

module _ {T : Type 0} where
  abbrev pub ids_of : List (TonTrace T) → List String
  ids_of rows = map (λ row. row.trace_id) rows

  module _ (P : String → Type 0) (t : Table T) (keyed : Keyed t) where
    retriable_rows-All : (ids : List String) → All P ids → All P (ids_of (retriable_rows ids t))
    retriable_rows-All [] ps = tt
    retriable_rows-All (id ∷ ids) ps = elim (Bool-cases (is_retriable (t id))) [
      | inr skipped ↦ rw skipped (retriable_rows-All ids ps.1)
      | inl found ↦ elim (Option-cases (t id)) [
        | inl absent ↦ rw (found, absent) (retriable_rows-All ids ps.1)
        | inr (row, present) ↦
            rw (found, present)
              (subst P (sym (keyed id row present)) ps.0, retriable_rows-All ids ps.1)
      ]
    ]

  pub retriable_rows-Distinct :
      (t : Table T) (ids : List String)
      → Keyed t
      → Distinct ids
      → Distinct (ids_of (retriable_rows ids t))
  retriable_rows-Distinct t [] keyed distinct = tt
  retriable_rows-Distinct t (id ∷ ids) keyed distinct = elim (Bool-cases (is_retriable (t id))) [
    | inr skipped ↦ rw skipped (retriable_rows-Distinct t ids keyed distinct.1)
    | inl found ↦ elim (Option-cases (t id)) [
      | inl absent ↦ rw (found, absent) (retriable_rows-Distinct t ids keyed distinct.1)
      | inr (row, present) ↦
          rw (found, present)
            (
              subst (λ k. All (λ other. other ≢ k) (ids_of (retriable_rows ids t)))
                  (sym (keyed id row present))
                  (retriable_rows-All (λ other. other ≢ id) t keyed ids distinct.0),
              retriable_rows-Distinct t ids keyed distinct.1,
            )
    ]
  ]

  retriable_rows-length :
      (t : Table T) (ids : List String) → length (retriable_rows ids t) ≤ length ids
  retriable_rows-length t [] = omega arith
  retriable_rows-length t (id ∷ ids) =
      let rest = retriable_rows-length t ids in
      elim (Bool-cases (is_retriable (t id))) [
        | inr skipped ↦ rw skipped (omega (arith, rest))
        | inl found ↦ elim (Option-cases (t id)) [
          | inl absent ↦ rw (found, absent) (omega (arith, rest))
          | inr (row, present) ↦ rw (found, present) (omega (arith, rest))
        ]
      ]

  pub retriable_rows-Mem :
      (t : Table T) (ids : List String) (id : String) (row : TonTrace T)
      → Memᴰ id ids
      → t id ≡ some row
      → is_retriable (some row) ≡ true
      → Memᴰ row (retriable_rows ids t)
  retriable_rows-Mem t [] id row mem has live = elim mem [ ]
  retriable_rows-Mem t (first ∷ ids) id row (Memᴰ.head e) has live =
      let here : t first ≡ some row = rw e at has in
      let found : is_retriable (t first) ≡ true = rw here live in rw (found, here) (Memᴰ.head refl)
  retriable_rows-Mem t (first ∷ ids) id row (Memᴰ.tail m) has live =
      let rest = retriable_rows-Mem t ids id row m has live in
      elim (Bool-cases (is_retriable (t first))) [
        | inr skipped ↦ rw skipped rest
        | inl found ↦ elim (Option-cases (t first)) [
          | inl absent ↦ rw (found, absent) rest
          | inr (other, present) ↦ rw (found, present) (Memᴰ.tail rest)
        ]
      ]

  -- With as many rows as the limit at most, all that can be retried are found, each once.
  pub fetch_retry-all :
      (limit : ℕ) (t : Table T) (ids : List String)
      → length ids ≤ limit
      → fetch_retry limit ids t ≡ retriable_rows ids t
  unfolding fetch_retry
  fetch_retry-all limit t ids few =
      take-all limit (retriable_rows ids t) (omega (arith, retriable_rows-length t ids))
