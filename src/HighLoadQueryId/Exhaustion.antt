-- ===== src/HighLoadQueryId/Exhaustion.antt =====
-- How many ids `next` hands out from (0, 0) before it refuses.
use axelar_relayer_ton.Prelude.{
  dec_lt, ℕ, zero, suc, ◌+◌, ◌*◌, ◌≤◌, ◌<◌, ◌≡◌, refl, ◌⊎◌, inl, inr, Outcome, ok, err, ◌>>=◌,
  arith,
}
use axelar_relayer_ton.HighLoadQueryId.{
  HighLoadQueryId, HighLoadQueryIdError, emergency_overload, next, IsValid,
}
use axelar_relayer_ton.HighLoadQueryId.Order.{rank, successor, next_exact, next-IsValid}

abbrev pub first : HighLoadQueryId
first = record { shift = 0; bitnumber = 0 }

-- `k` calls of `next` in a row.
pub advance : ℕ → HighLoadQueryId → Outcome HighLoadQueryIdError HighLoadQueryId
advance zero q = ok q
advance (suc k) q = advance k q >>= next

-- The rank of (8191, 1020), after which the overload comes.
abbrev pub last_rank : ℕ
last_rank = 8191 * 1023 + 1020

next-below_last : (q : HighLoadQueryId) → IsValid q → rank q < last_rank → next q ≡ ok (successor q)
next-below_last q v h = ground (arith, next_exact q v)

next-at_last :
    (q : HighLoadQueryId) → IsValid q → rank q ≡ last_rank → next q ≡ err emergency_overload
next-at_last q v h = ground (arith, next_exact q v)

abbrev Reaches : ℕ → Outcome HighLoadQueryIdError HighLoadQueryId → Type 0
Reaches k r =
    ((k ≤ last_rank) × ((q : HighLoadQueryId) × (r ≡ ok q) × IsValid q × (rank q ≡ k)))
    ⊎ ((last_rank < k) × (r ≡ err emergency_overload))

next-Reaches :
    (k : ℕ) (q : HighLoadQueryId)
    → k ≤ last_rank
    → IsValid q
    → rank q ≡ k
    → Reaches (suc k) (next q)
next-Reaches k q le v n = elim (dec_lt k last_rank) [
  | yes lt ↦
      let e : next q ≡ ok (successor q) = next-below_last q v (omega arith) in
      let w = next-IsValid q (successor q) v e in
      inl (omega arith, (successor q, e, w.0, omega arith))
  | no ge ↦ inr (omega arith, next-at_last q v (omega arith))
]

step-Reaches :
    (k : ℕ) (r : Outcome HighLoadQueryIdError HighLoadQueryId)
    → Reaches k r
    → Reaches (suc k) (r >>= next)
step-Reaches k r (inl (le, (q, e, v, n))) = rw e (next-Reaches k q le v n)
step-Reaches k r (inr (lt, e)) = inr (omega arith, rw e)

-- After k calls from (0, 0) the id is the valid id of rank k, as long as k is at most 8380413, and
-- every later call returns the emergency overload.
pub advance-first :
    (k : ℕ)
    → ((k ≤ last_rank)
        × ((q : HighLoadQueryId) × (advance k first ≡ ok q) × IsValid q × (rank q ≡ k)))
      ⊎ ((last_rank < k) × (advance k first ≡ err emergency_overload))
unfolding advance
advance-first zero = inl (omega arith, (first, refl, omega arith, refl))
advance-first (suc k) = step-Reaches k (advance k first) (advance-first k)
