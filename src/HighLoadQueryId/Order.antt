-- ===== src/HighLoadQueryId/Order.antt =====
-- Query ids are valid, distinct and handed out in order.
use axelar_relayer_ton.Prelude.{
  ℕ, ◌+◌, ◌*◌, ◌^◌, ◌<◌, ◌≡◌, ◌⊎◌, true, false, ◌&&◌, ok, err, arith, eqb, if◌then◌else◌,
}
use axelar_relayer_ton.HighLoadQueryId.{
  HighLoadQueryId, emergency_overload, shift_overflow, max_shift, max_bitnumber, next, has_next,
  query_id, IsValid,
}

-- How many ids stand before this one.
abbrev pub rank : HighLoadQueryId → ℕ
rank q = q.shift * (max_bitnumber + 1) + q.bitnumber

-- A successful `next` of a valid id is valid, is the very next in rank, and has a greater query id.
pub next-IsValid :
    (q q' : HighLoadQueryId)
    → IsValid q
    → next q ≡ ok q'
    → IsValid q' × (rank q' ≡ rank q + 1) × (query_id q < query_id q')
unfolding next query_id
next-IsValid q q' v e = ground arith

-- The id that comes next in rank.
abbrev pub successor : HighLoadQueryId → HighLoadQueryId
successor q =
    if eqb q.bitnumber max_bitnumber
    then record { shift = q.shift + 1; bitnumber = 0 }
    else record q { bitnumber = q.bitnumber + 1 }

-- The next of a valid id is its successor in rank, but of (8191, 1020), which is the emergency
-- overload, and of (8191, 1022), which is the overflow of the shift.
pub next_exact :
    (q : HighLoadQueryId)
    → IsValid q
    → next q ≡ (
        if eqb q.shift max_shift && eqb q.bitnumber 1020
        then err emergency_overload
        else if eqb q.shift max_shift && eqb q.bitnumber max_bitnumber
        then err shift_overflow
        else ok (successor q))
unfolding next
next_exact q v = ground arith

-- Where `has_next` and `next` disagree on a valid id: at (8191, 1020) `has_next` says that there is
-- a next id and `next` is an error, and at (8191, 1021) `has_next` says that there is none and
-- `next` returns (8191, 1022). They agree on every other valid id.
pub has_next_exact :
    (q : HighLoadQueryId)
    → IsValid q
    → ((has_next q ≡ true) × (next q ≡ ok (successor q)))
      ⊎ ((has_next q ≡ false) × (next q ≡ err shift_overflow))
      ⊎ ((q ≡ record { shift = max_shift; bitnumber = 1020 })
          × (has_next q ≡ true)
          × (next q ≡ err emergency_overload))
      ⊎ ((q ≡ record { shift = max_shift; bitnumber = 1021 })
          × (has_next q ≡ false)
          × (next q ≡ ok (record { shift = max_shift; bitnumber = 1022 })))
unfolding next has_next
has_next_exact q v = ground arith

-- Two valid ids with one query id are the same id, and a query id fits the 23 bits of the message.
pub query_id_injective :
    (p q : HighLoadQueryId)
    → IsValid p
    → IsValid q
    → query_id p ≡ query_id q
    → (p ≡ q) × (query_id p < 2 ^ 23)
unfolding query_id
query_id_injective p q v w e = ground arith
