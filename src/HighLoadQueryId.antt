-- ===== src/HighLoadQueryId.antt =====
-- src/high_load_query_id.rs: the query ids of a high load wallet. A `u32` is a number with its
-- wrap-around written out; the `async` of the methods has no effect that the results show.
pub mod Order
pub mod Exhaustion
use axelar_relayer_ton.Prelude.{
  ℕ, ◌+◌, ◌-◌, ◌*◌, ◌%◌, ◌^◌, ◌≤◌, Bool, not, ◌&&◌, Outcome, ok, err, ltb, leb, eqb, if◌then◌else◌,
}

pub data HighLoadQueryIdError : Type 0 where
  invalid_shift invalid_bitnumber : ℕ → HighLoadQueryIdError
  emergency_overload shift_overflow : HighLoadQueryIdError

pub record HighLoadQueryId : Type 0 where
  pub shift : ℕ
  pub bitnumber : ℕ

abbrev pub max_shift : ℕ
max_shift = 8191

abbrev pub max_bitnumber : ℕ
max_bitnumber = 1022

abbrev pub bitnumber_size : ℕ
bitnumber_size = 10

unfoldable pub from_shift_and_bitnumber : ℕ → ℕ → Outcome HighLoadQueryIdError HighLoadQueryId
from_shift_and_bitnumber shift bitnumber =
    if ltb max_shift shift
    then err (invalid_shift max_shift)
    else if ltb max_bitnumber bitnumber
    then err (invalid_bitnumber max_bitnumber)
    else ok (record { shift = shift; bitnumber = bitnumber })

unfoldable pub next : HighLoadQueryId → Outcome HighLoadQueryIdError HighLoadQueryId
unfolding from_shift_and_bitnumber
next q =
    let new_bitnumber = (q.bitnumber + 1) % 2 ^ 32 in
    if eqb q.shift max_shift && eqb new_bitnumber (max_bitnumber - 1)
    then err emergency_overload
    else if ltb max_bitnumber new_bitnumber
    then (let new_shift = (q.shift + 1) % 2 ^ 32 in
        if ltb max_shift new_shift
        then err shift_overflow
        else from_shift_and_bitnumber new_shift 0)
    else from_shift_and_bitnumber q.shift new_bitnumber

unfoldable pub has_next : HighLoadQueryId → Bool
has_next q = not (leb (max_bitnumber - 1) q.bitnumber && eqb q.shift max_shift)

-- The sum stays below 2 ^ 64 for every `u32` shift and bit number.
unfoldable pub query_id : HighLoadQueryId → ℕ
query_id q = q.shift * 2 ^ bitnumber_size + q.bitnumber

-- What the contract accepts.
pub record IsValid (q : HighLoadQueryId) : Type 0 where
  pub shift_fits : q.shift ≤ max_shift
  pub bitnumber_fits : q.bitnumber ≤ max_bitnumber
