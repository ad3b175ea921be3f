-- ===== src/HighLoadQueryIdDbWrapper.antt =====
-- src/high_load_query_id_db_wrapper.rs: the next query id of a wallet, kept in the database. What
-- the database and the clock do enters as a `Call`; an `i32` keeps its wrap-around.
pub mod Choice
pub mod Storage
pub mod Replay
use axelar_relayer_ton.Prelude.{
  ℕ, String, Bool, true, false, ◌||◌, List, [], ◌∷◌, Outcome, ok, err, panic, map_err, ◌>>=◌, eqb,
  if◌then◌else◌,
}
use axelar_relayer_ton.Prelude.Int.{ℤ, pos, negsuc, ◌+ℤ◌, ◌*ℤ◌, ltb_ℤ, wrap_i32}
use axelar_relayer_ton.HighLoadQueryId.{
  HighLoadQueryId, max_shift, from_shift_and_bitnumber, has_next, query_id,
}
use axelar_relayer_ton.HighLoadQueryId
use axelar_relayer_ton.TonWalletQueryId.{Table, get_query_id, update_query_id, upsert_query_id}

pub data HighLoadQueryIdWrapperError : Type 0 where
  construction_error no_next_query_id database_error : HighLoadQueryIdWrapperError

pub data Statement : Type 0 where
  get update upsert : Statement

-- One call of `next`, with the clock at its read and at its write, which statements fail, and which of
-- the writes that fail were carried out nonetheless.
pub record Call : Type 0 where
  pub address : String
  pub timeout : ℕ  -- u64
  pub force_shift_increase : Bool
  pub read_at : ℤ
  pub write_at : ℤ
  pub fails : Statement → Bool
  pub carried_out : Statement → Bool

abbrev pub timeout_buffer_multiplier : ℤ
timeout_buffer_multiplier = pos 3

unfoldable pub increase_shift : Bool → ℤ → ℤ
unfolding wrap_i32 ◌+ℤ◌
increase_shift false shift = shift
increase_shift true shift =
    let shift' = if ltb_ℤ shift (pos 0) then pos 1 else shift in
    let above = wrap_i32 (shift' +ℤ pos 1) in if ltb_ℤ above (pos max_shift) then above else shift'

-- `as u32`, of a number that is not negative
abbrev pub as_u32 : ℤ → ℕ
as_u32 (pos n) = n
as_u32 (negsuc n) = 0

unfoldable pub choose : ℤ → ℤ → Outcome HighLoadQueryIdWrapperError HighLoadQueryId
unfolding from_shift_and_bitnumber has_next HighLoadQueryId.next
choose shift bitnumber =
    if ltb_ℤ shift (pos 0) || ltb_ℤ bitnumber (pos 0)
    then map_err (λ _. construction_error) (from_shift_and_bitnumber 0 0)
    else do
      q ←
          map_err (λ _. construction_error)
            (from_shift_and_bitnumber (as_u32 shift) (as_u32 bitnumber))
      if has_next q
          then map_err (λ _. construction_error) (HighLoadQueryId.next q)
          else err no_next_query_id

-- `timeout as i32 * TIMEOUT_BUFFER_MULTIPLIER`
unfoldable pub lifetime : ℕ → ℤ
unfolding wrap_i32 ◌*ℤ◌
lifetime timeout = wrap_i32 (wrap_i32 (pos timeout) *ℤ timeout_buffer_multiplier)

-- What a write returns, and what it leaves.
abbrev pub write_result :
    Call
    → Statement
    → HighLoadQueryId
    → Table
    → Table
    → Outcome HighLoadQueryIdWrapperError HighLoadQueryId × Table
write_result c statement q written t =
    if c.fails statement
    then (err database_error, if c.carried_out statement then written else t)
    else (ok q, written)

-- The write of `next`: a query id of 0 starts a new lifetime.
unfoldable pub store :
    Call → HighLoadQueryId → Table → Outcome HighLoadQueryIdWrapperError HighLoadQueryId × Table
store c q t =
    if eqb (query_id q) 0
    then write_result c upsert q
        (upsert_query_id c.address (pos q.shift) (pos q.bitnumber) (lifetime c.timeout) c.write_at
          t)
        t
    else write_result c update q (update_query_id c.address (pos q.shift) (pos q.bitnumber) t) t

abbrev pub store_chosen :
    Call
    → Outcome HighLoadQueryIdWrapperError HighLoadQueryId
    → Table
    → Outcome HighLoadQueryIdWrapperError HighLoadQueryId × Table
store_chosen c (ok q) t = store c q t
store_chosen c (err e) t = (err e, t)
store_chosen c panic t = (panic, t)

-- The id that follows the stored pair.
unfoldable pub chosen : Call → ℤ × ℤ → Outcome HighLoadQueryIdWrapperError HighLoadQueryId
chosen c (shift, bitnumber) = choose (increase_shift c.force_shift_increase shift) bitnumber

unfoldable pub next : Call → Table → Outcome HighLoadQueryIdWrapperError HighLoadQueryId × Table
next c t =
    if c.fails get
    then (err database_error, t)
    else store_chosen c (chosen c (get_query_id c.address c.read_at t)) t
