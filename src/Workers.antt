-- ===== src/Workers.antt =====
-- src/wallet_manager.rs, src/lock_manager.rs and src/high_load_query_id_db_wrapper.rs: workers that run
-- at the same time. Each holds a wallet, by a lock that expires, and draws query ids for it with two
-- statements, a read and a write, between which the others go on.
use axelar_relayer_ton.Prelude.{
  ℕ, ◌+◌, ◌<◌, String, Bool, true, false, Option, none, some, List, [], ◌∷◌, ◌++◌, map, ◌≡◌, All,
  Outcome, ok, err, panic,
}
use axelar_relayer_ton.Prelude.Int.{ℤ, ltb_ℤ}
use axelar_relayer_ton.LockManager.{Locks, Moment, lock, unlock}
use axelar_relayer_ton.HighLoadQueryId.{HighLoadQueryId, query_id}
use axelar_relayer_ton.TonWalletQueryId.{Table, get_query_id}
use axelar_relayer_ton.HighLoadQueryIdDbWrapper.{
  Call, get, HighLoadQueryIdWrapperError, chosen, store_chosen,
}
pub mod Drawing
pub mod FreshIds

-- What a worker has read: the pair, and when.
pub record Slot : Type 0 where
  pub pair : ℤ × ℤ
  pub at : ℤ

pub record Worker : Type 0 where
  pub key : String
  pub since : ℕ
  pub slot : Option Slot

-- A query id that was drawn, with its wallet.
pub record Drawn : Type 0 where
  pub address : String
  pub id : ℕ

pub record Site : Type 0 where
  pub locks : Locks
  pub now : ℕ
  pub workers : List Worker
  pub table : Table
  pub drawn : List Drawn  -- the last first

abbrev pub note_drawn :
    String → Outcome HighLoadQueryIdWrapperError HighLoadQueryId → List Drawn → List Drawn
note_drawn key (ok q) drawn = record { address = key; id = query_id q } ∷ drawn
note_drawn key (err e) drawn = drawn
note_drawn key panic drawn = drawn

-- The second half of `HighLoadQueryIdDbWrapper::next`, from what the first half read.
abbrev pub finish :
    Call → ℤ × ℤ → Table → Outcome HighLoadQueryIdWrapperError HighLoadQueryId × Table
finish c pair t = store_chosen c (chosen c pair) t

-- What can happen, in any order. The row of a wallet lives until `until key`: a read comes before, and
-- a worker is done with its wallet within the 60 seconds of its lock.
module _ (until : String → ℤ) where
  pub data Move : Site → Site → Type 0 where
    acquired :
        {s : Site} (fails : String → Bool) (key : String)
        → (lock (record { now = s.now; fails = fails }) key s.locks).0 ≡ true
        → Move s (record s {
          locks = (lock (record { now = s.now; fails = fails }) key s.locks).1;
          workers = record { key = key; since = s.now; slot = none } ∷ s.workers;
        })
    refused :
        {s : Site} (fails : String → Bool) (key : String)
        → (lock (record { now = s.now; fails = fails }) key s.locks).0 ≡ false
        → Move s (record s { locks = (lock (record { now = s.now; fails = fails }) key s.locks).1 })
    released :
        {s : Site} (fails : String → Bool) (front : List Worker) (w : Worker) (back : List Worker)
        → s.workers ≡ front ++ w ∷ back
        → Move s (record s {
          locks = unlock (record { now = s.now; fails = fails }) w.key s.locks;
          workers = front ++ back;
        })
    waited :
        {s : Site} (seconds : ℕ)
        → All (λ w. s.now + seconds < w.since + 60) s.workers
        → Move s (record s { now = s.now + seconds })
    has_read :
        {s : Site} (at : ℤ) (front : List Worker) (w : Worker) (back : List Worker)
        → s.workers ≡ front ++ w ∷ back
        → ltb_ℤ (until w.key) at ≡ false
        → Move s (record s {
          workers =
              front
              ++ record w { slot = some (record { pair = get_query_id w.key at s.table; at = at }) }
                ∷ back;
        })
    has_written :
        {s : Site} (c : Call) (slot : Slot) (front : List Worker) (w : Worker) (back : List Worker)
        → s.workers ≡ front ++ w ∷ back
        → w.slot ≡ some slot
        → c.address ≡ w.key
        → c.read_at ≡ slot.at
        → c.fails get ≡ false
        → Move s (record s {
          workers = front ++ record w { slot = none } ∷ back;
          table = (finish c slot.pair s.table).1;
          drawn = note_drawn w.key (finish c slot.pair s.table).0 s.drawn;
        })

  -- What can be reached from a table and no workers, whatever locks are set.
  pub data Reached (table : Table) : Site → Type 0 where
    start :
        (locks : Locks) (now : ℕ)
        → Reached table
            (record { locks = locks; now = now; workers = []; table = table; drawn = [] })
    then_move : {s s' : Site} → Reached table s → Move s s' → Reached table s'
