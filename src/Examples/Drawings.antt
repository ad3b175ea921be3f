-- ===== src/Examples/Drawings.antt =====
-- src/high_load_query_id_db_wrapper.rs and src/lock_manager.rs: two workers, one after the other, at
-- the wallet "w1", and two at once.
use axelar_relayer_ton.Prelude.{
  ℕ, ◌*◌, ◌+◌, String, Bool, true, false, none, some, [], ◌∷◌, ◌++◌, ◌≡◌, refl, subst, arith,
  if◌then◌else◌, ◌==◌, string_eq,
}
use axelar_relayer_ton.Prelude.Int.{ℤ, pos}
use axelar_relayer_ton.LockManager.{lock, unlock}
use axelar_relayer_ton.HighLoadQueryId.{HighLoadQueryId, query_id, next, has_next}
use axelar_relayer_ton.TonWalletQueryId.{Table, get_query_id, update_query_id}
use axelar_relayer_ton.HighLoadQueryIdDbWrapper.{Call, chosen, choose, store, increase_shift}
use axelar_relayer_ton.Workers.{
  Slot, Site, Move, Reached, start, then_move, acquired, released, has_read, has_written, finish,
  note_drawn,
}
use axelar_relayer_ton.Workers.FreshIds.{ids_of, Falling, drawn_once}

abbrev table_0 : Table
table_0 a =
    if a == "w1"
    then some (record { shift = pos 2; bitnumber = pos 3; expires_at = pos 100 })
    else none

abbrev until : String → ℤ
until _ = pos 100

abbrev works : String → Bool
works _ = false

abbrev call_at : ℕ → Call
call_at now = record {
  address = "w1";
  timeout = 60;
  force_shift_increase = false;
  read_at = pos now;
  write_at = pos now;
  fails = λ _. false;
  carried_out = λ _. false;
}

abbrev slot_at : ℕ → Table → Slot
slot_at now t = record { pair = get_query_id "w1" (pos now) t; at = pos now }

abbrev held : Site → Site
held s = record s {
  locks = (lock (record { now = s.now; fails = works }) "w1" s.locks).1;
  workers = record { key = "w1"; since = s.now; slot = none } ∷ [];
}

abbrev read : ℕ → Site → Site
read now s = record s {
  workers = record { key = "w1"; since = s.now; slot = some (slot_at now s.table) } ∷ [];
}

abbrev written : ℕ → Site → Site
written now s = record s {
  workers = record { key = "w1"; since = s.now; slot = none } ∷ [];
  table = (finish (call_at now) (get_query_id "w1" (pos now) s.table) s.table).1;
  drawn =
      note_drawn "w1" (finish (call_at now) (get_query_id "w1" (pos now) s.table) s.table).0
        s.drawn;
}

abbrev left : Site → Site
left s = record s {
  locks = unlock (record { now = s.now; fails = works }) "w1" s.locks;
  workers = [];
}

abbrev site_0 : Site
site_0 = record { locks = λ _. none; now = 7; workers = []; table = table_0; drawn = [] }

abbrev after_draw : Site → Site
after_draw s = written 20 (read 20 (held s))

abbrev drawn_twice : Site
drawn_twice = after_draw (left (after_draw site_0))

draw :
    (s : Site)
    → s.workers ≡ []
    → (lock (record { now = s.now; fails = works }) "w1" s.locks).0 ≡ true
    → Reached until table_0 s
    → Reached until table_0 (after_draw s)
draw s none_left free reached =
    then_move
      (then_move
        (then_move reached (
          subst
            (λ workers. Move until s (record (held s) {
              workers = record { key = "w1"; since = s.now; slot = none } ∷ workers;
            }))
            none_left (acquired {s = s} works "w1" free)))
        (has_read {s = held s} (pos 20) [] (record { key = "w1"; since = s.now; slot = none }) []
          refl refl))
      (has_written {s = read 20 (held s)} (call_at 20) (slot_at 20 s.table) []
        (record { key = "w1"; since = s.now; slot = some (slot_at 20 s.table) }) [] refl refl refl
        refl refl)

drawn_twice-Reached : Reached until table_0 drawn_twice
unfolding lock unlock
drawn_twice-Reached = draw (left (after_draw site_0)) refl refl (
    then_move (draw site_0 refl refl (start (λ _. none) 7)) (
      released {s = after_draw site_0} works [] (record { key = "w1"; since = 7; slot = none }) []
        refl))

abbrev start_id : HighLoadQueryId
start_id = record { shift = 2; bitnumber = 3 }

drawn_once_example : Falling (ids_of "w1" drawn_twice.drawn ++ query_id start_id ∷ [])
drawn_once_example =
    drawn_once until table_0 "w1" start_id drawn_twice (record { row = refl; valid = omega arith })
      drawn_twice-Reached

drawn_ids : ids_of "w1" drawn_twice.drawn ≡ (2 * 1024 + 5) ∷ (2 * 1024 + 4) ∷ []
unfolding get_query_id chosen choose increase_shift store query_id next has_next update_query_id
drawn_ids = refl

-- Two workers that have read before one of them writes draw the same id, which the lock prevents while
-- it lasts.
drawn_by_both :
    let pair = get_query_id "w1" (pos 20) table_0 in
    (finish (call_at 20) pair (finish (call_at 20) pair table_0).1).0
    ≡ (finish (call_at 20) pair table_0).0
unfolding get_query_id chosen choose increase_shift store query_id next has_next update_query_id
drawn_by_both = refl
