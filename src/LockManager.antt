-- ===== src/LockManager.antt =====
-- src/lock_manager.rs: locks as keys of a Redis store that expire, and the interface to them.
use axelar_relayer_ton.Prelude.{
  ℕ, ◌+◌, String, Bool, true, false, Option, none, some, ltb, if◌then◌else◌, ◌==◌, string_eq,
}

-- The trait. A method returns what it leaves of the store.
pub record LockManager (S : Type 0) : Type 0 where
  pub lock : String → S → Bool × S
  pub unlock : String → S → S

-- The locks that are set, with the time, in seconds, from which they count no more.
abbrev pub Locks : Type 0
Locks = String → Option ℕ

-- The connection at one moment: the clock of the store, and the keys for which a command fails.
pub record Moment : Type 0 where
  pub now : ℕ
  pub fails : String → Bool

abbrev pub held_at : ℕ → Option ℕ → Bool
held_at now none = false
held_at now (some expires_at) = ltb now expires_at

abbrev pub set_key : String → Option ℕ → Locks → Locks
set_key key value t k = if k == key then value else t k

-- `SET key true NX EX 60`: it sets the lock, unless it is held or the command fails.
unfoldable pub lock : Moment → String → Locks → Bool × Locks
lock m key t =
    if m.fails key
    then (false, t)
    else if held_at m.now (t key)
    then (false, t)
    else (true, set_key key (some (m.now + 60)) t)

-- `DEL key`, whoever set it.
unfoldable pub unlock : Moment → String → Locks → Locks
unlock m key t = if m.fails key then t else set_key key none t

abbrev pub redis : Moment → LockManager Locks
redis m = record { lock = lock m; unlock = unlock m }
