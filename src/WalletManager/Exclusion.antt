-- ===== src/WalletManager/Exclusion.antt =====
-- src/wallet_manager.rs over src/lock_manager.rs: a wallet has one user at a time, as long as every
-- user releases it within the 60 seconds that its lock lasts.
use axelar_relayer_ton.Prelude.{
  ℕ, ◌+◌, ◌<◌, String, Bool, true, false, Option, none, some, List, [], ◌∷◌, ◌++◌, ◌≡◌, ◌≢◌, refl,
  sym, ap, subst, ◌∙◌, inl, inr, Bool-cases, All, arith, ◌==◌, string_eq, ==_iff,
}
use axelar_relayer_ton.LockManager.{Locks, Moment, held_at, set_key, lock, unlock}

-- A user of a wallet: the wallet's key, and when its lock was set.
pub record User : Type 0 where
  pub key : String
  pub since : ℕ

pub record World : Type 0 where
  pub locks : Locks
  pub now : ℕ
  pub users : List User

-- What can happen, in any order. A user that asks for a lock gets it or does not; a user releases its
-- wallet, or the command fails and the lock stays until it expires; time passes, but not beyond the 60
-- seconds of a user.
pub data Step : World → World → Type 0 where
  acquired :
      {w : World} (fails : String → Bool) (key : String)
      → (lock (record { now = w.now; fails = fails }) key w.locks).0 ≡ true
      → Step w (record {
        locks = (lock (record { now = w.now; fails = fails }) key w.locks).1;
        now = w.now;
        users = record { key = key; since = w.now } ∷ w.users;
      })
  refused :
      {w : World} (fails : String → Bool) (key : String)
      → (lock (record { now = w.now; fails = fails }) key w.locks).0 ≡ false
      → Step w (record w { locks = (lock (record { now = w.now; fails = fails }) key w.locks).1 })
  released :
      {w : World} (fails : String → Bool) (front : List User) (user : User) (back : List User)
      → w.users ≡ front ++ user ∷ back
      → Step w (record {
        locks = unlock (record { now = w.now; fails = fails }) user.key w.locks;
        now = w.now;
        users = front ++ back;
      })
  waited :
      {w : World} (seconds : ℕ)
      → All (λ user. w.now + seconds < user.since + 60) w.users
      → Step w (record w { now = w.now + seconds })

-- What can be reached from no users, whatever locks are set.
pub data Reachable : World → Type 0 where
  start : (locks : Locks) (now : ℕ) → Reachable (record { locks = locks; now = now; users = [] })
  after : {w w' : World} → Reachable w → Step w w' → Reachable w'

-- No two users have one key.
abbrev pub Exclusive : List User → Type 0
Exclusive [] = Unit
Exclusive (user ∷ users) = All (λ other. other.key ≢ user.key) users × Exclusive users

-- The lock of each user is set, and lasts.
record Holds (locks : Locks) (now : ℕ) (user : User) : Type 0 where
  set : locks user.key ≡ some (user.since + 60)
  lasts : now < user.since + 60

record Sound (w : World) : Type 0 where
  hold : All (Holds w.locks w.now) w.users
  exclusive : Exclusive w.users

module _ {ℓ} {A : Type 0} (P : A → Type ℓ) where
  pub All-drop :
      (front : List A) (x : A) (back : List A) → All P (front ++ x ∷ back) → All P (front ++ back)
  All-drop [] x back h = h.1
  All-drop (y ∷ front) x back h = (h.0, All-drop front x back h.1)

  pub All-at : (front : List A) (x : A) (back : List A) → All P (front ++ x ∷ back) → P x
  All-at [] x back h = h.0
  All-at (y ∷ front) x back h = All-at front x back h.1

pub Exclusive-drop :
    (front : List User) (user : User) (back : List User)
    → Exclusive (front ++ user ∷ back)
    → Exclusive (front ++ back) × All (λ other. other.key ≢ user.key) (front ++ back)
Exclusive-drop [] user back h = (h.1, h.0)
Exclusive-drop (u ∷ front) user back h =
    let (rest, others) = Exclusive-drop front user back h.1 in
    (
      (All-drop (λ other. other.key ≢ u.key) front user back h.0, rest),
      (λ e. All-at (λ other. other.key ≢ u.key) front user back h.0 (sym e), others),
    )

set_key_other :
    (key : String) (value : Option ℕ) (t : Locks) (k : String)
    → k ≢ key
    → set_key key value t k ≡ t k
set_key_other key value t k other = elim (Bool-cases (k == key)) [
  | inl same ↦ absurd (other ((==_iff k key).0 same))
  | inr e ↦ rw e
]

set_key_self : (key : String) (value : Option ℕ) (t : Locks) → set_key key value t key ≡ value
set_key_self key value t = rw ((==_iff key key).1 refl)

-- Setting the lock of one key leaves the users of the others as they are.
Holds-set_key :
    (key : String) (value : Option ℕ) (locks : Locks) (now : ℕ) (users : List User)
    → All (λ other. other.key ≢ key) users
    → All (Holds locks now) users
    → All (Holds (set_key key value locks) now) users
Holds-set_key key value locks now [] others hold = tt
Holds-set_key key value locks now (u ∷ users) others hold = (
  record { set = set_key_other key value locks u.key others.0 ∙ hold.0.set; lasts = hold.0.lasts },
  Holds-set_key key value locks now users others.1 hold.1,
)

-- A lock that can be set is no user's.
free-others :
    (key : String) (locks : Locks) (now : ℕ) (users : List User)
    → held_at now (locks key) ≡ false
    → All (Holds locks now) users
    → All (λ other. other.key ≢ key) users
free-others key locks now [] free hold = tt
free-others key locks now (u ∷ users) free hold = (
  λ same. held (ap locks (sym same) ∙ hold.0.set) hold.0.lasts,
  free-others key locks now users free hold.1,
)
  where
    held : locks key ≡ some (u.since + 60) → now < u.since + 60 → ⊥
    held set lasts = ground (rw set at free, arith)

-- What a lock that is got leaves.
lock-true :
    (m : Moment) (key : String) (t : Locks)
    → (lock m key t).0 ≡ true
    → (held_at m.now (t key) ≡ false) × ((lock m key t).1 ≡ set_key key (some (m.now + 60)) t)
unfolding lock
lock-true m key t h = elim (Bool-cases (m.fails key)) [
  | inl down ↦ cc (rw down at h)
  | inr works ↦ elim (Bool-cases (held_at m.now (t key))) [
    | inl held ↦ cc (rw (works, held) at h)
    | inr free ↦ (free, rw (works, free))
  ]
]

lock-false :
    (m : Moment) (key : String) (t : Locks) → (lock m key t).0 ≡ false → (lock m key t).1 ≡ t
unfolding lock
lock-false m key t h = elim (Bool-cases (m.fails key)) [
  | inl down ↦ rw down
  | inr works ↦ elim (Bool-cases (held_at m.now (t key))) [
    | inl held ↦ rw (works, held)
    | inr free ↦ cc (rw (works, free) at h)
  ]
]

Holds-unlock :
    (m : Moment) (key : String) (locks : Locks) (now : ℕ) (users : List User)
    → All (λ other. other.key ≢ key) users
    → All (Holds locks now) users
    → All (Holds (unlock m key locks) now) users
unfolding unlock
Holds-unlock m key locks now users others hold = elim (Bool-cases (m.fails key)) [
  | inl down ↦ rw down hold
  | inr works ↦ rw works (Holds-set_key key none locks now users others hold)
]

waits :
    (locks : Locks) (now seconds : ℕ) (users : List User)
    → All (λ user. now + seconds < user.since + 60) users
    → All (Holds locks now) users
    → All (Holds locks (now + seconds)) users
waits locks now seconds [] lasts hold = tt
waits locks now seconds (u ∷ users) lasts hold =
    (record { set = hold.0.set; lasts = lasts.0 }, waits locks now seconds users lasts.1 hold.1)

Step-Sound : {w w' : World} → Step w w' → Sound w → Sound w'
Step-Sound {w} (acquired fails key got) sound =
    let m : Moment = record { now = w.now; fails = fails } in
    let (free, set) = lock-true m key w.locks got in
    let others = free-others key w.locks w.now w.users free sound.hold in
    record {
      hold =
          subst (λ locks. All (Holds locks w.now) (record { key = key; since = w.now } ∷ w.users))
            (sym set)
            (
              record { set = set_key_self key (some (w.now + 60)) w.locks; lasts = omega arith },
              Holds-set_key key (some (w.now + 60)) w.locks w.now w.users others sound.hold,
            );
      exclusive = (others, sound.exclusive);
    }
Step-Sound {w} (refused fails key got) sound = record {
  hold =
      subst (λ locks. All (Holds locks w.now) w.users)
        (sym (lock-false (record { now = w.now; fails = fails }) key w.locks got)) sound.hold;
  exclusive = sound.exclusive;
}
Step-Sound {w} (released fails front user back split) sound =
    let hold = subst (All (Holds w.locks w.now)) split sound.hold in
    let (exclusive, others) =
      Exclusive-drop front user back (subst Exclusive split sound.exclusive) in
    record {
      hold =
          Holds-unlock (record { now = w.now; fails = fails }) user.key w.locks w.now
            (front ++ back) others (All-drop (Holds w.locks w.now) front user back hold);
      exclusive = exclusive;
    }
Step-Sound {w} (waited seconds lasts) sound = record {
  hold = waits w.locks w.now seconds w.users lasts sound.hold;
  exclusive = sound.exclusive;
}

Reachable-Sound : {w : World} → Reachable w → Sound w
Reachable-Sound (start locks now) = record { hold = tt; exclusive = tt }
Reachable-Sound (after reachable step) = Step-Sound step (Reachable-Sound reachable)

-- If every user of a wallet releases it within 60 seconds of getting its lock, no two users ever have
-- the same wallet, whatever the order of their requests and releases, and whichever commands fail.
pub Reachable-Exclusive : (w : World) → Reachable w → Exclusive w.users
Reachable-Exclusive w reachable = (Reachable-Sound reachable).exclusive
