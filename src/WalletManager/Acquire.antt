-- ===== src/WalletManager/Acquire.antt =====
-- src/wallet_manager.rs over src/lock_manager.rs: which wallet is acquired.
use axelar_relayer_ton.Prelude.{
  ◌+◌, String, Bool, true, false, ◌||◌, some, List, [], ◌∷◌, ◌++◌, ◌≡◌, refl, ap, ◌⊎◌, inl, inr,
  Bool-cases, All, Outcome, ok, err,
}
use axelar_relayer_ton.LockManager.{Locks, Moment, held_at, set_key, lock, redis}
use axelar_relayer_ton.WalletManager.{WalletManagerError, no_available_wallet, acquire}

-- The lock cannot be set: it is held, or the command fails.
abbrev pub busy : Moment → Locks → String → Bool
busy m t key = m.fails key || held_at m.now (t key)

lock-busy :
    (m : Moment) (key : String) (t : Locks) → busy m t key ≡ true → lock m key t ≡ (false, t)
unfolding lock
lock-busy m key t h = elim (Bool-cases (m.fails key)) [
  | inl down ↦ rw down
  | inr works ↦ rw (works, rw works at h)
]

lock-free :
    (m : Moment) (key : String) (t : Locks)
    → busy m t key ≡ false
    → lock m key t ≡ (true, set_key key (some (m.now + 60)) t)
unfolding lock
lock-free m key t h = elim (Bool-cases (m.fails key)) [
  | inl down ↦ cc (rw down at h)
  | inr works ↦ rw (works, rw works at h)
]

module _ {W : Type 0} (address : W → String) (m : Moment) where
  -- The first wallet whose lock can be set, and the locks with that one set for 60 seconds; or an
  -- error, if there is none.
  abbrev pub Acquired : List W → Locks → Outcome WalletManagerError W × Locks → Type 0
  Acquired wallets t r =
      ((front : List W) × (wallet : W) × (back : List W) × (wallets ≡ front ++ wallet ∷ back)
        × All (λ w. busy m t (address w) ≡ true) front
        × (busy m t (address wallet) ≡ false)
        × (r ≡ (ok wallet, set_key (address wallet) (some (m.now + 60)) t)))
      ⊎ (All (λ w. busy m t (address w) ≡ true) wallets × (r ≡ (err no_available_wallet, t)))

  next_Acquired :
      (w : W) (wallets : List W) (t : Locks) (r : Outcome WalletManagerError W × Locks)
      → busy m t (address w) ≡ true
      → Acquired wallets t r
      → Acquired (w ∷ wallets) t r
  next_Acquired w wallets t r h (inl (front, wallet, back, split, before, free, r_eq)) =
      inl (w ∷ front, wallet, back, ap (λ ws. w ∷ ws) split, (h, before), free, r_eq)
  next_Acquired w wallets t r h (inr (all_busy, r_eq)) = inr ((h, all_busy), r_eq)

  -- `acquire` returns the first wallet whose lock is not held and can be set, and sets that lock for 60
  -- seconds; it returns the error, and leaves the locks alone, exactly if there is no such wallet.
  pub acquire-Acquired :
      (wallets : List W) (t : Locks) → Acquired wallets t (acquire address (redis m) wallets t)
  unfolding acquire
  acquire-Acquired [] t = inr (tt, refl)
  acquire-Acquired (w ∷ wallets) t = elim (Bool-cases (busy m t (address w))) [
    | inl h ↦
        rw (lock-busy m (address w) t h)
          (next_Acquired w wallets t _ h (acquire-Acquired wallets t))
    | inr h ↦ rw (lock-free m (address w) t h) (inl ([], w, wallets, refl, tt, h, refl))
  ]
