-- ===== src/Broadcaster/Release.antt =====
-- src/broadcaster.rs over src/wallet_manager.rs and src/lock_manager.rs: what a request leaves of the
-- locks.
use axelar_relayer_ton.Prelude.{
  ℕ, ◌+◌, String, ◌⊎◌, inl, inr, Bool, true, false, Option, none, some, [], ◌∷◌, ◌≡◌, refl, sym, ap,
  subst, ◌∙◌, Outcome, ok, err, panic, returns, fails, Ensures-panic, Bool-cases, if◌then◌else◌,
  ◌==◌, string_eq,
}
use axelar_relayer_ton.Externals.{Externals, OutAction}
use axelar_relayer_ton.LockManager.{Locks, Moment, set_key, unlock}
use axelar_relayer_ton.WalletManager.{WalletManagerError, release}
use axelar_relayer_ton.WalletManager.Acquire.{Acquired, acquire-Acquired}
use axelar_relayer_ton.TonWalletHighLoadV3.{TonWalletHighLoadV3}
use axelar_relayer_ton.Boc.NoPanic.{Returns}
use axelar_relayer_ton.Broadcaster.{
  framed, BroadcasterError, TonBroadcaster, Surroundings, State, Act, then_act, released,
  wallet_key, send_to_chain, with_wallet,
}
use axelar_relayer_ton.Client.{V3MessageResponse}
use axelar_relayer_ton.Broadcaster.Sends.{send_to_chain-Sent}
use axelar_relayer_ton.Broadcaster.NoPanic.{Ends-at, Ends-send_to_chain}
use axelar_relayer_ton.Broadcaster.Handlers.{reported, hash_or_empty}

-- A lock is as it was, or it is free.
abbrev pub AsBefore : Locks → Locks → Type 0
AsBefore locks locks' = (key : String) → (locks' key ≡ locks key) ⊎ (locks' key ≡ none)

-- An inner block: it ends, and it does not touch the locks.
pub data Inner {R : Type 0} (act : Act R) : Type 0 where
  inner : ((s : State) → Returns (act s).0 × ((act s).1.locks ≡ s.locks)) → Inner act

Inner-at :
    {R : Type 0} {act : Act R}
    → Inner act
    → (s : State) → Returns (act s).0 × ((act s).1.locks ≡ s.locks)
Inner-at (inner h) = h

-- A whole request: it ends, and it leaves no lock.
pub data Leaves {R : Type 0} (act : Act R) : Type 0 where
  leaves : ((s : State) → Returns (act s).0 × AsBefore s.locks (act s).1.locks) → Leaves act

pub Leaves-at :
    {R : Type 0} {act : Act R}
    → Leaves act
    → (s : State) → Returns (act s).0 × AsBefore s.locks (act s).1.locks
Leaves-at (leaves h) = h

pub Inner-then_act :
    {R Q : Type 0} (o : Outcome BroadcasterError R) (act : R → Act Q)
    → Returns o
    → ((r : R) → Inner (act r))
    → Inner (then_act o act)
Inner-then_act (ok r) act h k = k r
Inner-then_act (err e) act h k = inner (λ s. (fails, refl))
Inner-then_act panic act h k = absurd (Ensures-panic h)

pub Leaves-then_act :
    {R Q : Type 0} (o : Outcome BroadcasterError R) (act : R → Act Q)
    → Returns o
    → ((r : R) → Leaves (act r))
    → Leaves (then_act o act)
Leaves-then_act (ok r) act h k = k r
Leaves-then_act (err e) act h k = leaves (λ s. (fails, λ key. inl refl))
Leaves-then_act panic act h k = absurd (Ensures-panic h)

pub Leaves-if :
    {R : Type 0} (test : Bool) (r : Outcome BroadcasterError R) (act : Act R)
    → Returns r
    → Leaves act
    → Leaves (λ s. if test then (r, s) else act s)
Leaves-if true r act h k = leaves (λ s. (h, λ key. inl refl))
Leaves-if false r act h k = k

reported-Returns :
    (message_id source_chain : String) (r : Outcome BroadcasterError V3MessageResponse × State)
    (locks : Locks)
    → Returns r.0
    → r.1.locks ≡ locks
    → Returns (reported message_id source_chain r).0
      × ((reported message_id source_chain r).1.locks ≡ locks)
reported-Returns message_id source_chain (ok response, s) locks h same = (returns tt, same)
reported-Returns message_id source_chain (err e, s) locks h same = (returns tt, same)
reported-Returns message_id source_chain (panic, s) locks h same = absurd (Ensures-panic h)

hash_or_empty-Returns :
    (r : Outcome BroadcasterError V3MessageResponse × State) (locks : Locks)
    → Returns r.0
    → r.1.locks ≡ locks
    → Returns (hash_or_empty r).0 × ((hash_or_empty r).1.locks ≡ locks)
hash_or_empty-Returns (ok response, s) locks h same = (returns tt, same)
hash_or_empty-Returns (err e, s) locks h same = (returns tt, same)
hash_or_empty-Returns (panic, s) locks h same = absurd (Ensures-panic h)

-- Setting a lock and freeing it again.
set_key-freed :
    (key : String) (value : Option ℕ) (locks locks' : Locks)
    → locks' ≡ set_key key value locks
    → AsBefore locks (set_key key none locks')
set_key-freed key value locks locks' same k = elim (Bool-cases (k == key)) [
  | inl mine ↦ inr (rw mine)
  | inr other ↦ inl (rw other (ap (λ (l : Locks). l k) same ∙ rw other))
]

unlock-works :
    (m : Moment) (key : String) (locks : Locks)
    → m.fails key ≡ false
    → unlock m key locks ≡ set_key key none locks
unfolding unlock
unlock-works m key locks works = rw works

module _ (lib : Externals) (b : TonBroadcaster lib) (around : Surroundings) where
  pub Inner-sending :
      (wallet : TonWalletHighLoadV3 lib.Address) (action : OutAction lib.Cell)
      → Inner (send_to_chain lib b around wallet (action ∷ []) none)
  Inner-sending wallet action = inner λ s. (
    Ends-at (Ends-send_to_chain lib b around wallet action) s,
    (send_to_chain-Sent lib b around wallet (action ∷ []) s).locks,
  )

  pub Inner-reported :
      (message_id source_chain : String) (act : Act V3MessageResponse)
      → Inner act
      → Inner (λ s. reported message_id source_chain (act s))
  Inner-reported message_id source_chain act h =
      inner
        (λ s. reported-Returns message_id source_chain _ s.locks (Inner-at h s).0 (Inner-at h s).1)

  pub Inner-hash_or_empty :
      (act : Act V3MessageResponse) → Inner act → Inner (λ s. hash_or_empty (act s))
  Inner-hash_or_empty act h =
      inner (λ s. hash_or_empty-Returns _ s.locks (Inner-at h s).0 (Inner-at h s).1)

  module _ (works : (key : String) → around.release_at.fails key ≡ false) where
    released-AsBefore :
        {R : Type 0} (wallet : TonWalletHighLoadV3 lib.Address) (value : Option ℕ) (locks : Locks)
        (r : Outcome BroadcasterError R × State)
        → Returns r.0
        → r.1.locks ≡ set_key (wallet_key lib wallet) value locks
        → Returns (released lib around wallet r).0
          × AsBefore locks (released lib around wallet r).1.locks
    unfolding release
    released-AsBefore wallet value locks (ok r, s) h same = (
      returns tt,
      rw (unlock-works around.release_at (wallet_key lib wallet) s.locks (works _))
          (set_key-freed (wallet_key lib wallet) value locks s.locks same),
    )
    released-AsBefore wallet value locks (err e, s) h same = (
      fails,
      rw (unlock-works around.release_at (wallet_key lib wallet) s.locks (works _))
          (set_key-freed (wallet_key lib wallet) value locks s.locks same),
    )
    released-AsBefore wallet value locks (panic, s) h same = absurd (Ensures-panic h)

    framed-AsBefore :
        {R : Type 0} (body : TonWalletHighLoadV3 lib.Address → Act R) (s : State)
        (acquired : Outcome WalletManagerError (TonWalletHighLoadV3 lib.Address) × Locks)
        → ((wallet : TonWalletHighLoadV3 lib.Address) → Inner (body wallet))
        → Acquired (wallet_key lib) around.acquire_at b.wallets s.locks acquired
        → Returns (framed lib around body acquired s).0
          × AsBefore s.locks (framed lib around body acquired s).1.locks
    framed-AsBefore body s acquired h (inl (front, wallet, back, split, before, free, r)) =
        let locks = set_key (wallet_key lib wallet) (some (around.acquire_at.now + 60)) s.locks in
        let (h', same) = Inner-at (h wallet) (record s { locks = locks }) in
        subst
          (λ (a : Outcome WalletManagerError (TonWalletHighLoadV3 lib.Address) × Locks).
            Returns (framed lib around body a s).0
            × AsBefore s.locks (framed lib around body a s).1.locks)
          (sym r)
          (released-AsBefore wallet (some (around.acquire_at.now + 60)) s.locks
            (body wallet (record s { locks = locks })) h' same)
    framed-AsBefore body s acquired h (inr (busy, r)) =
        subst
          (λ (a : Outcome WalletManagerError (TonWalletHighLoadV3 lib.Address) × Locks).
            Returns (framed lib around body a s).0
            × AsBefore s.locks (framed lib around body a s).1.locks)
          (sym r) (fails, λ key. inl refl)

    pub Leaves-with_wallet :
        {R : Type 0} (body : TonWalletHighLoadV3 lib.Address → Act R)
        → ((wallet : TonWalletHighLoadV3 lib.Address) → Inner (body wallet))
        → Leaves (with_wallet lib b around body)
    unfolding with_wallet
    Leaves-with_wallet body h = leaves λ s.
        framed-AsBefore body s _ h
          (acquire-Acquired (wallet_key lib) around.acquire_at b.wallets s.locks)
