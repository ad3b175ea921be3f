-- ===== src/Workers/Drawing.antt =====
-- The workers as users of their wallets: their locks keep two of them from one wallet.
use axelar_relayer_ton.Prelude.{
  ℕ, ◌+◌, ◌<◌, String, List, [], ◌∷◌, ◌++◌, map, ◌≡◌, ◌≢◌, refl, sym, ap, subst, ◌∙◌, All, none,
  Option,
}
use axelar_relayer_ton.Prelude.Int.{ℤ}
use axelar_relayer_ton.TonWalletQueryId.{Table}
use axelar_relayer_ton.WalletManager.Exclusion.{
  User, World, Step, Reachable, after, Exclusive, Exclusive-drop, Reachable-Exclusive,
}
use axelar_relayer_ton.LockManager.{unlock}
use axelar_relayer_ton.Workers.{
  Slot, Worker, Site, Move, Reached, start, then_move, acquired, refused, released, waited,
  has_read, has_written,
}
use axelar_relayer_ton.WalletManager.Exclusion

abbrev user_of : Worker → User
user_of w = record { key = w.key; since = w.since }

abbrev users_of : List Worker → List User
users_of workers = map user_of workers

abbrev world : Site → World
world s = record { locks = s.locks; now = s.now; users = users_of s.workers }

users_of-append :
    (front back : List Worker) → users_of (front ++ back) ≡ users_of front ++ users_of back
users_of-append [] back = refl
users_of-append (w ∷ front) back = ap (λ users. user_of w ∷ users) (users_of-append front back)

-- What a worker has read makes no other user of it.
users_of-slot :
    (front : List Worker) (w : Worker) (slot : Option Slot) (back : List Worker)
    → users_of (front ++ record w { slot = slot } ∷ back) ≡ users_of (front ++ w ∷ back)
users_of-slot [] w slot back = refl
users_of-slot (x ∷ front) w slot back =
    ap (λ users. user_of x ∷ users) (users_of-slot front w slot back)

users_of-All :
    (P : ℕ → Type 0) (workers : List Worker)
    → All (λ w. P w.since) workers
    → All (λ user. P user.since) (users_of workers)
users_of-All P [] h = tt
users_of-All P (w ∷ workers) h = (h.0, users_of-All P workers h.1)

module _ (until : String → ℤ) where
  same_world :
      (s : Site) (front : List Worker) (w : Worker) (slot : Option Slot) (back : List Worker)
      → s.workers ≡ front ++ w ∷ back
      → Reachable (world s)
      → Reachable (record {
        locks = s.locks;
        now = s.now;
        users = users_of (front ++ record w { slot = slot } ∷ back);
      })
  same_world s front w slot back split reachable =
      subst (λ users. Reachable (record { locks = s.locks; now = s.now; users = users }))
        (ap users_of split ∙ sym (users_of-slot front w slot back)) reachable

  Move-Reachable : {s s' : Site} → Move until s s' → Reachable (world s) → Reachable (world s')
  Move-Reachable {s} (acquired fails key got) reachable =
      after reachable (Exclusion.acquired {w = world s} fails key got)
  Move-Reachable {s} (refused fails key got) reachable =
      after reachable (Exclusion.refused {w = world s} fails key got)
  Move-Reachable {s} (released fails front w back split) reachable =
      subst
        (λ users. Reachable (record {
          locks = unlock (record { now = s.now; fails = fails }) w.key s.locks;
          now = s.now;
          users = users;
        }))
        (sym (users_of-append front back))
        (after reachable (
          Exclusion.released {w = world s} fails (users_of front) (user_of w) (users_of back)
            (ap users_of split ∙ users_of-append front (w ∷ back))))
  Move-Reachable {s} (waited seconds lasts) reachable = after reachable (
      Exclusion.waited {w = world s} seconds
        (users_of-All (λ since. s.now + seconds < since + 60) s.workers lasts))
  Move-Reachable {s} (has_read at front w back split live) reachable =
      same_world s front w _ back split reachable
  Move-Reachable {s} (has_written c slot front w back split read mine at works) reachable =
      same_world s front w none back split reachable

  Reached-Reachable : {table : Table} {s : Site} → Reached until table s → Reachable (world s)
  Reached-Reachable (start locks now) = Exclusion.start locks now
  Reached-Reachable (then_move reached move) = Move-Reachable move (Reached-Reachable reached)

  map-All :
      (key : String) (workers : List Worker)
      → All (λ user. user.key ≢ key) (users_of workers)
      → All (λ w. w.key ≢ key) workers
  map-All key [] h = tt
  map-All key (w ∷ workers) h = (h.0, map-All key workers h.1)

  -- The other workers have other wallets.
  pub Reached-others :
      {table : Table} {s : Site} (front : List Worker) (w : Worker) (back : List Worker)
      → Reached until table s
      → s.workers ≡ front ++ w ∷ back
      → All (λ other. other.key ≢ w.key) (front ++ back)
  Reached-others {s = s} front w back reached split =
      let exclusive : Exclusive (users_of front ++ user_of w ∷ users_of back) =
        subst Exclusive (ap users_of split ∙ users_of-append front (w ∷ back))
          (Reachable-Exclusive (world s) (Reached-Reachable reached)) in
      map-All w.key (front ++ back) (
        subst (All (λ user. user.key ≢ w.key)) (sym (users_of-append front back))
          (Exclusive-drop (users_of front) (user_of w) (users_of back) exclusive).1)
