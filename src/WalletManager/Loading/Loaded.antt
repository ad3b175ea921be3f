-- ===== src/WalletManager/Loading/Loaded.antt =====
-- src/wallet_manager.rs: which wallets a manager has.
use axelar_relayer_ton.Prelude.{
  ◌⊎◌, inl, inr, List, [], ◌∷◌, ◌≡◌, ◌≢◌, refl, subst, sym, Bool-cases, All, ok, >>=-eq-ok,
}
use axelar_relayer_ton.Externals.{Externals}
use axelar_relayer_ton.TonWalletHighLoadV3.{TonWalletHighLoadV3}
use axelar_relayer_ton.WalletManager.Loading.{WalletConfig, load_wallet, insert, insert_all, new}

module _ (lib : Externals) where
  open lib use {Address, address_eq}

  -- No two wallets have one address.
  abbrev pub Distinct : List (TonWalletHighLoadV3 Address) → Type 0
  Distinct [] = Unit
  Distinct (wallet ∷ wallets) =
      All (λ other. other.address ≢ wallet.address) wallets × Distinct wallets

  abbrev pub HasAddress : Address → List (TonWalletHighLoadV3 Address) → Type 0
  HasAddress address [] = ⊥
  HasAddress address (wallet ∷ wallets) = (wallet.address ≡ address) ⊎ HasAddress address wallets

  -- The wallet is loaded from one of the configurations.
  abbrev pub IsLoaded : List WalletConfig → TonWalletHighLoadV3 Address → Type 0
  IsLoaded [] wallet = ⊥
  IsLoaded (c ∷ config) wallet = (load_wallet lib c ≡ ok wallet) ⊎ IsLoaded config wallet

  -- Each configuration is loaded, and the wallets have its address.
  abbrev pub Covered : List (TonWalletHighLoadV3 Address) → List WalletConfig → Type 0
  Covered wallets config =
      All
        (λ c.
          (wallet : TonWalletHighLoadV3 Address) × ((load_wallet lib c ≡ ok wallet)
            × HasAddress wallet.address wallets))
        config

  module _ (P : TonWalletHighLoadV3 Address → Type 0) where
    insert-All :
        (wallet : TonWalletHighLoadV3 Address) (wallets : List (TonWalletHighLoadV3 Address))
        → P wallet
        → All P wallets
        → All P (insert lib wallet wallets)
    insert-All wallet [] p ps = (p, tt)
    insert-All wallet (other ∷ wallets) p ps =
        elim (Bool-cases (address_eq.eq other.address wallet.address)) [
          | inl same ↦ rw same (p, ps.1)
          | inr differs ↦ rw differs (ps.0, insert-All wallet wallets p ps.1)
        ]

    insert_all-All :
        (config : List WalletConfig) (wallets result : List (TonWalletHighLoadV3 Address))
        → ((wallet : TonWalletHighLoadV3 Address) → IsLoaded config wallet → P wallet)
        → All P wallets
        → insert_all lib config wallets ≡ ok result
        → All P result
    unfolding insert_all
    insert_all-All [] wallets result loaded ps h =
        let same : wallets ≡ result = cc in subst (All P) same ps
    insert_all-All (c ∷ config) wallets result loaded ps h =
        let (wallet, is, rest) = >>=-eq-ok (load_wallet lib c) _ h in
        insert_all-All config (insert lib wallet wallets) result (λ w l. loaded w (inr l))
          (insert-All wallet wallets (loaded wallet (inl is)) ps) rest

  insert-Distinct :
      (wallet : TonWalletHighLoadV3 Address) (wallets : List (TonWalletHighLoadV3 Address))
      → Distinct wallets
      → Distinct (insert lib wallet wallets)
  insert-Distinct wallet [] distinct = (tt, tt)
  insert-Distinct wallet (other ∷ wallets) distinct =
      elim (Bool-cases (address_eq.eq other.address wallet.address)) [
        | inl same ↦
            (let equal = (address_eq.decides other.address wallet.address).0 same in
              rw same (subst (λ a. All (λ w. w.address ≢ a) wallets) equal distinct.0, distinct.1))
        | inr differs ↦ rw differs (
          insert-All (λ w. w.address ≢ other.address) wallet wallets
              (λ equal.
                let same = (address_eq.decides other.address wallet.address).1 (sym equal) in cc)
              distinct.0,
          insert-Distinct wallet wallets distinct.1,
        )
      ]

  insert-HasAddress :
      (address : Address) (wallet : TonWalletHighLoadV3 Address)
      (wallets : List (TonWalletHighLoadV3 Address))
      → (wallet.address ≡ address) ⊎ HasAddress address wallets
      → HasAddress address (insert lib wallet wallets)
  insert-HasAddress address wallet [] has = has
  insert-HasAddress address wallet (other ∷ wallets) has =
      elim (Bool-cases (address_eq.eq other.address wallet.address)) [
        | inl same ↦ rw same (elim has [
          | inl is ↦ inl is
          | inr (inl is) ↦
              inl (let equal = (address_eq.decides other.address wallet.address).0 same in cc)
          | inr (inr later) ↦ inr later
        ])
        | inr differs ↦ rw differs (elim has [
          | inl is ↦ inr (insert-HasAddress address wallet wallets (inl is))
          | inr (inl is) ↦ inl is
          | inr (inr later) ↦ inr (insert-HasAddress address wallet wallets (inr later))
        ])
      ]

  insert_all-Distinct :
      (config : List WalletConfig) (wallets result : List (TonWalletHighLoadV3 Address))
      → Distinct wallets
      → insert_all lib config wallets ≡ ok result
      → Distinct result
  unfolding insert_all
  insert_all-Distinct [] wallets result distinct h =
      let same : wallets ≡ result = cc in subst Distinct same distinct
  insert_all-Distinct (c ∷ config) wallets result distinct h =
      let (wallet, is, rest) = >>=-eq-ok (load_wallet lib c) _ h in
      insert_all-Distinct config (insert lib wallet wallets) result
        (insert-Distinct wallet wallets distinct) rest

  insert_all-HasAddress :
      (address : Address) (config : List WalletConfig)
      (wallets result : List (TonWalletHighLoadV3 Address))
      → HasAddress address wallets
      → insert_all lib config wallets ≡ ok result
      → HasAddress address result
  unfolding insert_all
  insert_all-HasAddress address [] wallets result has h =
      let same : wallets ≡ result = cc in subst (HasAddress address) same has
  insert_all-HasAddress address (c ∷ config) wallets result has h =
      let (wallet, is, rest) = >>=-eq-ok (load_wallet lib c) _ h in
      insert_all-HasAddress address config (insert lib wallet wallets) result
        (insert-HasAddress address wallet wallets (inr has)) rest

  insert_all-Covered :
      (config : List WalletConfig) (wallets result : List (TonWalletHighLoadV3 Address))
      → insert_all lib config wallets ≡ ok result
      → Covered result config
  unfolding insert_all
  insert_all-Covered [] wallets result h = tt
  insert_all-Covered (c ∷ config) wallets result h =
      let (wallet, is, rest) = >>=-eq-ok (load_wallet lib c) _ h in
      (
        (
          wallet,
          (
            is,
            insert_all-HasAddress wallet.address config (insert lib wallet wallets) result
                (insert-HasAddress wallet.address wallet wallets (inl refl)) rest,
          ),
        ),
        insert_all-Covered config (insert lib wallet wallets) result rest,
      )

  -- If `WalletManager::new` does not panic, each of its wallets is loaded from one of the
  -- configurations, each configuration can be loaded and the address of its wallet is that of a wallet
  -- of the manager, and no two wallets have one address: of configurations with one address, one wallet
  -- is left.
  pub new-Loaded :
      (config : List WalletConfig) (wallets : List (TonWalletHighLoadV3 Address))
      → new lib config ≡ ok wallets
      → All (IsLoaded config) wallets × (Covered wallets config × Distinct wallets)
  unfolding new
  new-Loaded config wallets h = (
    insert_all-All (IsLoaded config) config [] wallets (λ wallet loaded. loaded) tt h,
    (insert_all-Covered config [] wallets h, insert_all-Distinct config [] wallets tt h),
  )
