-- ===== src/WalletManager/Loading.antt =====
-- `WalletManager::new` of src/wallet_manager.rs, over src/config.rs: the wallets of the configuration.
-- The hash map is an association list by the address of the wallet, whose order the code leaves open.
use axelar_relayer_ton.Prelude.{
  ℕ, String, ◌⊎◌, inl, inr, List, [], ◌∷◌, Outcome, ok, panic, ◌>>=◌, ◌==◌, if◌then◌else◌,
}
use axelar_relayer_ton.Externals.{Externals}
use axelar_relayer_ton.TonWalletHighLoadV3
use axelar_relayer_ton.TonWalletHighLoadV3.{TonWalletHighLoadV3}
use axelar_relayer_ton.WalletManager.{WalletManagerError}
pub mod Loaded

pub record WalletConfig : Type 0 where
  pub public_key : String
  pub secret_key : String
  pub subwallet_id : ℕ  -- u32
  pub timeout : ℕ  -- u64
  pub address : String

-- `unwrap`
abbrev pub unwrap : {A : Type 0} → String ⊎ A → Outcome WalletManagerError A
unwrap (inl e) = panic
unwrap (inr a) = ok a

module _ (lib : Externals) where
  open lib use {Address, address_eq, address_from_base64_url, hex_decode}

  unfoldable pub load_wallet :
      WalletConfig → Outcome WalletManagerError (TonWalletHighLoadV3 Address)
  load_wallet config = do
    public_key_bytes ← unwrap (hex_decode config.public_key)
    secret_key_bytes ← unwrap (hex_decode config.secret_key)
    address ← unwrap (address_from_base64_url config.address)
    ok (
        TonWalletHighLoadV3.new address
          (record { public_key = public_key_bytes; secret_key = secret_key_bytes })
          config.subwallet_id config.timeout)

  abbrev pub insert :
      TonWalletHighLoadV3 Address
      → List (TonWalletHighLoadV3 Address)
      → List (TonWalletHighLoadV3 Address)
  insert wallet [] = wallet ∷ []
  insert wallet (other ∷ wallets) =
      let rest = insert wallet wallets in
      if address_eq.eq other.address wallet.address then wallet ∷ wallets else other ∷ rest

  unfoldable pub insert_all :
      List WalletConfig
      → List (TonWalletHighLoadV3 Address)
      → Outcome WalletManagerError (List (TonWalletHighLoadV3 Address))
  unfolding load_wallet
  insert_all [] wallets = ok wallets
  insert_all (c ∷ config) wallets =
      load_wallet c >>= λ wallet. insert_all config (insert wallet wallets)

  unfoldable pub new :
      List WalletConfig → Outcome WalletManagerError (List (TonWalletHighLoadV3 Address))
  unfolding insert_all
  new config = insert_all config []
