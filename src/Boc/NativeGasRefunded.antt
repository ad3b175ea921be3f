-- ===== src/Boc/NativeGasRefunded.antt =====
-- src/boc/native_gas_refunded.rs
use axelar_relayer_ton.Prelude.{ℕ, String, List, Outcome, string_eq}
use axelar_relayer_ton.Externals.{Externals}
use axelar_relayer_ton.Types.{BocError}
use axelar_relayer_ton.Boc.{◌>>=◌, pure, load, read_boc}

pub record NativeGasRefundedMessage (A : Type 0) : Type 0 where
  pub tx_hash : List ℕ
  pub address : A
  pub amount : ℕ

module _ (lib : Externals) where
  open lib use {Address, load_address, load_coins, load_tonhash}

  unfoldable pub from_boc_b64 : String → Outcome BocError (NativeGasRefundedMessage Address)
  from_boc_b64 = read_boc lib do
    tx_hash ← load load_tonhash
    address ← load load_address
    amount ← load load_coins
    pure (record { tx_hash = tx_hash; address = address; amount = amount })
