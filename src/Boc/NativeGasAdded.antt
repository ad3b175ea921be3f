-- ===== src/Boc/NativeGasAdded.antt =====
-- src/boc/native_gas_added.rs
use axelar_relayer_ton.Prelude.{ℕ, String, List, Outcome, string_eq}
use axelar_relayer_ton.Externals.{Externals}
use axelar_relayer_ton.Types.{BocError}
use axelar_relayer_ton.Boc.{◌>>=◌, pure, load, read_boc, load_bytes32}

pub record NativeGasAddedMessage (A : Type 0) : Type 0 where
  pub tx_hash : List ℕ
  pub refund_address : A
  pub msg_value : ℕ

module _ (lib : Externals) where
  open lib use {Address, load_address, from_bytes_be}

  unfoldable pub from_boc_b64 : String → Outcome BocError (NativeGasAddedMessage Address)
  from_boc_b64 = read_boc lib do
    tx_hash ← load_bytes32 lib "Invalid tx_hash hash length"
    refund_address ← load load_address
    msg_value ← load_bytes32 lib "Invalid msg_value hash length"
    pure (record {
      tx_hash = tx_hash;
      refund_address = refund_address;
      msg_value = from_bytes_be msg_value;
    })
