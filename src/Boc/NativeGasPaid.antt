-- ===== src/Boc/NativeGasPaid.antt =====
-- src/boc/native_gas_paid.rs
use axelar_relayer_ton.Prelude.{ℕ, String, List, Outcome, string_eq}
use axelar_relayer_ton.Externals.{Externals}
use axelar_relayer_ton.Types.{BocError}
use axelar_relayer_ton.Boc.{◌>>=◌, pure, load, read_boc, inside, next_string, load_bytes32}

pub record NativeGasPaidMessage (A : Type 0) : Type 0 where
  pub sender : A
  pub payload_hash : List ℕ
  pub msg_value : ℕ
  pub refund_address : A
  pub destination_chain : String
  pub destination_address : String

module _ (lib : Externals) where
  open lib use {Address, load_address, next_reference, from_bytes_be}

  unfoldable pub from_boc_b64 : String → Outcome BocError (NativeGasPaidMessage Address)
  from_boc_b64 = read_boc lib do
    sender ← load load_address
    payload_hash ← load_bytes32 lib "Invalid payload hash length"
    msg_value ← load_bytes32 lib "Invalid msg_value hash length"
    refund_cell ← load next_reference
    refund_address ← inside lib refund_cell (load load_address)
    destination_chain ← next_string lib
    destination_address ← next_string lib
    pure (record {
      sender = sender;
      payload_hash = payload_hash;
      msg_value = from_bytes_be msg_value;
      refund_address = refund_address;
      destination_chain = destination_chain;
      destination_address = destination_address;
    })
