-- ===== src/Boc/CallContract.antt =====
-- src/boc/call_contract.rs
use axelar_relayer_ton.Prelude.{ℕ, String, List, Outcome, string_eq}
use axelar_relayer_ton.Externals.{Externals}
use axelar_relayer_ton.Types.{BocError}
use axelar_relayer_ton.Boc.{◌>>=◌, pure, load, read_boc, next_string, next_buffer, load_bytes32}

pub record CallContractMessage (A : Type 0) : Type 0 where
  pub destination_chain : String
  pub destination_address : String
  pub payload : String
  pub source_address : A
  pub payload_hash : List ℕ

module _ (lib : Externals) where
  open lib use {Address, load_address, hex_encode}

  unfoldable pub from_boc_b64 : String → Outcome BocError (CallContractMessage Address)
  from_boc_b64 = read_boc lib do
    destination_chain ← next_string lib
    destination_address ← next_string lib
    payload ← next_buffer lib
    source_address ← load load_address
    payload_hash ← load_bytes32 lib "Invalid payload hash length"
    pure (record {
      destination_chain = destination_chain;
      destination_address = destination_address;
      payload = hex_encode payload;
      source_address = source_address;
      payload_hash = payload_hash;
    })
