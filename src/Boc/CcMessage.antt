-- ===== src/Boc/CcMessage.antt =====
-- src/boc/cc_message.rs
use axelar_relayer_ton.Prelude.{ℕ, String, List, Outcome, string_eq}
use axelar_relayer_ton.Externals.{Externals}
use axelar_relayer_ton.Types.{BocError, workchain}
use axelar_relayer_ton.Boc.{
  Reader, ◌>>=◌, pure, lift, load, read_boc, inside, next_string, next_buffer, load_bytes32,
  bytes32,
}

pub record TonCcMessage : Type 0 where
  pub message_id : String
  pub destination_address : String
  pub destination_chain : String
  pub source_address : String
  pub source_chain : String
  pub log_event : String
  pub payload_hash : List ℕ

pub record Inner : Type 0 where
  pub payload_hash : List ℕ
  pub destination_address : List ℕ
  pub destination_chain : String

module _ (lib : Externals) where
  open lib use {CellParser, next_reference, to_hex, address_new}

  -- What stands in the inner cell.
  abbrev pub inner : Reader CellParser Inner
  inner = do
    payload_hash ← load_bytes32 lib "Invalid payload hash length"
    buffer ← next_buffer lib
    destination_address ← lift (bytes32 "Invalid hash length" buffer)
    destination_chain ← next_string lib
    pure (record {
      payload_hash = payload_hash;
      destination_address = destination_address;
      destination_chain = destination_chain;
    })

  unfoldable pub from_boc_b64 : String → Outcome BocError TonCcMessage
  from_boc_b64 = read_boc lib do
    message_id ← next_string lib
    source_chain ← next_string lib
    source_address ← next_string lib
    inner_cell ← load next_reference
    read ← inside lib inner_cell inner
    pure (record {
      message_id = message_id;
      destination_address = to_hex (address_new workchain read.destination_address);
      destination_chain = read.destination_chain;
      source_address = source_address;
      source_chain = source_chain;
      log_event = "";
      payload_hash = read.payload_hash;
    })
