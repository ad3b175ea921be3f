-- ===== src/Boc/NullifiedMessage.antt =====
-- src/boc/nullified_message.rs
use axelar_relayer_ton.Prelude.{ℕ, String, List, Outcome, err, if◌then◌else◌, ◌==◌, string_eq}
use axelar_relayer_ton.Externals.{Externals}
use axelar_relayer_ton.Types.{BocError, invalid_op_code, append}
use axelar_relayer_ton.Boc.{
  Reader, ◌>>=◌, ◌>>◌, pure, lift, load, read_boc, inside, next_string, next_buffer, wrong_op_code,
}

pub record NullifiedSuccessfullyMessage : Type 0 where
  pub message_id : String
  pub source_chain : String
  pub source_address : String
  pub destination_chain : String
  pub destination_address : List ℕ
  pub payload : String

pub record Inner : Type 0 where
  pub payload : List ℕ
  pub destination_address : List ℕ
  pub destination_chain : String

module _ (lib : Externals) where
  open lib use {CellParser, load_bits, next_reference, hex_encode}

  -- The op code is compared by its eight hexadecimal digits.
  abbrev pub expect_nullified : Reader CellParser (Unit {0})
  expect_nullified = do
    op_code ← load (load_bits 32)
    if hex_encode op_code == "00000005"
        then pure tt
        else lift (
            err (
              invalid_op_code (wrong_op_code "5" (append (append "\"" (hex_encode op_code)) "\""))))

  abbrev pub inner : Reader CellParser Inner
  inner = do
    payload ← next_buffer lib
    destination_address ← next_buffer lib
    destination_chain ← next_string lib
    pure (record {
      payload = payload;
      destination_address = destination_address;
      destination_chain = destination_chain;
    })

  unfoldable pub from_boc_b64 : String → Outcome BocError NullifiedSuccessfullyMessage
  from_boc_b64 = read_boc lib do
    expect_nullified
    message_id ← next_string lib
    source_chain ← next_string lib
    source_address ← next_string lib
    inner_cell ← load next_reference
    read ← inside lib inner_cell inner
    pure (record {
      message_id = message_id;
      source_chain = source_chain;
      source_address = source_address;
      destination_chain = read.destination_chain;
      destination_address = read.destination_address;
      payload = hex_encode read.payload;
    })
