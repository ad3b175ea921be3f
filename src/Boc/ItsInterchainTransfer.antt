-- ===== src/Boc/ItsInterchainTransfer.antt =====
-- src/boc/its_interchain_transfer.rs
use axelar_relayer_ton.Prelude.{ℕ, String, List, Outcome, string_eq}
use axelar_relayer_ton.Externals.{Externals}
use axelar_relayer_ton.Types.{
  BocError, boc_parsing_error, append, lift_err, op_interchain_transfer_log,
}
use axelar_relayer_ton.Boc.{
  ◌>>=◌, ◌>>◌, pure, lift, load, read_boc, inside, next_string, next_buffer, expect_op_code,
}

pub record LogItsInterchainTransferMessage (A : Type 0) : Type 0 where
  pub token_id : ℕ
  pub sender_address : A
  pub destination_chain : String
  pub destination_address : String
  pub jetton_amount : ℕ
  pub message_data : List ℕ

module _ (lib : Externals) where
  open lib use {
    Address, load_uint, next_reference, hex_encode, address_from_str, show_number_hex, cell_data,
  }

  unfoldable pub from_boc_b64 : String → Outcome BocError (LogItsInterchainTransferMessage Address)
  from_boc_b64 = read_boc lib do
    expect_op_code lib op_interchain_transfer_log "00000110"
    token_id ← load (load_uint 256)
    sender_cell ← load next_reference
    sender ← inside lib sender_cell (load (load_uint 256))
    sender_address ←
        lift (lift_err boc_parsing_error (address_from_str (append "0:" (show_number_hex sender))))
    destination_chain ← next_string lib
    destination_address ← next_buffer lib
    jetton_amount ← load (load_uint 256)
    data_cell ← load next_reference
    pure (record {
      token_id = token_id;
      sender_address = sender_address;
      destination_chain = destination_chain;
      destination_address = append "0x" (hex_encode destination_address);
      jetton_amount = jetton_amount;
      message_data = cell_data data_cell;
    })
