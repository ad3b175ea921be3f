-- ===== src/Boc/RelayerExecuteMessage.antt =====
-- src/boc/relayer_execute_message.rs and src/hashing.rs: the call that the relayer asks the gateway
-- for.
use axelar_relayer_ton.Prelude.{ℕ, String, List, Outcome, ◌>>=◌}
use axelar_relayer_ton.Externals.{Externals}
use axelar_relayer_ton.Types.{
  BocError, boc_encoding_error, boc_parsing_error, lift_err, append, op_relayer_execute,
}
use axelar_relayer_ton.Boc.BufferToCell.{buffer_to_cell}

module _ (lib : Externals) where
  open lib use {
    Address, Cell, CellBuilder, new_builder, store_uint, store_reference, store_address, build,
    as_bytes, hash_part, hex_decode, keccak256,
  }

  pub record RelayerExecuteMessage : Type 0 where
    pub message_id : String
    pub source_chain : String
    pub source_address : String
    pub destination_chain : String
    pub destination_address : Address
    pub payload : String
    pub relayer_address : Address

  -- `store_reference(&Arc::new(cell)).map_err(|e| BocEncodingError(e.to_string()))`
  abbrev pub refer : Cell → CellBuilder → Outcome BocError CellBuilder
  refer cell b = lift_err boc_encoding_error (store_reference cell b)

  unfoldable pub payload_hash : List ℕ → ℕ
  payload_hash payload = keccak256 payload

  -- The cell with the payload, the destination and the payload's hash.
  abbrev pub inner :
      (payload destination_address destination_chain : Cell) → ℕ → Outcome BocError Cell
  inner payload destination_address destination_chain hash = do
    b ← refer payload new_builder
    b' ← refer destination_address b
    b'' ← refer destination_chain b'
    full ← lift_err boc_encoding_error (store_uint 256 hash b'')
    lift_err boc_parsing_error (build full)

  -- The cell with the message's id, its source and the inner cell.
  abbrev pub message : (message_id source_chain source_address inner : Cell) → Outcome BocError Cell
  message message_id source_chain source_address inner = do
    b ← refer message_id new_builder
    b' ← refer source_chain b
    b'' ← refer source_address b'
    full ← refer inner b''
    lift_err boc_encoding_error (build full)

  abbrev pub outer : Cell → Address → Outcome BocError Cell
  outer message relayer_address = do
    op ← lift_err boc_encoding_error (store_uint 32 op_relayer_execute new_builder)
    b ← refer message op
    full ← lift_err boc_encoding_error (store_address relayer_address b)
    lift_err boc_encoding_error (build full)

  unfoldable pub to_cell : RelayerExecuteMessage → Outcome BocError Cell
  unfolding payload_hash
  to_cell m = do
    message_id ← buffer_to_cell lib (as_bytes m.message_id)
    source_chain ← buffer_to_cell lib (as_bytes m.source_chain)
    source_address ← buffer_to_cell lib (as_bytes m.source_address)
    destination_chain ← buffer_to_cell lib (as_bytes m.destination_chain)
    destination_address ← buffer_to_cell lib (hash_part m.destination_address)
    payload_bytes ←
        lift_err (λ e. boc_parsing_error (append "Invalid hex payload: " e)) (hex_decode m.payload)
    payload ← buffer_to_cell lib payload_bytes
    inner_cell ← inner payload destination_address destination_chain (payload_hash payload_bytes)
    message_cell ← message message_id source_chain source_address inner_cell
    outer message_cell m.relayer_address
