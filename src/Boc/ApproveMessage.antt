-- ===== src/Boc/ApproveMessage.antt =====
-- src/boc/approve_message.rs
use axelar_relayer_ton.Prelude.{
  ℕ, String, inl, inr, List, [], ◌∷◌, Outcome, ok, err, panic, string_eq,
}
use axelar_relayer_ton.Prelude
use axelar_relayer_ton.Externals.{Externals}
use axelar_relayer_ton.Types.{BocError, boc_parsing_error, op_approve_messages}
use axelar_relayer_ton.Boc.{
  Reader, ◌>>=◌, ◌>>◌, pure, lift, load, run, inside, next_string, next_buffer, expect_op_code,
}

pub record ApproveMessage : Type 0 where
  pub message_id : String
  pub source_chain : String
  pub source_address : String
  pub destination_chain : String
  pub destination_address : List ℕ
  pub payload_hash : ℕ

module _ (lib : Externals) where
  open lib use {Cell, CellParser, cell_from_boc_hex, parser, next_reference, load_uint, load_dict}

  -- What stands in the inner cell.
  abbrev pub inner : Reader CellParser (List ℕ × String)
  inner = do
    destination_address ← next_buffer lib
    destination_chain ← next_string lib
    pure (destination_address, destination_chain)

  abbrev pub approve_message : Reader CellParser ApproveMessage
  approve_message = do
    payload_hash ← load (load_uint 256)
    message_id ← next_string lib
    source_chain ← next_string lib
    source_address ← next_string lib
    inner_cell ← load next_reference
    read ← inside lib inner_cell inner
    pure (record {
      message_id = message_id;
      source_chain = source_chain;
      source_address = source_address;
      destination_chain = read.1;
      destination_address = read.0;
      payload_hash = payload_hash;
    })

  -- `Arc::from_cell(cell)` copies the cell.
  unfoldable pub parse_approve_messages : Cell → Outcome BocError ApproveMessage
  parse_approve_messages cell = run approve_message (parser cell)

  -- `collect::<Result<_, _>>()`: the first error, or all the messages.
  unfoldable pub collect_messages : List Cell → Outcome BocError (List ApproveMessage)
  unfolding parse_approve_messages
  collect_messages [] = ok []
  collect_messages (cell ∷ cells) =
      Prelude.◌>>=◌ (parse_approve_messages cell)
        λ message. Prelude.◌>>=◌ (collect_messages cells) λ messages. ok (message ∷ messages)

  abbrev pub approve_messages : Reader CellParser (List ApproveMessage)
  approve_messages = do
    expect_op_code lib op_approve_messages "00000028"
    proof ← load next_reference
    messages ← load next_reference
    cells ← inside lib messages (load (load_dict 16))
    lift (collect_messages cells)

  -- The messages; the proof is kept in a field that nothing reads.
  unfoldable pub from_boc_hex : String → Outcome BocError (List ApproveMessage)
  unfolding collect_messages
  from_boc_hex boc = elim (cell_from_boc_hex boc) [
    | inl text ↦ err (boc_parsing_error text)
    | inr cell ↦ run approve_messages (parser cell)
  ]
