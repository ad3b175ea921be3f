-- ===== src/TransactionParser/CallContract.antt =====
-- src/transaction_parser/parser_call_contract.rs
use axelar_relayer_ton.Prelude.{String, Bool, Option, some, List, [], ◌∷◌, Outcome, ok, ◌>>=◌}
use axelar_relayer_ton.Externals.{Externals}
use axelar_relayer_ton.Types.{
  TransactionParsingError, boc_parsing, append, lift_err, op_call_contract,
}
use axelar_relayer_ton.GmpTypes.{Event, call}
use axelar_relayer_ton.Boc.CallContract.{CallContractMessage, from_boc_b64}
use axelar_relayer_ton.TransactionParser.Common.{
  ParserState, MessageMatchingKey, parse_body, out_body, the_log, own_id, metadata, common,
  hash_to_message_id, match_opcode,
}

module _ (lib : Externals) where
  open lib use {Address, to_hex, hex_decode, base64_encode}

  abbrev pub ParserCallContract : Type 0
  ParserCallContract = ParserState Address (CallContractMessage Address)

  unfoldable pub check_match :
      ParserCallContract → Outcome TransactionParsingError (Bool × ParserCallContract)
  check_match = match_opcode lib op_call_contract 0

  unfoldable pub parse :
      ParserCallContract → Outcome TransactionParsingError (Bool × ParserCallContract)
  parse s = parse_body (from_boc_b64 lib) (out_body s.tx 0) s

  unfoldable pub key : ParserCallContract → Outcome TransactionParsingError MessageMatchingKey
  key s = do
    log ← the_log s
    ok (record {
      destination_chain = log.destination_chain;
      destination_address = log.destination_address;
      payload_hash = log.payload_hash;
    })

  unfoldable pub message_id : ParserCallContract → Outcome TransactionParsingError (Option String)
  message_id s = do id ← hash_to_message_id lib s.tx.hash; ok (some id)

  abbrev pub source_context : CallContractMessage Address → List (String × String)
  source_context log =
      ("source_address", to_hex log.source_address)
      ∷ ("destination_address", log.destination_address)
      ∷ ("destination_chain", log.destination_chain)
      ∷ []

  -- `chain_name` is the field of that name; `now` is the clock as text.
  unfoldable pub event :
      String → String → Option String → ParserCallContract → Outcome TransactionParsingError Event
  unfolding message_id
  event chain_name now _ s = do
    log ← the_log s
    found ← message_id s
    id ← own_id found
    decoded ←
        lift_err (λ e. boc_parsing (append "Failed to decode payload: " e)) (hex_decode log.payload)
    ok (
        call (common "CALL" s.tx.hash (some (metadata s.tx.hash (some (source_context log)) now)))
          (record {
            message_id = id;
            source_chain = chain_name;
            source_address = to_hex log.source_address;
            destination_address = log.destination_address;
            payload_hash = base64_encode log.payload_hash;
          })
          log.destination_chain (base64_encode decoded))
