-- ===== src/TransactionParser/ItsTokenMetadataRegistered.antt =====
-- src/transaction_parser/parser_its_token_metadata_registered.rs
use axelar_relayer_ton.Prelude.{String, Bool, Option, none, some, Outcome, ok, panic, ◌>>=◌}
use axelar_relayer_ton.Externals.{Externals}
use axelar_relayer_ton.Types.{TransactionParsingError, append, op_register_token_metadata}
use axelar_relayer_ton.GmpTypes.{Event, its_token_metadata_registered}
use axelar_relayer_ton.Boc.ItsTokenMetadataRegistered.{
  LogTokenMetadataRegisteredMessage, from_boc_b64,
}
use axelar_relayer_ton.TransactionParser.Common.{
  ParserState, MessageMatchingKey, parse_body, out_body, the_log, given_id, metadata, common,
  match_opcode,
}

module _ (lib : Externals) where
  open lib use {Address, to_hex, strip_prefix}

  abbrev pub ParserItsTokenMetadataRegistered : Type 0
  ParserItsTokenMetadataRegistered = ParserState Address (LogTokenMetadataRegisteredMessage Address)

  unfoldable pub check_match :
      ParserItsTokenMetadataRegistered
      → Outcome TransactionParsingError (Bool × ParserItsTokenMetadataRegistered)
  check_match = match_opcode lib op_register_token_metadata 0

  unfoldable pub parse :
      ParserItsTokenMetadataRegistered
      → Outcome TransactionParsingError (Bool × ParserItsTokenMetadataRegistered)
  parse s = parse_body (from_boc_b64 lib) (out_body s.tx 0) s

  -- `unimplemented!()`
  abbrev pub key :
      ParserItsTokenMetadataRegistered → Outcome TransactionParsingError MessageMatchingKey
  key s = panic

  abbrev pub message_id :
      ParserItsTokenMetadataRegistered → Outcome TransactionParsingError (Option String)
  message_id s = ok none

  -- the hexadecimal address with `0x` in place of the workchain `0:`
  abbrev pub prefixed : Address → String
  prefixed address = elim (strip_prefix (to_hex address) "0:") [
    | some rest ↦ append "0x" rest
    | none ↦ to_hex address
  ]

  -- `now` is the clock as text; `id` is the message id that the caller gives.
  unfoldable pub event :
      String
      → Option String
      → ParserItsTokenMetadataRegistered
      → Outcome TransactionParsingError Event
  event now given s = do
    id ← given_id given
    log ← the_log s
    ok (
        its_token_metadata_registered
          (common "ITS/TOKEN_METADATA_REGISTERED" (append s.tx.hash "-its-metadata")
            (some (metadata s.tx.hash none now)))
          id (prefixed log.address) log.decimals)
