-- ===== src/TransactionParser/ItsLinkTokenStarted.antt =====
-- src/transaction_parser/parser_its_link_token_started.rs
use axelar_relayer_ton.Prelude.{String, Bool, Option, none, some, Outcome, ok, panic, ◌>>=◌}
use axelar_relayer_ton.Externals.{Externals}
use axelar_relayer_ton.Types.{TransactionParsingError, append, op_link_token_started_log}
use axelar_relayer_ton.GmpTypes.{Event, its_link_token_started}
use axelar_relayer_ton.Boc.ItsLinkTokenStarted.{LogItsLinkTokenStartedMessage, from_boc_b64}
use axelar_relayer_ton.TransactionParser.Common.{
  ParserState, MessageMatchingKey, parse_at, the_log, given_id, metadata, common, match_log,
}

module _ (lib : Externals) where
  open lib use {Address, to_hex, show_number_hex, strip_prefix}

  abbrev pub ParserItsLinkTokenStarted : Type 0
  ParserItsLinkTokenStarted = ParserState Address (LogItsLinkTokenStartedMessage Address)

  unfoldable pub check_match :
      ParserItsLinkTokenStarted → Outcome TransactionParsingError (Bool × ParserItsLinkTokenStarted)
  check_match = match_log lib op_link_token_started_log

  unfoldable pub parse :
      ParserItsLinkTokenStarted → Outcome TransactionParsingError (Bool × ParserItsLinkTokenStarted)
  parse s = parse_at s.log_position (from_boc_b64 lib) s

  -- `unimplemented!()`
  abbrev pub key : ParserItsLinkTokenStarted → Outcome TransactionParsingError MessageMatchingKey
  key s = panic

  abbrev pub message_id :
      ParserItsLinkTokenStarted → Outcome TransactionParsingError (Option String)
  message_id s = ok none

  -- the hexadecimal address with `0x` in place of the workchain `0:`
  abbrev pub prefixed : Address → String
  prefixed address = elim (strip_prefix (to_hex address) "0:") [
    | some rest ↦ append "0x" rest
    | none ↦ to_hex address
  ]

  -- `now` is the clock as text; `id` is the message id that the caller gives.
  unfoldable pub event :
      String → Option String → ParserItsLinkTokenStarted → Outcome TransactionParsingError Event
  event now given s = do
    id ← given_id given
    log ← the_log s
    ok (
        its_link_token_started
          (common "ITS/LINK_TOKEN_STARTED" (append s.tx.hash "-its-link-token-started")
            (some (metadata s.tx.hash none now)))
          id (append "0x" (show_number_hex log.token_id)) log.destination_chain
          (prefixed log.source_token_address) log.destination_token_address log.token_manager_type)
