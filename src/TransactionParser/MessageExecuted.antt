-- ===== src/TransactionParser/MessageExecuted.antt =====
-- src/transaction_parser/parser_message_executed.rs
use axelar_relayer_ton.Prelude.{
  ℕ, String, Bool, false, Option, none, some, Outcome, ok, err, panic, ◌>>=◌, get_elem?,
  if◌then◌else◌,
}
use axelar_relayer_ton.Externals.{Externals}
use axelar_relayer_ton.Types.{
  Transaction, TransactionMessage, TransactionParsingError, message, op_nullified_successfully,
  op_gateway_execute,
}
use axelar_relayer_ton.GmpTypes.{Event, message_executed, successful}
use axelar_relayer_ton.Boc.NullifiedMessage.{NullifiedSuccessfullyMessage, from_boc_b64}
use axelar_relayer_ton.TransactionParser.Common.{
  ParserState, MessageMatchingKey, parse_body, the_log, metadata, common, from_allowed,
  is_log_emmitted_in_opcode, opcode_is,
}

module _ (lib : Externals) where
  open lib use {Address}

  abbrev pub ParserMessageExecuted : Type 0
  ParserMessageExecuted = ParserState Address NullifiedSuccessfullyMessage

  -- The op code of the outgoing message at an index, if there is one.
  abbrev pub opcode_at : Transaction Address → ℕ → Option ℕ
  opcode_at tx i = elim (get_elem? tx.out_msgs i) [ none ↦ none | some msg ↦ msg.opcode ]

  abbrev pub in_body : Option (TransactionMessage Address) → Outcome TransactionParsingError String
  in_body none = err (message "Transaction has no in_msg")
  in_body (some in_msg) = ok in_msg.message_content.body

  unfoldable pub check_match :
      ParserMessageExecuted → Outcome TransactionParsingError (Bool × ParserMessageExecuted)
  check_match s =
      let first_log = is_log_emmitted_in_opcode s.tx op_nullified_successfully 0 in
      let second_log = is_log_emmitted_in_opcode s.tx op_nullified_successfully 1 in
      if from_allowed lib s
      then ok (
        if first_log
            then opcode_is (opcode_at s.tx 1) op_gateway_execute
            else if second_log
            then opcode_is (opcode_at s.tx 0) op_gateway_execute
            else false,
        s,
      )
      else ok (false, s)

  unfoldable pub parse :
      ParserMessageExecuted → Outcome TransactionParsingError (Bool × ParserMessageExecuted)
  parse s = parse_body (from_boc_b64 lib) (in_body s.tx.in_msg) s

  -- `unimplemented!()`
  abbrev pub key : ParserMessageExecuted → Outcome TransactionParsingError MessageMatchingKey
  key s = panic

  abbrev pub message_id : ParserMessageExecuted → Outcome TransactionParsingError (Option String)
  message_id s = ok none

  -- `now` is the clock as text; `id` is the message id that the caller gives.
  unfoldable pub event :
      String → Option String → ParserMessageExecuted → Outcome TransactionParsingError Event
  event now _ s = do
    log ← the_log s
    ok (
        message_executed
          (common "MESSAGE_EXECUTED" s.tx.hash (
            some (record {
              common_meta = metadata s.tx.hash none now;
              command_id = none;
              revert_reason = none;
            })))
          log.message_id log.source_chain successful (record { token_id = none; amount = "0" }))
