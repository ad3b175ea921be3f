-- ===== src/TransactionParser/SignersRotated.antt =====
-- src/transaction_parser/parser_signers_rotated.rs
use axelar_relayer_ton.Prelude.{String, Bool, Option, none, some, Outcome, ok, panic, ◌>>=◌}
use axelar_relayer_ton.Externals.{Externals}
use axelar_relayer_ton.Types.{TransactionParsingError, append, op_signers_rotated_log}
use axelar_relayer_ton.GmpTypes.{Event, signers_rotated}
use axelar_relayer_ton.Boc.SignersRotated.{LogSignersRotatedMessage, from_boc_b64}
use axelar_relayer_ton.TransactionParser.Common.{
  ParserState, MessageMatchingKey, parse_at, the_log, own_id, metadata, common, hash_to_message_id,
  match_log,
}

module _ (lib : Externals) where
  open lib use {Address}

  abbrev pub ParserSignersRotated : Type 0
  ParserSignersRotated = ParserState Address LogSignersRotatedMessage

  unfoldable pub check_match :
      ParserSignersRotated → Outcome TransactionParsingError (Bool × ParserSignersRotated)
  check_match = match_log lib op_signers_rotated_log

  unfoldable pub parse :
      ParserSignersRotated → Outcome TransactionParsingError (Bool × ParserSignersRotated)
  parse s = parse_at s.log_position (from_boc_b64 lib) s

  -- `unimplemented!()`
  abbrev pub key : ParserSignersRotated → Outcome TransactionParsingError MessageMatchingKey
  key s = panic

  unfoldable pub message_id : ParserSignersRotated → Outcome TransactionParsingError (Option String)
  message_id s = do id ← hash_to_message_id lib s.tx.hash; ok (some id)

  -- `now` is the clock as text; `id` is the message id that the caller gives.
  unfoldable pub event :
      String → Option String → ParserSignersRotated → Outcome TransactionParsingError Event
  unfolding message_id
  event now _ s = do
    found ← message_id s
    id ← own_id found
    log ← the_log s
    ok (
        signers_rotated
          (common "SIGNERS_ROTATED" (append s.tx.hash "-signers-rotated") (
            some (record {
              common_meta = metadata s.tx.hash none now;
              signers_hash = some log.signers_hash;
              epoch = some log.epoch;
            })))
          id)
