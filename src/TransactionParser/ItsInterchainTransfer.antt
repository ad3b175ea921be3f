-- ===== src/TransactionParser/ItsInterchainTransfer.antt =====
-- src/transaction_parser/parser_its_interchain_transfer.rs
use axelar_relayer_ton.Prelude.{
  ℕ, String, Bool, Option, none, some, List, [], ◌∷◌, Outcome, ok, panic, ◌>>=◌,
}
use axelar_relayer_ton.Externals.{Externals}
use axelar_relayer_ton.Types.{TransactionParsingError, append, op_interchain_transfer_log}
use axelar_relayer_ton.GmpTypes.{Event, its_interchain_transfer}
use axelar_relayer_ton.Boc.ItsInterchainTransfer.{LogItsInterchainTransferMessage, from_boc_b64}
use axelar_relayer_ton.TransactionParser.Common.{
  ParserState, MessageMatchingKey, parse_at, the_log, given_id, metadata, common, match_log,
}

module _ (lib : Externals) where
  open lib use {Address, to_hex, show_number, show_number_hex, keccak256}

  abbrev pub ParserItsInterchainTransfer : Type 0
  ParserItsInterchainTransfer = ParserState Address (LogItsInterchainTransferMessage Address)

  unfoldable pub check_match :
      ParserItsInterchainTransfer
      → Outcome TransactionParsingError (Bool × ParserItsInterchainTransfer)
  check_match = match_log lib op_interchain_transfer_log

  unfoldable pub parse :
      ParserItsInterchainTransfer
      → Outcome TransactionParsingError (Bool × ParserItsInterchainTransfer)
  parse s = parse_at s.log_position (from_boc_b64 lib) s

  -- `unimplemented!()`
  abbrev pub key : ParserItsInterchainTransfer → Outcome TransactionParsingError MessageMatchingKey
  key s = panic

  abbrev pub message_id :
      ParserItsInterchainTransfer → Outcome TransactionParsingError (Option String)
  message_id s = ok none

  abbrev pub data_hash : List ℕ → String
  data_hash [] = "00000000000000000000000000000000"
  data_hash (b ∷ bytes) = show_number (keccak256 (b ∷ bytes))

  -- `now` is the clock as text; `id` is the message id that the caller gives.
  unfoldable pub event :
      String → Option String → ParserItsInterchainTransfer → Outcome TransactionParsingError Event
  event now given s = do
    id ← given_id given
    log ← the_log s
    ok (
        its_interchain_transfer
          (common "ITS/INTERCHAIN_TRANSFER" (append s.tx.hash "-its-interchain-transfer")
            (some (metadata s.tx.hash none now)))
          id log.destination_chain
          (record {
            token_id = some (append "0x" (show_number_hex log.token_id));
            amount = show_number log.jetton_amount;
          })
          (to_hex log.sender_address) log.destination_address (data_hash log.message_data))
