-- ===== src/TransactionParser/ItsInterchainTokenDeploymentStarted.antt =====
-- src/transaction_parser/parser_its_interchain_token_deployment_started.rs
use axelar_relayer_ton.Prelude.{String, Bool, Option, none, some, Outcome, ok, panic, ◌>>=◌}
use axelar_relayer_ton.Externals.{Externals}
use axelar_relayer_ton.Types.{
  TransactionParsingError, append, op_interchain_token_deployment_started_log,
}
use axelar_relayer_ton.GmpTypes.{Event, its_interchain_token_deployment_started}
use axelar_relayer_ton.Boc.ItsInterchainTokenDeploymentStarted.{
  LogItsInterchainTokenDeploymentStartedMessage, from_boc_b64,
}
use axelar_relayer_ton.TransactionParser.Common.{
  ParserState, MessageMatchingKey, parse_at, the_log, given_id, metadata, common, match_log,
}

module _ (lib : Externals) where
  open lib use {Address, show_number_hex}

  abbrev pub ParserItsInterchainTokenDeploymentStarted : Type 0
  ParserItsInterchainTokenDeploymentStarted =
      ParserState Address LogItsInterchainTokenDeploymentStartedMessage

  unfoldable pub check_match :
      ParserItsInterchainTokenDeploymentStarted
      → Outcome TransactionParsingError (Bool × ParserItsInterchainTokenDeploymentStarted)
  check_match = match_log lib op_interchain_token_deployment_started_log

  unfoldable pub parse :
      ParserItsInterchainTokenDeploymentStarted
      → Outcome TransactionParsingError (Bool × ParserItsInterchainTokenDeploymentStarted)
  parse s = parse_at s.log_position (from_boc_b64 lib) s

  -- `unimplemented!()`
  abbrev pub key :
      ParserItsInterchainTokenDeploymentStarted → Outcome TransactionParsingError MessageMatchingKey
  key s = panic

  abbrev pub message_id :
      ParserItsInterchainTokenDeploymentStarted → Outcome TransactionParsingError (Option String)
  message_id s = ok none

  -- `now` is the clock as text; `id` is the message id that the caller gives.
  unfoldable pub event :
      String
      → Option String
      → ParserItsInterchainTokenDeploymentStarted
      → Outcome TransactionParsingError Event
  event now given s = do
    id ← given_id given
    log ← the_log s
    ok (
        its_interchain_token_deployment_started
          (common "ITS/INTERCHAIN_TOKEN_DEPLOYMENT_STARTED"
            (append s.tx.hash "-its-interchain-token-deployment-started")
            (some (metadata s.tx.hash none now)))
          id log.destination_chain
          (record {
            id = append "0x" (show_number_hex log.token_id);
            name = log.token_name;
            symbol = log.token_symbol;
            decimals = log.decimals;
          }))
