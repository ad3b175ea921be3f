-- ===== src/TransactionParser/AnyParser.antt =====
-- `Box<dyn Parser>` of src/transaction_parser/parser.rs: a parser of any of the types, and the
-- methods that are called through the trait.
use axelar_relayer_ton.Prelude.{String, Option, Outcome}
use axelar_relayer_ton.Externals.{Externals}
use axelar_relayer_ton.Types.{TransactionParsingError}
use axelar_relayer_ton.GmpTypes.{Event}
use axelar_relayer_ton.TransactionParser.Common.{MessageMatchingKey}
use axelar_relayer_ton.TransactionParser.ExecuteInsufficientGas
use axelar_relayer_ton.TransactionParser.CallContract
use axelar_relayer_ton.TransactionParser.MessageExecuted
use axelar_relayer_ton.TransactionParser.MessageApproved
use axelar_relayer_ton.TransactionParser.NativeGasPaid
use axelar_relayer_ton.TransactionParser.NativeGasAdded
use axelar_relayer_ton.TransactionParser.NativeGasRefunded
use axelar_relayer_ton.TransactionParser.JettonGasAdded
use axelar_relayer_ton.TransactionParser.JettonGasPaid
use axelar_relayer_ton.TransactionParser.ItsTokenMetadataRegistered
use axelar_relayer_ton.TransactionParser.ItsInterchainTokenDeploymentStarted
use axelar_relayer_ton.TransactionParser.ItsInterchainTransfer
use axelar_relayer_ton.TransactionParser.ItsLinkTokenStarted
use axelar_relayer_ton.TransactionParser.SignersRotated

module _ (lib : Externals) where
  pub data AnyParser : Type 0 where
    execute_insufficient_gas :
        ExecuteInsufficientGas.ParserExecuteInsufficientGas lib.Address → AnyParser
    call_contract : CallContract.ParserCallContract lib → AnyParser
    message_executed : MessageExecuted.ParserMessageExecuted lib → AnyParser
    message_approved : MessageApproved.ParserMessageApproved lib → AnyParser
    native_gas_paid : NativeGasPaid.ParserNativeGasPaid lib → AnyParser
    native_gas_added : NativeGasAdded.ParserNativeGasAdded lib → AnyParser
    native_gas_refunded : NativeGasRefunded.ParserNativeGasRefunded lib → AnyParser
    jetton_gas_added : JettonGasAdded.ParserJettonGasAdded lib → AnyParser
    jetton_gas_paid : JettonGasPaid.ParserJettonGasPaid lib → AnyParser
    its_token_metadata_registered :
        ItsTokenMetadataRegistered.ParserItsTokenMetadataRegistered lib → AnyParser
    its_interchain_token_deployment_started :
        ItsInterchainTokenDeploymentStarted.ParserItsInterchainTokenDeploymentStarted lib
        → AnyParser
    its_interchain_transfer : ItsInterchainTransfer.ParserItsInterchainTransfer lib → AnyParser
    its_link_token_started : ItsLinkTokenStarted.ParserItsLinkTokenStarted lib → AnyParser
    signers_rotated : SignersRotated.ParserSignersRotated lib → AnyParser

  unfoldable pub key : AnyParser → Outcome TransactionParsingError MessageMatchingKey
  key (execute_insufficient_gas s) = ExecuteInsufficientGas.key lib s
  key (call_contract s) = CallContract.key lib s
  key (message_executed s) = MessageExecuted.key lib s
  key (message_approved s) = MessageApproved.key lib s
  key (native_gas_paid s) = NativeGasPaid.key lib s
  key (native_gas_added s) = NativeGasAdded.key lib s
  key (native_gas_refunded s) = NativeGasRefunded.key lib s
  key (jetton_gas_added s) = JettonGasAdded.key lib s
  key (jetton_gas_paid s) = JettonGasPaid.key lib s
  key (its_token_metadata_registered s) = ItsTokenMetadataRegistered.key lib s
  key (its_interchain_token_deployment_started s) = ItsInterchainTokenDeploymentStarted.key lib s
  key (its_interchain_transfer s) = ItsInterchainTransfer.key lib s
  key (its_link_token_started s) = ItsLinkTokenStarted.key lib s
  key (signers_rotated s) = SignersRotated.key lib s

  unfoldable pub message_id : AnyParser → Outcome TransactionParsingError (Option String)
  message_id (execute_insufficient_gas s) = ExecuteInsufficientGas.message_id lib s
  message_id (call_contract s) = CallContract.message_id lib s
  message_id (message_executed s) = MessageExecuted.message_id lib s
  message_id (message_approved s) = MessageApproved.message_id lib s
  message_id (native_gas_paid s) = NativeGasPaid.message_id lib s
  message_id (native_gas_added s) = NativeGasAdded.message_id lib s
  message_id (native_gas_refunded s) = NativeGasRefunded.message_id lib s
  message_id (jetton_gas_added s) = JettonGasAdded.message_id lib s
  message_id (jetton_gas_paid s) = JettonGasPaid.message_id lib s
  message_id (its_token_metadata_registered s) = ItsTokenMetadataRegistered.message_id lib s
  message_id (its_interchain_token_deployment_started s) =
      ItsInterchainTokenDeploymentStarted.message_id lib s
  message_id (its_interchain_transfer s) = ItsInterchainTransfer.message_id lib s
  message_id (its_link_token_started s) = ItsLinkTokenStarted.message_id lib s
  message_id (signers_rotated s) = SignersRotated.message_id lib s

  -- `chain_name` is the field of `ParserCallContract`, and `now` the clock as text.
  unfoldable pub event :
      (chain_name now : String) → Option String → AnyParser → Outcome TransactionParsingError Event
  event chain_name now id (execute_insufficient_gas s) = ExecuteInsufficientGas.event lib s
  event chain_name now id (call_contract s) = CallContract.event lib chain_name now id s
  event chain_name now id (message_executed s) = MessageExecuted.event lib now id s
  event chain_name now id (message_approved s) = MessageApproved.event lib now id s
  event chain_name now id (native_gas_paid s) = NativeGasPaid.event lib now id s
  event chain_name now id (native_gas_added s) = NativeGasAdded.event lib now id s
  event chain_name now id (native_gas_refunded s) = NativeGasRefunded.event lib now id s
  event chain_name now id (jetton_gas_added s) = JettonGasAdded.event lib now id s
  event chain_name now id (jetton_gas_paid s) = JettonGasPaid.event lib now id s
  event chain_name now id (its_token_metadata_registered s) =
      ItsTokenMetadataRegistered.event lib now id s
  event chain_name now id (its_interchain_token_deployment_started s) =
      ItsInterchainTokenDeploymentStarted.event lib now id s
  event chain_name now id (its_interchain_transfer s) = ItsInterchainTransfer.event lib now id s
  event chain_name now id (its_link_token_started s) = ItsLinkTokenStarted.event lib now id s
  event chain_name now id (signers_rotated s) = SignersRotated.event lib now id s
