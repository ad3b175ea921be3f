-- ===== src/TransactionParser/Kinds.antt =====
-- src/transaction_parser/: each parser's `check_match` accepts only what its `parse` can read.
use axelar_relayer_ton.Prelude.{
  Option, true, ◌&&◌, none, some, Bool-cases, &&-true, ||-true, ◌⊎◌, if-true, inl, inr, returns,
  fails, Ensures->>=, ◌≡◌,
}
use axelar_relayer_ton.Externals.{Externals}
use axelar_relayer_ton.Types.{
  TransactionMessage, op_pay_native_gas_for_contract_call, op_pay_gas, op_transfer_notification,
}
use axelar_relayer_ton.Boc.NoPanic.{
  Returns, call_contract-Returns, native_gas_paid-Returns, native_gas_added-Returns,
  native_gas_refunded-Returns, jetton_gas_paid-Returns, jetton_gas_added-Returns,
  cc_message-Returns, nullified_message-Returns, signers_rotated-Returns,
  its_interchain_transfer-Returns, its_link_token_started-Returns,
  its_interchain_token_deployment_started-Returns, its_token_metadata_registered-Returns,
}
use axelar_relayer_ton.TransactionParser.Common.{from_allowed, is_log_emmitted_in_opcode, out_body}
use axelar_relayer_ton.TransactionParser.Acceptance.{
  Accepts, Readable, unmatched, from_allowed-own, emitted-Readable, parse_body-Keeps,
  out_body-Returns, match_opcode-Accepts, match_log-Accepts,
}
use axelar_relayer_ton.TransactionParser.CallContract
use axelar_relayer_ton.TransactionParser.MessageApproved
use axelar_relayer_ton.TransactionParser.NativeGasAdded
use axelar_relayer_ton.TransactionParser.NativeGasRefunded
use axelar_relayer_ton.TransactionParser.ItsTokenMetadataRegistered
use axelar_relayer_ton.TransactionParser.SignersRotated
use axelar_relayer_ton.TransactionParser.ItsInterchainTransfer
use axelar_relayer_ton.TransactionParser.ItsLinkTokenStarted
use axelar_relayer_ton.TransactionParser.ItsInterchainTokenDeploymentStarted
use axelar_relayer_ton.TransactionParser.MessageExecuted
use axelar_relayer_ton.TransactionParser.NativeGasPaid
use axelar_relayer_ton.TransactionParser.JettonGasPaid
use axelar_relayer_ton.TransactionParser.JettonGasAdded

module _ (lib : Externals) where
  pub call_contract-Accepts :
      (s : CallContract.ParserCallContract lib)
      → Accepts lib (CallContract.check_match lib) (CallContract.parse lib) s
  unfolding CallContract.check_match CallContract.parse
  call_contract-Accepts s = match_opcode-Accepts lib _ (call_contract-Returns lib) _ _ s

  pub message_approved-Accepts :
      (s : MessageApproved.ParserMessageApproved lib)
      → Accepts lib (MessageApproved.check_match lib) (MessageApproved.parse lib) s
  unfolding MessageApproved.check_match MessageApproved.parse
  message_approved-Accepts s = match_opcode-Accepts lib _ (cc_message-Returns lib) _ _ s

  pub native_gas_added-Accepts :
      (s : NativeGasAdded.ParserNativeGasAdded lib)
      → Accepts lib (NativeGasAdded.check_match lib) (NativeGasAdded.parse lib) s
  unfolding NativeGasAdded.check_match NativeGasAdded.parse
  native_gas_added-Accepts s = match_opcode-Accepts lib _ (native_gas_added-Returns lib) _ _ s

  pub native_gas_refunded-Accepts :
      (s : NativeGasRefunded.ParserNativeGasRefunded lib)
      → Accepts lib (NativeGasRefunded.check_match lib) (NativeGasRefunded.parse lib) s
  unfolding NativeGasRefunded.check_match NativeGasRefunded.parse
  native_gas_refunded-Accepts s = match_opcode-Accepts lib _ (native_gas_refunded-Returns lib) _ _ s

  pub its_token_metadata_registered-Accepts :
      (s : ItsTokenMetadataRegistered.ParserItsTokenMetadataRegistered lib)
      → Accepts lib
          (ItsTokenMetadataRegistered.check_match lib)
          (ItsTokenMetadataRegistered.parse lib)
          s
  unfolding ItsTokenMetadataRegistered.check_match ItsTokenMetadataRegistered.parse
  its_token_metadata_registered-Accepts s =
      match_opcode-Accepts lib _ (its_token_metadata_registered-Returns lib) _ _ s

  pub signers_rotated-Accepts :
      (s : SignersRotated.ParserSignersRotated lib)
      → Accepts lib (SignersRotated.check_match lib) (SignersRotated.parse lib) s
  unfolding SignersRotated.check_match SignersRotated.parse
  signers_rotated-Accepts s = match_log-Accepts lib _ (signers_rotated-Returns lib) _ s

  pub its_interchain_transfer-Accepts :
      (s : ItsInterchainTransfer.ParserItsInterchainTransfer lib)
      → Accepts lib (ItsInterchainTransfer.check_match lib) (ItsInterchainTransfer.parse lib) s
  unfolding ItsInterchainTransfer.check_match ItsInterchainTransfer.parse
  its_interchain_transfer-Accepts s =
      match_log-Accepts lib _ (its_interchain_transfer-Returns lib) _ s

  pub its_link_token_started-Accepts :
      (s : ItsLinkTokenStarted.ParserItsLinkTokenStarted lib)
      → Accepts lib (ItsLinkTokenStarted.check_match lib) (ItsLinkTokenStarted.parse lib) s
  unfolding ItsLinkTokenStarted.check_match ItsLinkTokenStarted.parse
  its_link_token_started-Accepts s =
      match_log-Accepts lib _ (its_link_token_started-Returns lib) _ s

  pub its_interchain_token_deployment_started-Accepts :
      (s : ItsInterchainTokenDeploymentStarted.ParserItsInterchainTokenDeploymentStarted lib)
      → Accepts lib
          (ItsInterchainTokenDeploymentStarted.check_match lib)
          (ItsInterchainTokenDeploymentStarted.parse lib)
          s
  unfolding ItsInterchainTokenDeploymentStarted.check_match
      ItsInterchainTokenDeploymentStarted.parse
  its_interchain_token_deployment_started-Accepts s =
      match_log-Accepts lib _ (its_interchain_token_deployment_started-Returns lib) _ s

  pub native_gas_paid-Accepts :
      (s : NativeGasPaid.ParserNativeGasPaid lib)
      → Accepts lib (NativeGasPaid.check_match lib) (NativeGasPaid.parse lib) s
  unfolding NativeGasPaid.check_match NativeGasPaid.parse
  native_gas_paid-Accepts s = returns (record {
    own = λ e. from_allowed-own lib s (if-true _ _ e).0;
    parses = λ e.
        parse_body-Keeps _ _ s (native_gas_paid-Returns lib)
          (out_body-Returns s.tx 0 (either (||-true _ _ (if-true _ _ e).1)));
  })
    where
      either :
          (is_log_emmitted_in_opcode s.tx op_pay_native_gas_for_contract_call 0 ≡ true)
            ⊎ (is_log_emmitted_in_opcode s.tx op_pay_gas 0 ≡ true)
          → Readable s.tx 0
      either (inl h) = emitted-Readable s.tx _ 0 h
      either (inr h) = emitted-Readable s.tx _ 0 h

  pub jetton_gas_paid-Accepts :
      (s : JettonGasPaid.ParserJettonGasPaid lib)
      → Accepts lib (JettonGasPaid.check_match lib) (JettonGasPaid.parse lib) s
  unfolding JettonGasPaid.check_match JettonGasPaid.parse
  jetton_gas_paid-Accepts s =
      elim (Bool-cases
        (from_allowed lib s && is_log_emmitted_in_opcode s.tx op_transfer_notification 0)) [
          | inl e ↦ rw e (
              let readable =
                out_body-Returns s.tx 0 (emitted-Readable s.tx _ 0 (&&-true _ _ e).1) in
              Ensures->>= (out_body s.tx 0) _ readable (λ body _. returns (record {
                own = λ _. from_allowed-own lib s (&&-true _ _ e).0;
                parses = λ _. parse_body-Keeps _ _ s (jetton_gas_paid-Returns lib) readable;
              })))
          | inr e ↦ rw e (returns (unmatched lib _ s s))
        ]

  pub jetton_gas_added-Accepts :
      (s : JettonGasAdded.ParserJettonGasAdded lib)
      → Accepts lib (JettonGasAdded.check_match lib) (JettonGasAdded.parse lib) s
  unfolding JettonGasAdded.check_match JettonGasAdded.parse
  jetton_gas_added-Accepts s =
      elim (Bool-cases
        (from_allowed lib s && is_log_emmitted_in_opcode s.tx op_transfer_notification 0)) [
          | inl e ↦ rw e (
              let readable =
                out_body-Returns s.tx 0 (emitted-Readable s.tx _ 0 (&&-true _ _ e).1) in
              Ensures->>= (out_body s.tx 0) _ readable (λ body _. returns (record {
                own = λ _. from_allowed-own lib s (&&-true _ _ e).0;
                parses = λ _. parse_body-Keeps _ _ s (jetton_gas_added-Returns lib) readable;
              })))
          | inr e ↦ rw e (returns (unmatched lib _ s s))
        ]

  pub message_executed-Accepts :
      (s : MessageExecuted.ParserMessageExecuted lib)
      → Accepts lib (MessageExecuted.check_match lib) (MessageExecuted.parse lib) s
  unfolding MessageExecuted.check_match MessageExecuted.parse
  message_executed-Accepts s = elim (Bool-cases (from_allowed lib s)) [
    | inl e ↦ rw e (
        returns (record {
          own = λ _. from_allowed-own lib s e;
          parses = λ _.
              parse_body-Keeps _ _ s (nullified_message-Returns lib) (in_body-Returns s.tx.in_msg);
        }))
    | inr e ↦ rw e (returns (unmatched lib _ s s))
  ]
    where
      in_body-Returns :
          (in_msg : Option (TransactionMessage lib.Address))
          → Returns (MessageExecuted.in_body lib in_msg)
      in_body-Returns none = fails
      in_body-Returns (some in_msg) = returns tt
