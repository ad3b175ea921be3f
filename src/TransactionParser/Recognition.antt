-- ===== src/TransactionParser/Recognition.antt =====
-- `create_parsers` of src/transaction_parser/parser.rs: all that it collects is about transactions of
-- the trace that the watched contracts made.
use axelar_relayer_ton.Prelude.{some, List, ◌≡◌, sym, ◌∙◌, ap, ok, ◌>>=◌, Ensures, returns}
use axelar_relayer_ton.Externals.{Externals}
use axelar_relayer_ton.Types.{Transaction}
use axelar_relayer_ton.Boc.NoPanic.{Returns}
use axelar_relayer_ton.TransactionParser.Common.{ParserState, new}
use axelar_relayer_ton.TransactionParser.Kinds.{
  call_contract-Accepts, message_executed-Accepts, message_approved-Accepts,
  native_gas_paid-Accepts, native_gas_added-Accepts, jetton_gas_added-Accepts,
  jetton_gas_paid-Accepts, native_gas_refunded-Accepts, its_token_metadata_registered-Accepts,
  its_interchain_token_deployment_started-Accepts, its_interchain_transfer-Accepts,
  its_link_token_started-Accepts, signers_rotated-Accepts,
}
use axelar_relayer_ton.TransactionParser.AnyParser.{
  call_contract, message_executed, message_approved, native_gas_paid, native_gas_added,
  native_gas_refunded, jetton_gas_added, jetton_gas_paid, its_token_metadata_registered,
  its_interchain_token_deployment_started, its_interchain_transfer, its_link_token_started,
  signers_rotated,
}
use axelar_relayer_ton.TransactionParser.Creation.{
  TraceParser, Collected, Recogniser, push, push_approved, push_call, push_its, insert_credit,
  try_call_contract, try_message_executed, try_message_approved, try_native_gas_paid,
  try_native_gas_added, try_jetton_gas_added, try_jetton_gas_paid, try_native_gas_refunded,
  try_its_token_metadata_registered, try_its_interchain_token_deployment_started,
  try_its_interchain_transfer, try_its_link_token_started, try_signers_rotated,
}
use axelar_relayer_ton.TransactionParser.Genuine.{
  Contract, gateway, gas_service, its, address_of, Own, Ensures-then, Returns-ok_or,
}
use axelar_relayer_ton.TransactionParser.Authenticity.{
  is_call, AllOwn, Kept, Within, push-AllOwn, push_approved-AllOwn, push_call-AllOwn,
  push_its-AllOwn, insert_credit-AllOwn, recognise-Kept,
}
use axelar_relayer_ton.TransactionParser.CallContract
use axelar_relayer_ton.TransactionParser.MessageExecuted
use axelar_relayer_ton.TransactionParser.MessageApproved
use axelar_relayer_ton.TransactionParser.NativeGasPaid
use axelar_relayer_ton.TransactionParser.NativeGasAdded
use axelar_relayer_ton.TransactionParser.JettonGasAdded
use axelar_relayer_ton.TransactionParser.JettonGasPaid
use axelar_relayer_ton.TransactionParser.NativeGasRefunded
use axelar_relayer_ton.TransactionParser.ItsTokenMetadataRegistered
use axelar_relayer_ton.TransactionParser.ItsInterchainTokenDeploymentStarted
use axelar_relayer_ton.TransactionParser.ItsInterchainTransfer
use axelar_relayer_ton.TransactionParser.ItsLinkTokenStarted
use axelar_relayer_ton.TransactionParser.SignersRotated

module _ (lib : Externals) (tp : TraceParser lib.Address)
    (txs : List (Transaction lib.Address)) where
  open lib use {Address}

  -- A parser of the transaction is about a transaction of the trace.
  made_by_contract :
      {L : Type 0} (contract : Contract) (tx : Transaction Address) (s : ParserState Address L)
      → Within lib tp txs tx
      → s.tx ≡ tx
      → tx.account ≡ address_of tp contract
      → Own tp txs contract s.tx
  made_by_contract contract tx s (i, within) same made_by = record {
    index = i;
    within = within ∙ ap some (sym same);
    made_by = ap (λ t. t.account) same ∙ made_by;
  }

  -- What a recogniser keeps, on a transaction of the trace.
  abbrev pub Keeper : Recogniser lib → Type 0
  Keeper r =
      (tx : Transaction Address) (c : Collected lib)
      → Within lib tp txs tx
      → AllOwn lib tp txs c
      → Ensures (Kept lib tp txs) (r tp tx c)

  pub call_contract-Keeper : Keeper (try_call_contract lib)
  unfolding try_call_contract
  call_contract-Keeper tx c within h =
      recognise-Kept lib tp txs (CallContract.check_match lib) (CallContract.parse lib)
        (λ s. ok (push_call lib (call_contract s) c)) (new tx tp.gateway_address)
        (call_contract-Accepts lib _)
        (λ s same made_by. returns (
          push_call-AllOwn lib tp txs (call_contract s) c
            (is_call (made_by_contract gateway tx s within same made_by)) h))

  pub message_executed-Keeper : Keeper (try_message_executed lib)
  unfolding try_message_executed
  message_executed-Keeper tx c within h =
      recognise-Kept lib tp txs (MessageExecuted.check_match lib) (MessageExecuted.parse lib)
        (λ s. ok (push lib (message_executed s) c)) (new tx tp.gateway_address)
        (message_executed-Accepts lib _)
        (λ s same made_by. returns (
          push-AllOwn lib tp txs (message_executed s) c
            (made_by_contract gateway tx s within same made_by) h))

  pub message_approved-Keeper : Keeper (try_message_approved lib)
  unfolding try_message_approved
  message_approved-Keeper tx c within h =
      recognise-Kept lib tp txs (MessageApproved.check_match lib) (MessageApproved.parse lib)
        (λ s. ok (push_approved lib (message_approved s) c)) (new tx tp.gateway_address)
        (message_approved-Accepts lib _)
        (λ s same made_by. returns (
          push_approved-AllOwn lib tp txs (message_approved s) c
            (made_by_contract gateway tx s within same made_by) h))

  pub native_gas_paid-Keeper : Keeper (try_native_gas_paid lib)
  unfolding try_native_gas_paid NativeGasPaid.key
  native_gas_paid-Keeper tx c within h =
      recognise-Kept lib tp txs (NativeGasPaid.check_match lib) (NativeGasPaid.parse lib)
        (λ s. NativeGasPaid.key lib s >>= λ k. ok (insert_credit lib k (native_gas_paid s) c))
        (new tx tp.gas_service_address) (native_gas_paid-Accepts lib _)
        (λ s same made_by.
          Ensures-then (NativeGasPaid.key lib s)
            (λ k. ok (insert_credit lib k (native_gas_paid s) c)) (key-Returns s)
            (λ k. returns (
              insert_credit-AllOwn lib tp txs k (native_gas_paid s) c
                (made_by_contract gas_service tx s within same made_by) h)))
    where
      key-Returns : (s : NativeGasPaid.ParserNativeGasPaid lib) → Returns (NativeGasPaid.key lib s)
      key-Returns s = Ensures-then _ _ (Returns-ok_or s.log _) (λ log. returns tt)

  pub native_gas_added-Keeper : Keeper (try_native_gas_added lib)
  unfolding try_native_gas_added
  native_gas_added-Keeper tx c within h =
      recognise-Kept lib tp txs (NativeGasAdded.check_match lib) (NativeGasAdded.parse lib)
        (λ s. ok (push lib (native_gas_added s) c)) (new tx tp.gas_service_address)
        (native_gas_added-Accepts lib _)
        (λ s same made_by. returns (
          push-AllOwn lib tp txs (native_gas_added s) c
            (made_by_contract gas_service tx s within same made_by) h))

  pub jetton_gas_added-Keeper : Keeper (try_jetton_gas_added lib)
  unfolding try_jetton_gas_added
  jetton_gas_added-Keeper tx c within h =
      recognise-Kept lib tp txs (JettonGasAdded.check_match lib) (JettonGasAdded.parse lib)
        (λ s. ok (push lib (jetton_gas_added s) c)) (new tx tp.gas_service_address)
        (jetton_gas_added-Accepts lib _)
        (λ s same made_by. returns (
          push-AllOwn lib tp txs (jetton_gas_added s) c
            (made_by_contract gas_service tx s within same made_by) h))

  pub jetton_gas_paid-Keeper : Keeper (try_jetton_gas_paid lib)
  unfolding try_jetton_gas_paid JettonGasPaid.key
  jetton_gas_paid-Keeper tx c within h =
      recognise-Kept lib tp txs (JettonGasPaid.check_match lib) (JettonGasPaid.parse lib)
        (λ s. JettonGasPaid.key lib s >>= λ k. ok (insert_credit lib k (jetton_gas_paid s) c))
        (new tx tp.gas_service_address) (jetton_gas_paid-Accepts lib _)
        (λ s same made_by.
          Ensures-then (JettonGasPaid.key lib s)
            (λ k. ok (insert_credit lib k (jetton_gas_paid s) c)) (key-Returns s)
            (λ k. returns (
              insert_credit-AllOwn lib tp txs k (jetton_gas_paid s) c
                (made_by_contract gas_service tx s within same made_by) h)))
    where
      key-Returns : (s : JettonGasPaid.ParserJettonGasPaid lib) → Returns (JettonGasPaid.key lib s)
      key-Returns s = Ensures-then _ _ (Returns-ok_or s.log _) (λ log. returns tt)

  pub native_gas_refunded-Keeper : Keeper (try_native_gas_refunded lib)
  unfolding try_native_gas_refunded
  native_gas_refunded-Keeper tx c within h =
      recognise-Kept lib tp txs (NativeGasRefunded.check_match lib) (NativeGasRefunded.parse lib)
        (λ s. ok (push lib (native_gas_refunded s) c)) (new tx tp.gas_service_address)
        (native_gas_refunded-Accepts lib _)
        (λ s same made_by. returns (
          push-AllOwn lib tp txs (native_gas_refunded s) c
            (made_by_contract gas_service tx s within same made_by) h))

  pub its_token_metadata_registered-Keeper : Keeper (try_its_token_metadata_registered lib)
  unfolding try_its_token_metadata_registered
  its_token_metadata_registered-Keeper tx c within h =
      recognise-Kept lib tp txs (ItsTokenMetadataRegistered.check_match lib)
        (ItsTokenMetadataRegistered.parse lib)
        (λ s. ok (push_its lib (its_token_metadata_registered s) c)) (new tx tp.its_address)
        (its_token_metadata_registered-Accepts lib _)
        (λ s same made_by. returns (
          push_its-AllOwn lib tp txs (its_token_metadata_registered s) c
            (made_by_contract its tx s within same made_by) h))

  pub its_interchain_token_deployment_started-Keeper :
      Keeper (try_its_interchain_token_deployment_started lib)
  unfolding try_its_interchain_token_deployment_started
  its_interchain_token_deployment_started-Keeper tx c within h =
      recognise-Kept lib tp txs (ItsInterchainTokenDeploymentStarted.check_match lib)
        (ItsInterchainTokenDeploymentStarted.parse lib)
        (λ s. ok (push_its lib (its_interchain_token_deployment_started s) c))
        (new tx tp.its_address) (its_interchain_token_deployment_started-Accepts lib _)
        (λ s same made_by. returns (
          push_its-AllOwn lib tp txs (its_interchain_token_deployment_started s) c
            (made_by_contract its tx s within same made_by) h))

  pub its_interchain_transfer-Keeper : Keeper (try_its_interchain_transfer lib)
  unfolding try_its_interchain_transfer
  its_interchain_transfer-Keeper tx c within h =
      recognise-Kept lib tp txs (ItsInterchainTransfer.check_match lib)
        (ItsInterchainTransfer.parse lib) (λ s. ok (push_its lib (its_interchain_transfer s) c))
        (new tx tp.its_address) (its_interchain_transfer-Accepts lib _)
        (λ s same made_by. returns (
          push_its-AllOwn lib tp txs (its_interchain_transfer s) c
            (made_by_contract its tx s within same made_by) h))

  pub its_link_token_started-Keeper : Keeper (try_its_link_token_started lib)
  unfolding try_its_link_token_started
  its_link_token_started-Keeper tx c within h =
      recognise-Kept lib tp txs (ItsLinkTokenStarted.check_match lib)
        (ItsLinkTokenStarted.parse lib) (λ s. ok (push_its lib (its_link_token_started s) c))
        (new tx tp.its_address) (its_link_token_started-Accepts lib _)
        (λ s same made_by. returns (
          push_its-AllOwn lib tp txs (its_link_token_started s) c
            (made_by_contract its tx s within same made_by) h))

  pub signers_rotated-Keeper : Keeper (try_signers_rotated lib)
  unfolding try_signers_rotated
  signers_rotated-Keeper tx c within h =
      recognise-Kept lib tp txs (SignersRotated.check_match lib) (SignersRotated.parse lib)
        (λ s. ok (push lib (signers_rotated s) c)) (new tx tp.gateway_address)
        (signers_rotated-Accepts lib _)
        (λ s same made_by. returns (
          push-AllOwn lib tp txs (signers_rotated s) c
            (made_by_contract gateway tx s within same made_by) h))
