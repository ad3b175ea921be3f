-- ===== src/TransactionParser/Genuine.antt =====
-- src/transaction_parser/: the events and what they claim. An event names a transaction, and its type
-- tells which contract must have made it.
use axelar_relayer_ton.Prelude.{
  ℕ, String, Option, none, some, List, ◌≡◌, refl, ◌⊎◌, inl, inr, Outcome, ok, err, ◌>>=◌, get_elem?,
  Ensures, returns, fails, Ensures->>=, ok_or, Option-cases,
}
use axelar_relayer_ton.Externals.{Externals}
use axelar_relayer_ton.Types.{Transaction, message, append}
use axelar_relayer_ton.GmpTypes.{
  EventMetadata, CommonEventFields, Event, call, gas_credit, gas_refunded, message_approved,
  message_executed, cannot_execute_message_v2, its_interchain_transfer, its_link_token_started,
  its_interchain_token_deployment_started, its_token_metadata_registered, signers_rotated,
}
use axelar_relayer_ton.Boc.NoPanic.{Returns, Returns-lift_err}
use axelar_relayer_ton.TransactionParser.Common.{hash_to_message_id}
use axelar_relayer_ton.TransactionParser.Creation.{TraceParser}
use axelar_relayer_ton.TransactionParser.CallContract
use axelar_relayer_ton.TransactionParser.MessageExecuted
use axelar_relayer_ton.TransactionParser.MessageApproved
use axelar_relayer_ton.TransactionParser.SignersRotated
use axelar_relayer_ton.TransactionParser.NativeGasPaid
use axelar_relayer_ton.TransactionParser.NativeGasAdded
use axelar_relayer_ton.TransactionParser.NativeGasRefunded
use axelar_relayer_ton.TransactionParser.JettonGasAdded
use axelar_relayer_ton.TransactionParser.JettonGasPaid
use axelar_relayer_ton.TransactionParser.ItsTokenMetadataRegistered
use axelar_relayer_ton.TransactionParser.ItsInterchainTokenDeploymentStarted
use axelar_relayer_ton.TransactionParser.ItsInterchainTransfer
use axelar_relayer_ton.TransactionParser.ItsLinkTokenStarted

-- The contracts that the relayer watches.
pub data Contract : Type 0 where
  gateway gas_service its : Contract

abbrev pub address_of : {A : Type 0} → TraceParser A → Contract → A
address_of tp gateway = tp.gateway_address
address_of tp gas_service = tp.gas_service_address
address_of tp its = tp.its_address

-- The contract that an event of the type must come from; the one type that is about a whole trace
-- has none.
abbrev pub contract_of : Event → Option Contract
contract_of (call _ _ _ _) = some gateway
contract_of (message_approved _ _ _) = some gateway
contract_of (message_executed _ _ _ _ _) = some gateway
contract_of (signers_rotated _ _) = some gateway
contract_of (gas_credit _ _ _ _) = some gas_service
contract_of (gas_refunded _ _ _ _ _) = some gas_service
contract_of (its_interchain_transfer _ _ _ _ _ _ _) = some its
contract_of (its_link_token_started _ _ _ _ _ _ _) = some its
contract_of (its_interchain_token_deployment_started _ _ _ _) = some its
contract_of (its_token_metadata_registered _ _ _ _) = some its
contract_of (cannot_execute_message_v2 _ _ _ _ _) = none

abbrev pub meta_tx_id : {M : Type 0} → (M → EventMetadata) → CommonEventFields M → Option String
meta_tx_id f common = elim common.meta [ none ↦ none | some m ↦ (f m).tx_id ]

-- The hash of the transaction that an event names: its `meta` has it, and a refund, which has no
-- `meta`, is identified by it.
abbrev pub tx_id : Event → Option String
tx_id (call common _ _ _) = meta_tx_id (λ m. m) common
tx_id (message_approved common _ _) = meta_tx_id (λ m. m.common_meta) common
tx_id (message_executed common _ _ _ _) = meta_tx_id (λ m. m.common_meta) common
tx_id (signers_rotated common _) = meta_tx_id (λ m. m.common_meta) common
tx_id (gas_credit common _ _ _) = meta_tx_id (λ m. m) common
tx_id (gas_refunded common _ _ _ _) = some common.event_id
tx_id (its_interchain_transfer common _ _ _ _ _ _) = meta_tx_id (λ m. m) common
tx_id (its_link_token_started common _ _ _ _ _ _) = meta_tx_id (λ m. m) common
tx_id (its_interchain_token_deployment_started common _ _ _) = meta_tx_id (λ m. m) common
tx_id (its_token_metadata_registered common _ _ _) = meta_tx_id (λ m. m) common
tx_id (cannot_execute_message_v2 common _ _ _ _) = meta_tx_id (λ m. m) common

module _ {A : Type 0} (tp : TraceParser A) (txs : List (Transaction A)) where
  -- A transaction of the trace, made by the contract.
  pub record Own (contract : Contract) (tx : Transaction A) : Type 0 where
    pub index : ℕ
    pub within : get_elem? txs index ≡ some tx
    pub made_by : tx.account ≡ address_of tp contract

  -- The event names a transaction of the trace that the right contract made.
  abbrev pub Attested : Option Contract → Option String → Type 0
  Attested none id = Unit
  Attested (some contract) id = (tx : Transaction A) × Own contract tx × (id ≡ some tx.hash)

  abbrev pub IsGenuine : Event → Type 0
  IsGenuine e = Attested (contract_of e) (tx_id e)

module _ {A : Type 0} {E : Type 0} where
  pub Returns-ok_or : (o : Option A) (e : E) → Returns (ok_or o e)
  Returns-ok_or (some a) e = returns tt
  Returns-ok_or none e = fails

  pub Ensures-then :
      {B : Type 0} {Q : B → Type 0} (m : Outcome E A) (f : A → Outcome E B)
      → Returns m
      → ((a : A) → Ensures Q (f a))
      → Ensures Q (m >>= f)
  Ensures-then m f h k = Ensures->>= m f h (λ a _. k a)

module _ (lib : Externals) where
  open lib use {Address}

  pub Returns-hash_to_message_id : (hash : String) → Returns (hash_to_message_id lib hash)
  unfolding hash_to_message_id
  Returns-hash_to_message_id hash = decoded (lib.base64_decode hash)
    where
      decoded :
          (o : String ⊎ List ℕ)
          → Returns (elim o [
            | inl text ↦ err (message (append "DataError: " text))
            | inr bytes ↦ ok (append "0x" (lib.to_lowercase (lib.hex_encode bytes)))
          ])
      decoded (inl text) = fails
      decoded (inr bytes) = returns tt

  ruleset event_rules =
      (Ensures-then, Returns-ok_or, Returns-hash_to_message_id, Returns-lift_err, returns)

  module _ (tp : TraceParser Address) (txs : List (Transaction Address)) (now : String) where
    pub call_contract-IsGenuine :
        (id : Option String) (s : CallContract.ParserCallContract lib)
        → Own tp txs gateway s.tx
        → Ensures (IsGenuine tp txs) (CallContract.event lib tp.chain_name now id s)
    unfolding CallContract.event CallContract.message_id
    call_contract-IsGenuine id s own = search (event_rules) depth 12

    pub message_executed-IsGenuine :
        (id : Option String) (s : MessageExecuted.ParserMessageExecuted lib)
        → Own tp txs gateway s.tx
        → Ensures (IsGenuine tp txs) (MessageExecuted.event lib now id s)
    unfolding MessageExecuted.event
    message_executed-IsGenuine id s own = search (event_rules) depth 12

    pub message_approved-IsGenuine :
        (id : Option String) (s : MessageApproved.ParserMessageApproved lib)
        → Own tp txs gateway s.tx
        → Ensures (IsGenuine tp txs) (MessageApproved.event lib now id s)
    unfolding MessageApproved.event
    message_approved-IsGenuine id s own = search (event_rules) depth 12

    pub signers_rotated-IsGenuine :
        (id : Option String) (s : SignersRotated.ParserSignersRotated lib)
        → Own tp txs gateway s.tx
        → Ensures (IsGenuine tp txs) (SignersRotated.event lib now id s)
    unfolding SignersRotated.event SignersRotated.message_id
    signers_rotated-IsGenuine id s own = search (event_rules) depth 12

    pub native_gas_paid-IsGenuine :
        (id : Option String) (s : NativeGasPaid.ParserNativeGasPaid lib)
        → Own tp txs gas_service s.tx
        → Ensures (IsGenuine tp txs) (NativeGasPaid.event lib now id s)
    unfolding NativeGasPaid.event
    native_gas_paid-IsGenuine id s own = search (event_rules) depth 12

    pub native_gas_added-IsGenuine :
        (id : Option String) (s : NativeGasAdded.ParserNativeGasAdded lib)
        → Own tp txs gas_service s.tx
        → Ensures (IsGenuine tp txs) (NativeGasAdded.event lib now id s)
    unfolding NativeGasAdded.event NativeGasAdded.message_id
    native_gas_added-IsGenuine id s own = search (event_rules) depth 12

    pub native_gas_refunded-IsGenuine :
        (id : Option String) (s : NativeGasRefunded.ParserNativeGasRefunded lib)
        → Own tp txs gas_service s.tx
        → Ensures (IsGenuine tp txs) (NativeGasRefunded.event lib now id s)
    unfolding NativeGasRefunded.event NativeGasRefunded.message_id
    native_gas_refunded-IsGenuine id s own = elim (Option-cases s.log) [
      | inl e ↦ rw e fails
      | inr (log, e) ↦ rw e (returns (s.tx, own, refl))
    ]

    pub jetton_gas_added-IsGenuine :
        (id : Option String) (s : JettonGasAdded.ParserJettonGasAdded lib)
        → Own tp txs gas_service s.tx
        → Ensures (IsGenuine tp txs) (JettonGasAdded.event lib now id s)
    unfolding JettonGasAdded.event JettonGasAdded.message_id
    jetton_gas_added-IsGenuine id s own = search (event_rules) depth 12

    pub jetton_gas_paid-IsGenuine :
        (id : Option String) (s : JettonGasPaid.ParserJettonGasPaid lib)
        → Own tp txs gas_service s.tx
        → Ensures (IsGenuine tp txs) (JettonGasPaid.event lib now id s)
    unfolding JettonGasPaid.event
    jetton_gas_paid-IsGenuine id s own = search (event_rules) depth 12

    pub its_token_metadata_registered-IsGenuine :
        (id : Option String) (s : ItsTokenMetadataRegistered.ParserItsTokenMetadataRegistered lib)
        → Own tp txs its s.tx
        → Ensures (IsGenuine tp txs) (ItsTokenMetadataRegistered.event lib now id s)
    unfolding ItsTokenMetadataRegistered.event
    its_token_metadata_registered-IsGenuine id s own = search (event_rules) depth 12

    pub its_interchain_token_deployment_started-IsGenuine :
        (id : Option String)
        (s : ItsInterchainTokenDeploymentStarted.ParserItsInterchainTokenDeploymentStarted lib)
        → Own tp txs its s.tx
        → Ensures (IsGenuine tp txs) (ItsInterchainTokenDeploymentStarted.event lib now id s)
    unfolding ItsInterchainTokenDeploymentStarted.event
    its_interchain_token_deployment_started-IsGenuine id s own = search (event_rules) depth 12

    pub its_interchain_transfer-IsGenuine :
        (id : Option String) (s : ItsInterchainTransfer.ParserItsInterchainTransfer lib)
        → Own tp txs its s.tx
        → Ensures (IsGenuine tp txs) (ItsInterchainTransfer.event lib now id s)
    unfolding ItsInterchainTransfer.event
    its_interchain_transfer-IsGenuine id s own = search (event_rules) depth 12

    pub its_link_token_started-IsGenuine :
        (id : Option String) (s : ItsLinkTokenStarted.ParserItsLinkTokenStarted lib)
        → Own tp txs its s.tx
        → Ensures (IsGenuine tp txs) (ItsLinkTokenStarted.event lib now id s)
    unfolding ItsLinkTokenStarted.event
    its_link_token_started-IsGenuine id s own = search (event_rules) depth 12
