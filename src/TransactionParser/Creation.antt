-- ===== src/TransactionParser/Creation.antt =====
-- `create_parsers` of src/transaction_parser/parser.rs: the parsers that match a trace.
use axelar_relayer_ton.Prelude.{
  ℕ, suc, String, Bool, true, false, ◌&&◌, Option, none, some, List, [], ◌∷◌, ◌++◌, Outcome, ok,
  ◌>>=◌, if◌then◌else◌, ◌==◌, string_eq, eqb,
}
use axelar_relayer_ton.Externals.{Externals}
use axelar_relayer_ton.Types.{Transaction, Trace, TransactionParsingError}
use axelar_relayer_ton.TransactionParser.Common.{MessageMatchingKey, new}
use axelar_relayer_ton.TransactionParser.AnyParser.{
  AnyParser, execute_insufficient_gas, call_contract, message_executed, message_approved,
  native_gas_paid, native_gas_added, native_gas_refunded, jetton_gas_added, jetton_gas_paid,
  its_token_metadata_registered, its_interchain_token_deployment_started, its_interchain_transfer,
  its_link_token_started, signers_rotated,
}
use axelar_relayer_ton.TransactionParser.ExecuteInsufficientGas
use axelar_relayer_ton.TransactionParser.CallContract
use axelar_relayer_ton.TransactionParser.MessageExecuted
use axelar_relayer_ton.TransactionParser.MessageApproved
use axelar_relayer_ton.TransactionParser.NativeGasPaid
use axelar_relayer_ton.TransactionParser.NativeGasAdded
use axelar_relayer_ton.TransactionParser.NativeGasRefunded
use axelar_relayer_ton.TransactionParser.JettonGasAdded
use axelar_relayer_ton.TransactionParser.JettonGasPaid
use axelar_relayer_ton.TransactionParser.ItsTokenMetadataRegistered
use axelar_relayer_ton.TransactionParser.ItsInterchainTokenDeploymentStarted
use axelar_relayer_ton.TransactionParser.ItsInterchainTransfer
use axelar_relayer_ton.TransactionParser.ItsLinkTokenStarted
use axelar_relayer_ton.TransactionParser.SignersRotated

pub record TraceParser (A : Type 0) : Type 0 where
  pub gateway_address : A
  pub gas_service_address : A
  pub its_address : A
  pub our_addresses : List A  -- of the gas calculator
  pub chain_name : String

abbrev pub same_bytes : List ℕ → List ℕ → Bool
same_bytes [] [] = true
same_bytes (a ∷ as') (b ∷ bs) = eqb a b && same_bytes as' bs
same_bytes _ _ = false

unfoldable pub same_key : MessageMatchingKey → MessageMatchingKey → Bool
same_key k l =
    k.destination_chain == l.destination_chain
    && k.destination_address == l.destination_address
    && same_bytes k.payload_hash l.payload_hash

-- A hash map, of which the code uses `insert`, `remove` and `len`.
module _ {V : Type 0} where
  unfoldable pub insert :
      MessageMatchingKey → V → List (MessageMatchingKey × V) → List (MessageMatchingKey × V)
  unfolding same_key
  insert k v [] = (k, v) ∷ []
  insert k v ((j, w) ∷ m) = if same_key j k then (k, v) ∷ m else (j, w) ∷ insert k v m

  unfoldable pub remove :
      MessageMatchingKey → List (MessageMatchingKey × V) → Option V × List (MessageMatchingKey × V)
  unfolding same_key
  remove k [] = (none, [])
  remove k ((j, w) ∷ m) =
      let (found, rest) = remove k m in if same_key j k then (some w, m) else (found, (j, w) ∷ rest)

module _ (lib : Externals) where
  open lib use {Address}

  -- The vectors, the map and the count that `create_parsers` fills.
  pub record Collected : Type 0 where
    pub parsers : List (AnyParser lib)
    pub call_contract : List (AnyParser lib)
    pub its : List (AnyParser lib)
    pub gas_credit_map : List (MessageMatchingKey × AnyParser lib)
    pub message_approved_count : ℕ

  abbrev pub empty : Collected
  empty = record {
    parsers = [];
    call_contract = [];
    its = [];
    gas_credit_map = [];
    message_approved_count = 0;
  }

  abbrev pub push : AnyParser lib → Collected → Collected
  push p c = record c { parsers = c.parsers ++ p ∷ [] }

  abbrev pub push_approved : AnyParser lib → Collected → Collected
  push_approved p c = record c {
    parsers = c.parsers ++ p ∷ [];
    message_approved_count = suc c.message_approved_count;
  }

  abbrev pub push_call : AnyParser lib → Collected → Collected
  push_call p c = record c { call_contract = c.call_contract ++ p ∷ [] }

  abbrev pub push_its : AnyParser lib → Collected → Collected
  push_its p c = record c { its = c.its ++ p ∷ [] }

  abbrev pub insert_credit : MessageMatchingKey → AnyParser lib → Collected → Collected
  insert_credit k p c = record c { gas_credit_map = insert k p c.gas_credit_map }

  -- `if parser.check_match()? { parser.parse()?; .. }`: what the block does, or `none`.
  abbrev pub recognise :
      {P C : Type 0}
      → (P → Outcome TransactionParsingError (Bool × P))
      → (P → Outcome TransactionParsingError (Bool × P))
      → (P → Outcome TransactionParsingError C)
      → P
      → Outcome TransactionParsingError (Option C)
  recognise check_match parse found p = check_match p >>= λ checked.
      if checked.0
      then (parse checked.1 >>= λ parsed. found parsed.1 >>= λ c. ok (some c))
      else ok none

  -- A parser type, as the loop tries it on a transaction.
  abbrev pub Recogniser : Type 0
  Recogniser =
      TraceParser Address
      → Transaction Address
      → Collected
      → Outcome TransactionParsingError (Option Collected)

  unfoldable pub try_call_contract : Recogniser
  try_call_contract tp tx c =
      recognise (CallContract.check_match lib) (CallContract.parse lib)
        (λ s. ok (push_call (call_contract s) c)) (new tx tp.gateway_address)

  unfoldable pub try_message_executed : Recogniser
  try_message_executed tp tx c =
      recognise (MessageExecuted.check_match lib) (MessageExecuted.parse lib)
        (λ s. ok (push (message_executed s) c)) (new tx tp.gateway_address)

  unfoldable pub try_message_approved : Recogniser
  try_message_approved tp tx c =
      recognise (MessageApproved.check_match lib) (MessageApproved.parse lib)
        (λ s. ok (push_approved (message_approved s) c)) (new tx tp.gateway_address)

  unfoldable pub try_native_gas_paid : Recogniser
  try_native_gas_paid tp tx c =
      recognise (NativeGasPaid.check_match lib) (NativeGasPaid.parse lib)
        (λ s. NativeGasPaid.key lib s >>= λ k. ok (insert_credit k (native_gas_paid s) c))
        (new tx tp.gas_service_address)

  unfoldable pub try_native_gas_added : Recogniser
  try_native_gas_added tp tx c =
      recognise (NativeGasAdded.check_match lib) (NativeGasAdded.parse lib)
        (λ s. ok (push (native_gas_added s) c)) (new tx tp.gas_service_address)

  unfoldable pub try_native_gas_refunded : Recogniser
  try_native_gas_refunded tp tx c =
      recognise (NativeGasRefunded.check_match lib) (NativeGasRefunded.parse lib)
        (λ s. ok (push (native_gas_refunded s) c)) (new tx tp.gas_service_address)

  unfoldable pub try_jetton_gas_added : Recogniser
  try_jetton_gas_added tp tx c =
      recognise (JettonGasAdded.check_match lib) (JettonGasAdded.parse lib)
        (λ s. ok (push (jetton_gas_added s) c)) (new tx tp.gas_service_address)

  unfoldable pub try_jetton_gas_paid : Recogniser
  try_jetton_gas_paid tp tx c =
      recognise (JettonGasPaid.check_match lib) (JettonGasPaid.parse lib)
        (λ s. JettonGasPaid.key lib s >>= λ k. ok (insert_credit k (jetton_gas_paid s) c))
        (new tx tp.gas_service_address)

  unfoldable pub try_its_token_metadata_registered : Recogniser
  try_its_token_metadata_registered tp tx c =
      recognise (ItsTokenMetadataRegistered.check_match lib) (ItsTokenMetadataRegistered.parse lib)
        (λ s. ok (push_its (its_token_metadata_registered s) c)) (new tx tp.its_address)

  unfoldable pub try_its_interchain_token_deployment_started : Recogniser
  try_its_interchain_token_deployment_started tp tx c =
      recognise (ItsInterchainTokenDeploymentStarted.check_match lib)
        (ItsInterchainTokenDeploymentStarted.parse lib)
        (λ s. ok (push_its (its_interchain_token_deployment_started s) c)) (new tx tp.its_address)

  unfoldable pub try_its_interchain_transfer : Recogniser
  try_its_interchain_transfer tp tx c =
      recognise (ItsInterchainTransfer.check_match lib) (ItsInterchainTransfer.parse lib)
        (λ s. ok (push_its (its_interchain_transfer s) c)) (new tx tp.its_address)

  unfoldable pub try_its_link_token_started : Recogniser
  try_its_link_token_started tp tx c =
      recognise (ItsLinkTokenStarted.check_match lib) (ItsLinkTokenStarted.parse lib)
        (λ s. ok (push_its (its_link_token_started s) c)) (new tx tp.its_address)

  unfoldable pub try_signers_rotated : Recogniser
  try_signers_rotated tp tx c =
      recognise (SignersRotated.check_match lib) (SignersRotated.parse lib)
        (λ s. ok (push (signers_rotated s) c)) (new tx tp.gateway_address)

  -- The order in which the loop tries them.
  abbrev pub recognisers : List Recogniser
  recognisers =
      try_call_contract ∷ try_message_executed ∷ try_message_approved ∷ try_native_gas_paid
      ∷ try_native_gas_added ∷ try_jetton_gas_added ∷ try_jetton_gas_paid ∷ try_native_gas_refunded
      ∷ try_its_token_metadata_registered ∷ try_its_interchain_token_deployment_started
      ∷ try_its_interchain_transfer ∷ try_its_link_token_started ∷ try_signers_rotated ∷ []

  -- The first that matches ends the round (`continue`).
  unfoldable pub try_in_turn :
      List Recogniser
      → TraceParser Address
      → Transaction Address
      → Collected
      → Outcome TransactionParsingError Collected
  try_in_turn [] tp tx c = ok c
  try_in_turn (r ∷ rs) tp tx c =
      let rest = try_in_turn rs tp tx c in
      r tp tx c >>= λ matched. elim matched [ some c' ↦ ok c' | none ↦ rest ]

  unfoldable pub collect_from :
      TraceParser Address
      → List (Transaction Address)
      → Collected
      → Outcome TransactionParsingError Collected
  collect_from tp [] c = ok c
  collect_from tp (tx ∷ txs) c = try_in_turn recognisers tp tx c >>= λ c'. collect_from tp txs c'

  unfoldable pub try_execute_insufficient_gas :
      TraceParser Address → Trace Address → Outcome TransactionParsingError (Option Collected)
  try_execute_insufficient_gas tp trace =
      recognise (ExecuteInsufficientGas.check_match lib) (ExecuteInsufficientGas.parse lib)
        (λ s. ok (push (execute_insufficient_gas s) empty))
        (ExecuteInsufficientGas.new trace tp.gateway_address)

  unfoldable pub create_parsers :
      TraceParser Address → Trace Address → Outcome TransactionParsingError Collected
  create_parsers tp trace = try_execute_insufficient_gas tp trace >>= λ matched. elim matched [
    | some c ↦ collect_from tp trace.transactions c
    | none ↦ collect_from tp trace.transactions empty
  ]
