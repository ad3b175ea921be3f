-- ===== src/Broadcaster/Handlers.antt =====
-- src/broadcaster.rs: the requests, which are an approval, an execution and a refund.
use axelar_relayer_ton.Prelude.{
  ℕ, ◌-◌, String, Bool, Option, none, some, List, [], ◌∷◌, Outcome, ok, err, panic, map_err, ok_or,
  ◌>>=◌, ltb, length, if◌then◌else◌,
}
use axelar_relayer_ton.Externals.{Externals, OutAction}
use axelar_relayer_ton.Types.{BocError, boc_error_text, lift_err, append}
use axelar_relayer_ton.GmpTypes.{Amount}
use axelar_relayer_ton.GasEstimator.{
  approve_send, execute_estimate, execute_send, native_gas_refund_estimate,
}
use axelar_relayer_ton.OutAction.{out_action}
use axelar_relayer_ton.Boc.ApproveMessage.{ApproveMessage, from_boc_hex}
use axelar_relayer_ton.Boc.RelayerExecuteMessage
use axelar_relayer_ton.Boc.NativeRefund
use axelar_relayer_ton.TonWalletHighLoadV3.{TonWalletHighLoadV3}
use axelar_relayer_ton.Broadcaster.{
  BroadcasterError, generic_error, insufficient_gas, Surroundings, State, Act, then_act,
  TonBroadcaster, send_to_chain, with_wallet,
}
use axelar_relayer_ton.Client.{V3MessageResponse}

-- relayer_core's BroadcastResult, ExecuteTaskFields and RefundTaskFields, with the fields that are
-- read.
pub record BroadcastResult : Type 0 where
  pub tx_hash : String
  pub message_id : Option String
  pub source_chain : Option String
  pub status : Outcome BroadcasterError (Unit {0})

pub record ExecuteTaskFields : Type 0 where
  pub message_id : String
  pub source_chain : String
  pub source_address : String
  pub destination_address : String
  pub payload : String
  pub available_gas_balance : Amount

pub record RefundTaskFields : Type 0 where
  pub message_id : String
  pub refund_recipient_address : String
  pub remaining_gas_balance : Amount

-- `.map_err(|e| BroadcasterError::GenericError(e.to_string()))`
abbrev pub generic : {A : Type 0} → Outcome BocError A → Outcome BroadcasterError A
generic = map_err (λ e. generic_error (boc_error_text e))

abbrev pub generic_text : {A : Type 0} → Outcome String A → Outcome BroadcasterError A
generic_text = map_err generic_error

abbrev pub first : {A : Type 0} → List A → Option A
first [] = none
first (x ∷ _) = some x

-- `u64::from_str(…).unwrap_or(0)`
abbrev pub or_zero : Option ℕ → ℕ
or_zero none = 0
or_zero (some n) = n

-- `unwrap_or`
abbrev pub or_else : Option String → String → String
or_else none text = text
or_else (some text) _ = text

-- How an approval and an execution report the sending: its failure is a status, not an error.
abbrev pub reported :
    (message_id source_chain : String)
    → Outcome BroadcasterError V3MessageResponse × State
    → Outcome BroadcasterError BroadcastResult × State
reported message_id source_chain (ok response, s) = (
  ok (record {
    tx_hash = response.message_hash;
    message_id = some message_id;
    source_chain = some source_chain;
    status = ok tt;
  }),
  s,
)
reported message_id source_chain (err e, s) = (
  ok (record {
    tx_hash = "";
    message_id = some message_id;
    source_chain = some source_chain;
    status = err e;
  }),
  s,
)
reported message_id source_chain (panic, s) = (panic, s)

-- How a refund reports it: the status is dropped.
abbrev pub hash_or_empty :
    Outcome BroadcasterError V3MessageResponse × State → Outcome BroadcasterError String × State
hash_or_empty (ok response, s) = (ok response.message_hash, s)
hash_or_empty (err e, s) = (ok "", s)
hash_or_empty (panic, s) = (panic, s)

abbrev pub refund_dust : ℕ
refund_dust = 10000000

module _ (lib : Externals) (b : TonBroadcaster lib) (around : Surroundings) where
  open lib use {
    Address, Cell, to_boc_hex, address_from_str, address_from_hex_str, base64_decode, hex_encode,
    parse_u64, parse_biguint, strip_prefix, tonhash_from_hex,
  }

  -- What an approval does before it acquires a wallet: the first message, and the action.
  unfoldable pub approval : String → Outcome BroadcasterError (ApproveMessage × OutAction Cell)
  approval tx_blob = do
    messages ← generic (from_boc_hex lib tx_blob)
    message ← ok_or (first messages) (generic_error "Missing approved message")
    action ←
        generic_text (
          out_action lib tx_blob (approve_send b.gas_estimates (length messages)) b.gateway_address)
    ok (message, action)

  unfoldable pub broadcast_prover_message : String → Act BroadcastResult
  broadcast_prover_message tx_blob = then_act (approval tx_blob) λ (message, action).
      with_wallet lib b around λ wallet s.
        reported message.message_id message.source_chain
          (send_to_chain lib b around wallet (action ∷ []) none s)

  -- What an execution reads of its task: the destination, and the payload's bytes.
  unfoldable pub decoded : ExecuteTaskFields → Outcome BroadcasterError (Address × List ℕ)
  decoded task = do
    destination ←
        lift_err (λ e. generic_error (append "TonAddressParseError: " e))
          (address_from_str task.destination_address)
    payload ←
        lift_err (λ e. generic_error (append "Failed decoding payload: " e))
          (base64_decode task.payload)
    ok (destination, payload)

  abbrev pub serialized : Cell → Outcome BroadcasterError String
  serialized cell =
      lift_err (λ e. generic_error (append "Failed to serialize relayer execute message: " e))
        (to_boc_hex cell)

  unfoldable pub execution :
      ExecuteTaskFields
      → Address × List ℕ
      → TonWalletHighLoadV3 Address
      → Outcome BroadcasterError (OutAction Cell)
  execution task (destination, payload) wallet = do
    cell ← generic (
        RelayerExecuteMessage.to_cell lib (record {
          message_id = task.message_id;
          source_chain = task.source_chain;
          source_address = task.source_address;
          destination_chain = b.chain_name;
          destination_address = destination;
          payload = hex_encode payload;
          relayer_address = wallet.address;
        }))
    boc ← serialized cell
    generic_text
        (out_action lib boc (execute_send b.gas_estimates (length payload)) b.gateway_address)

  abbrev pub not_enough_gas : ExecuteTaskFields → BroadcastResult
  not_enough_gas task = record {
    tx_hash = "";
    message_id = some task.message_id;
    source_chain = some task.source_chain;
    status = err (insufficient_gas "Cannot proceed to execute");
  }

  abbrev pub lacks_gas : ExecuteTaskFields → List ℕ → Bool
  lacks_gas task payload =
      ltb (or_zero (parse_u64 task.available_gas_balance.amount))
        (execute_estimate b.gas_estimates (length payload))

  unfoldable pub broadcast_execute_message : ExecuteTaskFields → Act BroadcastResult
  broadcast_execute_message task = then_act (decoded task) λ read s.
      if lacks_gas task read.1
      then (ok (not_enough_gas task), s)
      else with_wallet lib b around
          (λ wallet. then_act (execution task read wallet) λ action s'.
            reported task.message_id task.source_chain
              (send_to_chain lib b around wallet (action ∷ []) none s'))
          s

  -- The amount that a refund sends, if it covers the gas.
  unfoldable pub refund_amount : (original gas_estimate : ℕ) → Outcome BroadcasterError ℕ
  refund_amount original gas_estimate =
      if ltb original gas_estimate
      then err (insufficient_gas "Not enough balance to cover gas for refund")
      else ok (original - gas_estimate)

  -- The message to the gas service that pays an amount, as text.
  unfoldable pub refund_text : List ℕ → Address → (amount : ℕ) → Outcome BroadcasterError String
  refund_text tx_hash address amount = do
    cell ← generic (
        NativeRefund.to_cell lib (record { tx_hash = tx_hash; address = address; amount = amount }))
    serialized cell

  unfoldable pub native_refund : RefundTaskFields → Outcome BroadcasterError String
  unfolding refund_amount refund_text
  native_refund task = do
    tx_hash ←
        lift_err generic_error
          (tonhash_from_hex (or_else (strip_prefix task.message_id "0x") task.message_id))
    address ← lift_err generic_error (address_from_hex_str task.refund_recipient_address)
    original ← lift_err generic_error (parse_biguint task.remaining_gas_balance.amount)
    amount ← refund_amount original (native_gas_refund_estimate b.gas_estimates)
    refund_text tx_hash address amount

  -- Only the native coin is refunded.
  abbrev pub native_only :
      Option String → Outcome BroadcasterError String → Outcome BroadcasterError String
  native_only none r = r
  native_only (some _) r = err (generic_error "Refund task with token_id is not supported")

  -- What a refund does before it acquires a wallet.
  unfoldable pub refund : RefundTaskFields → Outcome BroadcasterError String
  unfolding native_refund
  refund task = native_only task.remaining_gas_balance.token_id (native_refund task)

  -- The inner block of a refund.
  abbrev pub send_refund : String → TonWalletHighLoadV3 Address → Act String
  send_refund boc wallet =
      then_act (generic_text (out_action lib boc refund_dust b.gas_service_address))
        λ action s. hash_or_empty (send_to_chain lib b around wallet (action ∷ []) none s)

  unfoldable pub broadcast_refund_message : RefundTaskFields → Act String
  broadcast_refund_message task =
      then_act (refund task) λ boc. with_wallet lib b around (send_refund boc)

-- `broadcast_refund` does nothing.
unfoldable pub broadcast_refund : String → Act String
broadcast_refund _ s = (ok "", s)
