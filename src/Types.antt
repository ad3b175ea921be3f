-- ===== src/Types.antt =====
-- src/types.rs, src/error.rs and src/ton_constants.rs: the fields that the modelled code reads, for
-- any type `A` of addresses; the errors; the op codes.
pub mod Response
pub mod Opcode
use Prim.Native.String.{◌++◌ as string_append}
use axelar_relayer_ton.Prelude.{ℕ, String, Bool, Option, List, ◌⊎◌, inl, inr, Outcome, ok, err}
use axelar_relayer_ton.Prelude.Int.{ℤ}

pub record MessageContent : Type 0 where
  pub body : String

pub record TransactionMessage (A : Type 0) : Type 0 where
  pub destination : Option A
  pub value : Option String
  pub fwd_fee : Option String
  pub opcode : Option ℕ  -- u32
  pub message_content : MessageContent

pub record ComputePhase : Type 0 where
  pub exit_code : Option ℤ  -- i32

pub record Action : Type 0 where
  pub result_code : ℤ  -- i32

pub record TransactionDescription : Type 0 where
  pub compute_ph : Option ComputePhase
  pub action : Option Action

pub record Transaction (A : Type 0) : Type 0 where
  pub account : A
  pub hash : String
  pub total_fees : ℕ  -- u64
  pub description : TransactionDescription
  pub in_msg : Option (TransactionMessage A)
  pub out_msgs : List (TransactionMessage A)

pub record Trace (A : Type 0) : Type 0 where
  pub is_incomplete : Bool
  pub start_lt : ℤ  -- i64
  pub end_lt : ℤ  -- i64
  pub trace_id : String
  pub transactions : List (Transaction A)

pub data BocError : Type 0 where
  boc_encoding_error boc_parsing_error invalid_op_code : String → BocError

pub data TransactionParsingError : Type 0 where
  boc_parsing message gas its_without_pair generic : String → TransactionParsingError

-- `format!` of two texts
abbrev pub append : String → String → String
append = string_append

-- `e.to_string()`
abbrev pub boc_error_text : BocError → String
boc_error_text (boc_encoding_error s) = append "BocEncodingError: " s
boc_error_text (boc_parsing_error s) = append "BocParsingError: " s
boc_error_text (invalid_op_code s) = append "Invalid Op Code: " s

-- `map_err(|e| f(e.to_string()))` on the result of a call that the repository does not contain
abbrev pub lift_err {ℓ κ} : {E : Type ℓ} {A : Type κ} → (String → E) → String ⊎ A → Outcome E A
lift_err f (inl s) = err (f s)
lift_err f (inr a) = ok a

abbrev pub op_approve_messages : ℕ
op_approve_messages = 0x28

abbrev pub op_message_approved : ℕ
op_message_approved = 0x0D

abbrev pub op_nullified_successfully : ℕ
op_nullified_successfully = 0x05

abbrev pub op_relayer_execute : ℕ
op_relayer_execute = 0x08

abbrev pub op_gateway_execute : ℕ
op_gateway_execute = 0x0C

abbrev pub op_call_contract : ℕ
op_call_contract = 0x09

abbrev pub op_pay_gas : ℕ
op_pay_gas = 0x45

abbrev pub op_pay_native_gas_for_contract_call : ℕ
op_pay_native_gas_for_contract_call = 0x1F

abbrev pub op_add_native_gas : ℕ
op_add_native_gas = 0x36

abbrev pub op_native_refund : ℕ
op_native_refund = 0x46

abbrev pub op_transfer_notification : ℕ
op_transfer_notification = 0x7362d09c

abbrev pub op_token_metadata_registered_log : ℕ
op_token_metadata_registered_log = 0x104

abbrev pub op_register_token_metadata : ℕ
op_register_token_metadata = 0x101

abbrev pub op_link_token_started_log : ℕ
op_link_token_started_log = 0x105

abbrev pub op_interchain_token_deployment_started_log : ℕ
op_interchain_token_deployment_started_log = 0x107

abbrev pub op_interchain_transfer_log : ℕ
op_interchain_transfer_log = 0x110

abbrev pub op_signers_rotated_log : ℕ
op_signers_rotated_log = 0x2A

abbrev pub exit_code_insufficient_gas : ℕ
exit_code_insufficient_gas = 106

abbrev pub workchain : ℕ
workchain = 0
