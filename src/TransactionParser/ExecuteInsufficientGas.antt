-- ===== src/TransactionParser/ExecuteInsufficientGas.antt =====
-- src/transaction_parser/parser_execute_insufficient_gas.rs: it looks at a whole trace.
use axelar_relayer_ton.Prelude.{
  ℕ, String, Bool, true, false, ◌&&◌, ◌||◌, Option, none, some, List, [], ◌∷◌, Outcome, ok, panic,
  ok_or, or_panic, map_err, ◌>>=◌, get_elem?, eqb, length, ◌-◌, ◌%◌, ◌^◌,
}
use axelar_relayer_ton.Prelude.Int.{ℤ, pos, negsuc}
use axelar_relayer_ton.Externals.{Externals}
use axelar_relayer_ton.Types.{
  Transaction, Trace, TransactionParsingError, boc_parsing, message, append, boc_error_text,
  op_nullified_successfully, op_relayer_execute, exit_code_insufficient_gas, TransactionMessage,
  Action, ComputePhase,
}
use axelar_relayer_ton.GmpTypes.{Event, cannot_execute_message_v2, insufficient_gas}
use axelar_relayer_ton.Boc.RelayerExecuteWrapped.{RelayerExecuteWrappedMessage, from_boc_b64}
use axelar_relayer_ton.TransactionParser.Common.{MessageMatchingKey, out_body, common, opcode_is}

-- an `i32` as `u32`, within its range
abbrev as_u32 : ℤ → ℕ
as_u32 (pos n) = n % 2 ^ 32
as_u32 (negsuc n) = 2 ^ 32 - 1 - n % 2 ^ 32

abbrev pub exit_code : Option ComputePhase → ℕ
exit_code none = 0
exit_code (some ph) = elim ph.exit_code [ none ↦ 0 | some code ↦ as_u32 code ]

abbrev result_code_is_37 : Option Action → Bool
result_code_is_37 none = false
result_code_is_37 (some action) = elim action.result_code [ pos n ↦ eqb n 37 | negsuc _ ↦ false ]

pub record ParserExecuteInsufficientGas (A : Type 0) : Type 0 where
  pub log : Option RelayerExecuteWrappedMessage
  pub trace : Trace A
  pub allowed_address : A

module _ {A : Type 0} where
  abbrev pub new : Trace A → A → ParserExecuteInsufficientGas A
  new trace allowed_address = record {
    log = none;
    trace = trace;
    allowed_address = allowed_address;
  }

  -- `first().and_then(|msg| msg.opcode).unwrap_or(0)`
  abbrev pub first_opcode : List (TransactionMessage A) → ℕ
  first_opcode [] = 0
  first_opcode (msg ∷ _) = elim msg.opcode [ none ↦ 0 | some opcode ↦ opcode ]

  -- The gateway refused the execution that the wallet's second transaction asked for.
  abbrev pub refused : (A → A → Bool) → A → Option (Transaction A) → Option (Transaction A) → Bool
  refused same allowed none tx2 = false
  refused same allowed (some tx1) none = false
  refused same allowed (some tx1) (some tx2) =
      same tx2.account allowed
      && eqb (length tx1.out_msgs) 1
      && eqb (first_opcode tx1.out_msgs) op_relayer_execute
      && eqb (exit_code tx2.description.compute_ph) exit_code_insufficient_gas

  abbrev pub nullified : Option (TransactionMessage A) → Bool
  nullified none = false
  nullified (some in_msg) = opcode_is in_msg.opcode op_nullified_successfully

  abbrev pub has_in_msg : Option (TransactionMessage A) → Bool
  has_in_msg none = false
  has_in_msg (some _) = true

  -- The action phase of the fifth and last transaction ran out of funds.
  abbrev pub ran_out : ℕ → Option (Transaction A) → Option (Transaction A) → Bool
  ran_out count none tx4 = false
  ran_out count (some tx3) none = false
  ran_out count (some tx3) (some tx4) =
      eqb count 5
      && has_in_msg tx3.in_msg
      && nullified tx4.in_msg
      && result_code_is_37 tx4.description.action

module _ (lib : Externals) where
  open lib use {Address, address_eq, show_i64}

  abbrev pub State : Type 0
  State = ParserExecuteInsufficientGas Address

  unfoldable pub matches : State → Bool
  matches s =
      let txs = s.trace.transactions in
      refused address_eq.eq s.allowed_address (get_elem? txs 1) (get_elem? txs 2)
      || ran_out (length txs) (get_elem? txs 3) (get_elem? txs 4)

  unfoldable pub check_match : State → Outcome TransactionParsingError (Bool × State)
  check_match s = ok (matches s, s)

  -- `self.trace.transactions[0].out_msgs[0]` panics where one of them is missing.
  unfoldable pub parse : State → Outcome TransactionParsingError (Bool × State)
  parse s = elim s.log [
    | some log ↦ ok (true, s)
    | none ↦ (do
      tx ← or_panic (get_elem? s.trace.transactions 0)
      body ← out_body tx 0
      log ← map_err (λ e. boc_parsing (boc_error_text e)) (from_boc_b64 lib body)
      ok (true, record s { log = some log }))
  ]

  -- `unimplemented!()`
  abbrev pub key : State → Outcome TransactionParsingError MessageMatchingKey
  key s = panic

  -- `unimplemented!()`
  abbrev pub message_id : State → Outcome TransactionParsingError (Option String)
  message_id s = panic

  unfoldable pub event : State → Outcome TransactionParsingError Event
  event s = do
    log ← ok_or s.log (message "Missing log")
    ok (
        cannot_execute_message_v2
          (common "CANNOT_EXECUTE_MESSAGE/V2"
            (append "cannot-execute-task-v2-" (show_i64 s.trace.end_lt)) none)
          log.message_id log.source_chain insufficient_gas s.trace.trace_id)
