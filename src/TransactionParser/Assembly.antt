-- ===== src/TransactionParser/Assembly.antt =====
-- `parse_trace` and `add_gas_used_and_convert` of src/transaction_parser/parser.rs: the events of a
-- trace, from the parsers that match it.
use axelar_relayer_ton.Prelude.{
  ℕ, zero, suc, ◌/◌, String, Option, none, some, List, [], ◌∷◌, ◌++◌, Outcome, ok, err, ◌>>=◌,
  map_err, ok_or, get_elem?,
}
use axelar_relayer_ton.Externals.{Externals}
use axelar_relayer_ton.Types.{
  Trace, TransactionParsingError, message, append, generic, its_without_pair, lift_err,
}
use axelar_relayer_ton.GmpTypes.{
  Amount, Event, gas_credit, gas_refunded, message_approved, message_executed,
}
use axelar_relayer_ton.GasCalculator.{calc_message_gas, calc_message_gas_native_gas_refunded}
use axelar_relayer_ton.TransactionParser.Common.{MessageMatchingKey, convert_jetton_to_native}
use axelar_relayer_ton.TransactionParser.AnyParser.{AnyParser, key, message_id, event}
use axelar_relayer_ton.TransactionParser.Creation.{TraceParser, Collected, create_parsers, remove}

-- What a message is charged when `total_gas_used` is shared by the approved ones.
unfoldable pub per_message : (total_gas_used message_approved_count : ℕ) → ℕ
per_message total_gas_used zero = 0
per_message total_gas_used (suc n) = total_gas_used / suc n

module _ (lib : Externals) where
  open lib use {address_eq, parse_i128, parse_biguint, show_number}

  unfoldable pub gas_used : TraceParser lib.Address → Trace lib.Address → ℕ × ℕ
  gas_used tp trace = (
    calc_message_gas ⦃e = address_eq⦄ parse_i128 tp.our_addresses trace.transactions,
    calc_message_gas_native_gas_refunded ⦃e = address_eq⦄ parse_i128 tp.our_addresses
        trace.transactions,
  )

  unfoldable pub convert_payment : Amount → Outcome TransactionParsingError Amount
  convert_payment payment = elim payment.token_id [
    | none ↦ ok payment
    | some token_id ↦ (do
      amount ← lift_err generic (parse_biguint payment.amount)
      native ← map_err generic (convert_jetton_to_native lib token_id amount)
      ok (record { token_id = none; amount = show_number native }))
  ]

  unfoldable pub adjust :
      (total_gas_used refund_gas_used message_approved_count : ℕ)
      → Event
      → Outcome TransactionParsingError Event
  unfolding convert_payment
  adjust total refund count (gas_credit common id refund_address payment) = do
    paid ← convert_payment payment
    ok (gas_credit common id refund_address paid)
  adjust total refund count (message_approved common msg cost) =
      ok (
        message_approved common msg
          (record cost { amount = show_number (per_message total count) }))
  adjust total refund count (message_executed common id source_chain status cost) =
      ok (
        message_executed common id source_chain status (record cost { amount = show_number total }))
  adjust total refund count (gas_refunded common id recipient_address refunded_amount cost) = ok (
      gas_refunded common id recipient_address refunded_amount
        (record cost { amount = show_number refund }))
  adjust total refund count e = ok e

  unfoldable pub add_gas_used_and_convert :
      (total_gas_used refund_gas_used message_approved_count : ℕ)
      → List Event
      → Outcome TransactionParsingError (List Event)
  add_gas_used_and_convert total refund count [] = ok []
  add_gas_used_and_convert total refund count (e ∷ es) = do
    adjusted ← adjust total refund count e
    rest ← add_gas_used_and_convert total refund count es
    ok (adjusted ∷ rest)

  module _ (chain_name now : String) where
    -- The event of the gas payment that the call's key finds, if there is one.
    unfoldable pub credit_event :
        AnyParser lib → Option (AnyParser lib) → Outcome TransactionParsingError (List Event)
    credit_event cc none = ok []
    credit_event cc (some paid) = do
      found ← message_id lib cc
      id ← ok_or found (message "Missing message_id")
      credit ← event lib chain_name now (some id) paid
      ok (credit ∷ [])

    -- The first loop, over the calls.
    unfoldable pub call_events :
        List (AnyParser lib)
        → List (MessageMatchingKey × AnyParser lib)
        → Outcome TransactionParsingError (List Event)
    call_events [] gas_credit_map = ok []
    call_events (cc ∷ ccs) gas_credit_map = do
      cc_key ← key lib cc
      called ← event lib chain_name now none cc
      credit ← credit_event cc (remove cc_key gas_credit_map).0
      rest ← call_events ccs (remove cc_key gas_credit_map).1
      ok (called ∷ credit ++ rest)

    -- The second loop: the ITS event of index `i` and later ones, each with the id of its call.
    unfoldable pub its_events :
        List (AnyParser lib)
        → ℕ
        → List (AnyParser lib)
        → Outcome TransactionParsingError (List Event)
    its_events call_contract i [] = ok []
    its_events call_contract i (its_parser ∷ its) =
        let rest = its_events call_contract (suc i) its in
        elim (get_elem? call_contract i) [
          | none ↦
              err (
                its_without_pair
                  (append "No matching call_contract for ITS index " (show_number i)))
          | some contract_parser ↦ (do
            id ← message_id lib contract_parser
            e ← event lib chain_name now id its_parser
            es ← rest
            ok (e ∷ es))
        ]

    -- The third loop.
    unfoldable pub other_events :
        List (AnyParser lib) → Outcome TransactionParsingError (List Event)
    other_events [] = ok []
    other_events (p ∷ ps) = do
      e ← event lib chain_name now none p
      es ← other_events ps
      ok (e ∷ es)

    -- What the three loops push.
    unfoldable pub events_of : Collected lib → Outcome TransactionParsingError (List Event)
    events_of c = do
      calls ← call_events c.call_contract c.gas_credit_map
      paired ← its_events c.call_contract 0 c.its
      others ← other_events c.parsers
      ok (calls ++ paired ++ others)

  unfoldable pub parse_trace :
      TraceParser lib.Address
      → (now : String) → Trace lib.Address
      → Outcome TransactionParsingError (List Event)
  unfolding gas_used
  parse_trace tp now trace = do
    c ← create_parsers lib tp trace
    events ← events_of tp.chain_name now c
    add_gas_used_and_convert (gas_used tp trace).0 (gas_used tp trace).1 c.message_approved_count
        events
