-- ===== src/Examples/Gas.antt =====
-- src/gas_calculator.rs at two transactions: one of ours that sends 100 to another of ours and to a
-- stranger, and one of the stranger that sends 100 to us.
use axelar_relayer_ton.Prelude.{
  ℕ, ◌%◌, String, ◌≡◌, refl, Option, none, some, List, [], ◌∷◌, nat_eq, string_eq, ◌==◌,
  if◌then◌else◌,
}
use axelar_relayer_ton.Prelude.Int.{ℤ, pos}
use axelar_relayer_ton.Types.{Transaction, TransactionMessage}
use axelar_relayer_ton.GasCalculator.{
  i128_mod, contains_key, add_cost, at_zero, total, us_sending, us_receiving, charge_sent,
  charge_received, charge_value, charge_fee, charge_msgs, charge_fees, charge_txs, cost,
}
use axelar_relayer_ton.GasCalculator.Cost.{txs_share, cost-txs_share}

abbrev parse : String → Option ℤ
parse text = some (if text == "100" then pos 100 else pos 3)

abbrev message_to : ℕ → TransactionMessage ℕ
message_to destination = record {
  destination = some destination;
  value = some "100";
  fwd_fee = some "3";
  opcode = none;
  message_content = record { body = "" };
}

abbrev transaction_of : ℕ → List (TransactionMessage ℕ) → Transaction ℕ
transaction_of account out_msgs = record {
  account = account;
  hash = "tx";
  total_fees = 10;
  description = record { compute_ph = none; action = none };
  in_msg = none;
  out_msgs = out_msgs;
}

abbrev transactions : List (Transaction ℕ)
transactions =
    transaction_of 1 (message_to 2 ∷ message_to 9 ∷ []) ∷ transaction_of 9 (message_to 1 ∷ []) ∷ []

cost-txs_share_example :
    cost parse (1 ∷ 2 ∷ []) transactions ≡ txs_share parse (1 ∷ 2 ∷ []) transactions % i128_mod
cost-txs_share_example = cost-txs_share parse (1 ∷ 2 ∷ []) transactions

-- The fees, and nothing for the values: 10 + 3 + 3 + 100 - 100.
cost_of_transactions : cost parse (1 ∷ 2 ∷ []) transactions ≡ 16
unfolding cost total charge_txs charge_fees charge_msgs charge_fee charge_value charge_sent
    charge_received us_sending us_receiving contains_key add_cost at_zero
cost_of_transactions = refl
