-- ===== src/GasCalculator.antt =====
-- src/gas_calculator.rs. An `i128` is kept as its residue modulo 2 ^ 128, as two's complement does:
-- it is positive when it lies above 0 and below 2 ^ 127. `parse` is `str::parse::<i128>`.
pub mod Balances
pub mod Cost
use axelar_relayer_ton.Prelude.{
  ℕ, ◌+◌, ◌-◌, ◌%◌, ◌^◌, String, Bool, true, false, not, ◌&&◌, ◌||◌, Option, none, some, List, [],
  ◌∷◌, ltb, if◌then◌else◌, PartialEq, ◌==◌, get_elem?,
}
use axelar_relayer_ton.Prelude.Int.{ℤ, pos, negsuc}
use axelar_relayer_ton.Types.{Transaction, TransactionMessage}

abbrev pub i128_mod : ℕ
i128_mod = 2 ^ 128

abbrev pub add_i128 : ℕ → ℕ → ℕ
add_i128 a b = (a + b) % i128_mod

abbrev pub sub_i128 : ℕ → ℕ → ℕ
sub_i128 a b = (a + (i128_mod - b % i128_mod)) % i128_mod

abbrev pub to_i128 : ℤ → ℕ
to_i128 (pos n) = n % i128_mod
to_i128 (negsuc n) = i128_mod - 1 - n % i128_mod

-- `if total > 0 { total as u64 } else { 0 }`
abbrev pub positive_as_u64 : ℕ → ℕ
positive_as_u64 total = if ltb 0 total && ltb total (2 ^ 127) then total % 2 ^ 64 else 0

abbrev pub Balances : Type 0 → Type 0
Balances A = List (A × ℕ)

module _ {A : Type 0} ⦃e : PartialEq A⦄ where
  unfoldable pub contains_key : Balances A → A → Bool
  contains_key [] account = false
  contains_key ((key, _) ∷ balances) account = key == account || contains_key balances account

  -- `entry(account).or_insert(0).add_assign(cost)`
  unfoldable pub add_cost : Balances A → A → ℕ → Balances A
  add_cost [] account cost = (account, cost % i128_mod) ∷ []
  add_cost ((key, balance) ∷ balances) account cost =
      if key == account
      then (key, add_i128 balance cost) ∷ balances
      else (key, balance) ∷ add_cost balances account cost

  -- The balances of our addresses at the start, without repetition.
  unfoldable pub at_zero : List A → Balances A
  unfolding contains_key
  at_zero [] = []
  at_zero (address ∷ addresses) =
      let rest = at_zero addresses in
      if contains_key rest address then rest else (address, 0) ∷ rest

  -- the sum of the values
  unfoldable pub total : Balances A → ℕ
  total [] = 0
  total ((_, balance) ∷ balances) = add_i128 balance (total balances)

  unfoldable pub us_sending : Balances A → A → A → Bool
  us_sending b account dest = contains_key b account && not (contains_key b dest)

  unfoldable pub us_receiving : Balances A → A → A → Bool
  us_receiving b account dest = not (contains_key b account) && contains_key b dest

  unfoldable pub charge_sent : A → A → ℕ → Balances A → Balances A
  unfolding us_sending
  charge_sent account dest value b =
      if us_sending b account dest then add_cost b account value else b

  unfoldable pub charge_received : A → A → ℕ → Balances A → Balances A
  unfolding us_receiving
  charge_received account dest value b =
      if us_receiving b account dest then add_cost b dest (sub_i128 0 value) else b

  unfoldable pub charge_value : A → Option A → ℕ → Balances A → Balances A
  charge_value account none value b = b
  charge_value account (some dest) value b =
      charge_received account dest value (charge_sent account dest value b)

module _ (parse : String → Option ℤ) where
  -- `unwrap_or("0").parse::<i128>().unwrap_or(0)`
  abbrev pub parse_or_zero : Option String → ℕ
  parse_or_zero none = elim (parse "0") [ none ↦ 0 | some n ↦ to_i128 n ]
  parse_or_zero (some text) = elim (parse text) [ none ↦ 0 | some n ↦ to_i128 n ]

module _ {A : Type 0} ⦃e : PartialEq A⦄ (parse : String → Option ℤ) where
  unfoldable pub charge_fee : Transaction A → TransactionMessage A → Balances A → Balances A
  charge_fee tx msg b =
      if contains_key b tx.account
      then add_cost b tx.account (parse_or_zero parse msg.fwd_fee)
      else b

  -- The inner loop of `cost`.
  unfoldable pub charge_msgs : Transaction A → List (TransactionMessage A) → Balances A → Balances A
  charge_msgs tx [] b = b
  charge_msgs tx (msg ∷ msgs) b = charge_msgs tx msgs (
      charge_value tx.account msg.destination (parse_or_zero parse msg.value) (charge_fee tx msg b))

  unfoldable pub charge_fees : Transaction A → Balances A → Balances A
  charge_fees tx b = if contains_key b tx.account then add_cost b tx.account tx.total_fees else b

  -- The outer loop of `cost`.
  unfoldable pub charge_txs : List (Transaction A) → Balances A → Balances A
  charge_txs [] b = b
  charge_txs (tx ∷ txs) b = charge_txs txs (charge_msgs tx tx.out_msgs (charge_fees tx b))

  unfoldable pub cost : List A → List (Transaction A) → ℕ
  cost our_addresses txs = total (charge_txs txs (at_zero our_addresses))

  unfoldable pub calc_message_gas : List A → List (Transaction A) → ℕ
  calc_message_gas our_addresses txs = positive_as_u64 (cost our_addresses txs)

  -- The value of the first message out of the third transaction, if there is one.
  unfoldable pub refund_value : List (Transaction A) → Option ℕ
  refund_value txs = elim (get_elem? txs 2) [
    | none ↦ none
    | some tx ↦ elim (get_elem? tx.out_msgs 0) [
      | none ↦ none
      | some msg ↦ some (elim msg.value [ none ↦ 0 | some text ↦ parse_or_zero parse (some text) ])
    ]
  ]

  unfoldable pub calc_message_gas_native_gas_refunded : List A → List (Transaction A) → ℕ
  unfolding refund_value
  calc_message_gas_native_gas_refunded our_addresses txs = elim (refund_value txs) [
    | none ↦ 0
    | some refund ↦ positive_as_u64 (sub_i128 (cost our_addresses txs) refund)
  ]
