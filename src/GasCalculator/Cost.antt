-- ===== src/GasCalculator/Cost.antt =====
-- What the gas calculator computes, said without balances.
use axelar_relayer_ton.Prelude.{
  ℕ, ◌+◌, ◌%◌, ◌<◌, ◌≡◌, ◌∙◌, String, true, Option, none, some, List, [], ◌∷◌, arith, PartialEq,
  Bool-cases, inl, inr, if◌then◌else◌,
}
use axelar_relayer_ton.Prelude.Int.{ℤ}
use axelar_relayer_ton.Types.{Transaction, TransactionMessage}
use axelar_relayer_ton.GasCalculator.{
  Balances, i128_mod, sub_i128, contains_key, add_cost, at_zero, total, parse_or_zero, charge_fee,
  charge_sent, charge_received, charge_value, charge_msgs, charge_fees, charge_txs, cost,
  us_sending, us_receiving,
}
use axelar_relayer_ton.GasCalculator.Balances.{
  member, contains_key-add_cost, total-add_cost, contains_key-at_zero, total-at_zero,
}

module _ {A : Type 0} ⦃e : PartialEq A⦄ (ours : List A) where
  -- A transfer between us and others counts, to others as a cost and from them as an income. One
  -- among us, or among others, does not.
  pub value_share : A → Option A → ℕ → ℕ
  value_share account none value = 0
  value_share account (some dest) value =
      if member account ours
      then (if member dest ours then 0 else value)
      else (if member dest ours then sub_i128 0 value else 0)

  -- The balances have the keys that the calculator starts from.
  record HasKeys (b : Balances A) : Type 0 where
    at : (x : A) → contains_key b x ≡ member x ours

  -- A step adds `share` to the total and leaves the keys alone.
  record Adds (share : ℕ) (b b' : Balances A) : Type 0 where
    keys : HasKeys b'
    sum : total b' % i128_mod ≡ (total b + share) % i128_mod

  Adds-none : (b : Balances A) → HasKeys b → Adds 0 b b
  Adds-none b k = record { keys = k; sum = omega arith }

  Adds-add_cost :
      (b : Balances A) (account : A) (c : ℕ)
      → HasKeys b
      → contains_key b account ≡ true
      → Adds c b (add_cost b account c)
  Adds-add_cost b account c k h = record {
    keys = record { at = λ x. contains_key-add_cost b account c x h ∙ k.at x };
    sum = omega (arith, total-add_cost b account c h);
  }

  Adds-trans : (m n : ℕ) (b b' b'' : Balances A) → Adds m b b' → Adds n b' b'' → Adds (m + n) b b''
  Adds-trans m n b b' b'' p q = record { keys = q.keys; sum = omega (arith, p.sum, q.sum) }

  -- A cost for an account that is added if it is one of ours.
  Adds-if_ours :
      (b : Balances A) (account : A) (c : ℕ)
      → HasKeys b
      → Adds
          (if member account ours then c else 0)
          b
          (if contains_key b account then add_cost b account c else b)
  Adds-if_ours b account c k = elim (Bool-cases (contains_key b account)) [
    | inl h ↦ rw (h, ← k.at account, h) (Adds-add_cost b account c k h)
    | inr h ↦ rw (h, ← k.at account, h) (Adds-none b k)
  ]

  Adds-value :
      (b : Balances A) (account : A) (dest : Option A) (value : ℕ)
      → HasKeys b
      → Adds (value_share account dest value) b (charge_value account dest value b)
  unfolding charge_value charge_received charge_sent us_sending us_receiving value_share
  Adds-value b account none value k = Adds-none b k
  Adds-value b account (some dest) value k = elim (Bool-cases (member account ours)) [
    | inl us ↦
        let ka = k.at account ∙ us in
        elim (Bool-cases (member dest ours)) [
          | inl to_us ↦ simp (us, to_us, ka, k.at dest ∙ to_us) (Adds-none b k)
          | inr to_them ↦
              simp
                (
                  us,
                  to_them,
                  ka,
                  k.at dest ∙ to_them,
                  contains_key-add_cost b account value account ka ∙ ka,
                )
                (Adds-add_cost b account value k ka)
        ]
    | inr them ↦
        let ka = k.at account ∙ them in
        elim (Bool-cases (member dest ours)) [
          | inl to_us ↦
              let kd = k.at dest ∙ to_us in
              simp (them, to_us, ka, kd) (Adds-add_cost b dest (sub_i128 0 value) k kd)
          | inr to_them ↦ simp (them, to_them, ka, k.at dest ∙ to_them) (Adds-none b k)
        ]
  ]

module _ {A : Type 0} ⦃e : PartialEq A⦄ (parse : String → Option ℤ) (ours : List A) where
  -- The fee of a message of ours, and the share of its value.
  pub msg_share : Transaction A → TransactionMessage A → ℕ
  msg_share tx msg =
      (if member tx.account ours then parse_or_zero parse msg.fwd_fee else 0)
      + value_share ours tx.account msg.destination (parse_or_zero parse msg.value)

  pub msgs_share : Transaction A → List (TransactionMessage A) → ℕ
  msgs_share tx [] = 0
  msgs_share tx (msg ∷ msgs) = msg_share tx msg + msgs_share tx msgs

  pub txs_share : List (Transaction A) → ℕ
  txs_share [] = 0
  txs_share (tx ∷ txs) =
      (if member tx.account ours then tx.total_fees else 0)
      + msgs_share tx tx.out_msgs
      + txs_share txs

  Adds-msgs :
      (tx : Transaction A) (msgs : List (TransactionMessage A)) (b : Balances A)
      → HasKeys ours b
      → Adds ours (msgs_share tx msgs) b (charge_msgs parse tx msgs b)
  unfolding charge_msgs charge_fee msgs_share msg_share
  Adds-msgs tx [] b k = Adds-none ours b k
  Adds-msgs tx (msg ∷ msgs) b k =
      let fee = Adds-if_ours ours b tx.account (parse_or_zero parse msg.fwd_fee) k in
      let sent =
        Adds-value ours _ tx.account msg.destination (parse_or_zero parse msg.value) fee.keys in
      Adds-trans ours _ _ _ _ _ (Adds-trans ours _ _ _ _ _ fee sent) (Adds-msgs tx msgs _ sent.keys)

  Adds-txs :
      (txs : List (Transaction A)) (b : Balances A)
      → HasKeys ours b
      → Adds ours (txs_share txs) b (charge_txs parse txs b)
  unfolding charge_txs charge_fees txs_share
  Adds-txs [] b k = Adds-none ours b k
  Adds-txs (tx ∷ txs) b k =
      let fees = Adds-if_ours ours b tx.account tx.total_fees k in
      let msgs = Adds-msgs tx tx.out_msgs _ fees.keys in
      Adds-trans ours _ _ _ _ _ (Adds-trans ours _ _ _ _ _ fees msgs) (Adds-txs txs _ msgs.keys)

  total-lt : (b : Balances A) → total b < i128_mod
  unfolding total
  total-lt [] = omega arith
  total-lt ((k, v) ∷ b) = omega arith

  -- The cost is the sum, modulo 2 ^ 128, of the fees of our transactions, the forward fees of our
  -- messages and the values that we send to others, less the values that others send to us. What
  -- one of our addresses sends to another counts for nothing.
  pub cost-txs_share : (txs : List (Transaction A)) → cost parse ours txs ≡ txs_share txs % i128_mod
  unfolding cost
  cost-txs_share txs = omega (
    arith,
    (Adds-txs txs (at_zero ours) (record { at = contains_key-at_zero ours })).sum,
    total-at_zero ours,
    total-lt (charge_txs parse txs (at_zero ours)),
  )
