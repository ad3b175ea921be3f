-- ===== src/GasCalculator/Balances.antt =====
-- The balances: an added cost changes the total by as much, and no key.
use axelar_relayer_ton.Prelude.{
  ℕ, ◌≡◌, refl, Bool, true, false, ◌||◌, List, [], ◌∷◌, arith, PartialEq, ◌==◌, ==_iff,
}
use axelar_relayer_ton.GasCalculator.{Balances, add_i128, contains_key, add_cost, at_zero, total}

module _ {A : Type 0} ⦃e : PartialEq A⦄ where
  pub member : A → List A → Bool
  member x [] = false
  member x (a ∷ as') = a == x || member x as'

  pub contains_key-add_cost :
      (b : Balances A) (account : A) (cost : ℕ) (x : A)
      → contains_key b account ≡ true
      → contains_key (add_cost b account cost) x ≡ contains_key b x
  unfolding contains_key add_cost
  contains_key-add_cost [] account cost x h = absurd (cc h)
  contains_key-add_cost ((k, v) ∷ b) account cost x h =
      ground (arith, contains_key-add_cost b account cost x)

  pub total-add_cost :
      (b : Balances A) (account : A) (cost : ℕ)
      → contains_key b account ≡ true
      → total (add_cost b account cost) ≡ add_i128 (total b) cost
  unfolding contains_key add_cost total
  total-add_cost [] account cost h = absurd (cc h)
  total-add_cost ((k, v) ∷ b) account cost h = ground (arith, total-add_cost b account cost)

  pub contains_key-at_zero : (ours : List A) (x : A) → contains_key (at_zero ours) x ≡ member x ours
  unfolding contains_key at_zero member
  contains_key-at_zero [] x = refl
  contains_key-at_zero (a ∷ ours) x =
      ground (arith, contains_key-at_zero ours x, contains_key-at_zero ours a, ==_iff a x)

  pub total-at_zero : (ours : List A) → total (at_zero ours) ≡ 0
  unfolding at_zero total
  total-at_zero [] = refl
  total-at_zero (a ∷ ours) = ground (arith, total-at_zero ours)
