-- ===== src/TransactionParser/LogPosition.antt =====
-- `is_log_emitted` of src/transaction_parser/common.rs: the position of a log.
use axelar_relayer_ton.Prelude.{
  ℕ, suc, ◌+◌, Bool, true, false, ◌&&◌, List, [], ◌∷◌, ◌++◌, ◌≡◌, refl, sym, subst, ap, ◌∙◌, ◌⊎◌,
  inl, inr, Bool-cases, All, length, arith,
}
use axelar_relayer_ton.Prelude.Int.{ℤ, pos, negsuc}
use axelar_relayer_ton.Types.{Transaction, TransactionMessage}
use axelar_relayer_ton.TransactionParser.Common.{
  is_none, opcode_is, is_log_emitted, is_log_emitted_from,
}

module _ {A : Type 0} (op_code : ℕ) where
  -- A message to no destination, with the op code.
  abbrev pub log_test : TransactionMessage A → Bool
  log_test msg = is_none msg.destination && opcode_is msg.opcode op_code

  -- The position `at` is that of the first log in the messages, counted from `k`, or -1 if there is
  -- none.
  abbrev pub FirstLog : ℕ → List (TransactionMessage A) → ℤ → Type 0
  FirstLog k msgs at =
      ((front : List (TransactionMessage A)) × (msg : TransactionMessage A) × (back : List
          (TransactionMessage A))
        × (msgs ≡ front ++ msg ∷ back)
        × All (λ m. log_test m ≡ false) front
        × (log_test msg ≡ true)
        × (at ≡ pos (k + length front)))
      ⊎ (All (λ m. log_test m ≡ false) msgs × (at ≡ negsuc 0))

  later_FirstLog :
      (k : ℕ) (msg : TransactionMessage A) (msgs : List (TransactionMessage A)) (at : ℤ)
      → log_test msg ≡ false
      → FirstLog (suc k) msgs at
      → FirstLog k (msg ∷ msgs) at
  later_FirstLog k msg msgs at not_it (inl (front, m, back, split, none_before, it, at_eq)) = inl (
    msg ∷ front,
    m,
    back,
    ap (λ ms. msg ∷ ms) split,
    (not_it, none_before),
    it,
    at_eq ∙ ap pos (omega arith),
  )
  later_FirstLog k msg msgs at not_it (inr (none_at_all, at_eq)) =
      inr ((not_it, none_at_all), at_eq)

  hit :
      (k : ℕ) (msg : TransactionMessage A) (msgs : List (TransactionMessage A))
      → log_test msg ≡ true
      → is_log_emitted_from k (msg ∷ msgs) op_code ≡ pos k
  unfolding is_log_emitted_from
  hit k msg msgs it = rw it

  miss :
      (k : ℕ) (msg : TransactionMessage A) (msgs : List (TransactionMessage A))
      → log_test msg ≡ false
      → is_log_emitted_from k (msg ∷ msgs) op_code ≡ is_log_emitted_from (suc k) msgs op_code
  unfolding is_log_emitted_from
  miss k msg msgs not_it = rw not_it

  is_log_emitted_from-FirstLog :
      (k : ℕ) (msgs : List (TransactionMessage A))
      → FirstLog k msgs (is_log_emitted_from k msgs op_code)
  unfolding is_log_emitted_from
  is_log_emitted_from-FirstLog k [] = inr (tt, refl)
  is_log_emitted_from-FirstLog k (msg ∷ msgs) = elim (Bool-cases (log_test msg)) [
    | inl it ↦ inl ([], msg, msgs, refl, tt, it, hit k msg msgs it ∙ ap pos (omega arith))
    | inr not_it ↦
        subst (FirstLog k (msg ∷ msgs)) (sym (miss k msg msgs not_it))
          (later_FirstLog k msg msgs _ not_it (is_log_emitted_from-FirstLog (suc k) msgs))
  ]

  -- `is_log_emitted` returns the position of the first outgoing message that has no destination and has
  -- the op code, and -1 if no outgoing message is such a one.
  pub is_log_emitted-FirstLog :
      (tx : Transaction A) → FirstLog 0 tx.out_msgs (is_log_emitted tx op_code)
  unfolding is_log_emitted
  is_log_emitted-FirstLog tx = is_log_emitted_from-FirstLog 0 tx.out_msgs
