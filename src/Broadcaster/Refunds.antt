-- ===== src/Broadcaster/Refunds.antt =====
-- src/broadcaster.rs: what a refund sends, and what it says of a sending that failed.
use axelar_relayer_ton.Prelude.{
  ℕ, ◌+◌, ◌-◌, String, ◌⊎◌, inl, inr, Option, none, some, List, ◌≡◌, refl, Outcome, ok, err, panic,
  ◌>>=◌, Ensures, returns, fails, Ensures-eq-ok, Ensures-panic, Bool-cases, ltb, arith,
}
use axelar_relayer_ton.Externals.{Externals}
use axelar_relayer_ton.Types.{BocError, lift_err, append}
use axelar_relayer_ton.GasEstimator.{native_gas_refund_estimate}
use axelar_relayer_ton.Boc.NativeRefund
use axelar_relayer_ton.Boc.NoPanic.{Returns}
use axelar_relayer_ton.Boc.WriteNoPanic.{native_refund-Returns}
use axelar_relayer_ton.Broadcaster.{BroadcasterError, generic_error, TonBroadcaster, Surroundings}
use axelar_relayer_ton.Broadcaster.Handlers.{
  RefundTaskFields, refund, native_refund, native_only, refund_amount, refund_text, serialized,
  generic,
}

module _ (lib : Externals) (b : TonBroadcaster lib) (around : Surroundings) where
  native_only-eq-ok :
      (token : Option String) (r : Outcome BroadcasterError String) (boc : String)
      → native_only lib b around token r ≡ ok boc
      → (token ≡ none) × (r ≡ ok boc)
  native_only-eq-ok none r boc h = (refl, h)
  native_only-eq-ok (some _) r boc h = cc

  -- What the message of a refund says: the recipient and the amount.
  pub record Refunds (task : RefundTaskFields) (boc : String) : Type 0 where
    pub original : ℕ
    pub message : NativeRefund.NativeRefundMessage lib
    pub cell : lib.Cell
    pub token : task.remaining_gas_balance.token_id ≡ none
    pub remaining : lib.parse_biguint task.remaining_gas_balance.amount ≡ inr original
    pub paid : message.amount + native_gas_refund_estimate b.gas_estimates ≡ original
    pub recipient : lib.address_from_hex_str task.refund_recipient_address ≡ inr message.address
    pub built : NativeRefund.to_cell lib message ≡ ok cell
    pub serialized : lib.to_boc_hex cell ≡ inr boc

  serialized-Refunds :
      (task : RefundTaskFields) (original : ℕ) (message : NativeRefund.NativeRefundMessage lib)
      (cell : Outcome BocError lib.Cell)
      → task.remaining_gas_balance.token_id ≡ none
      → lib.parse_biguint task.remaining_gas_balance.amount ≡ inr original
      → message.amount + native_gas_refund_estimate b.gas_estimates ≡ original
      → lib.address_from_hex_str task.refund_recipient_address ≡ inr message.address
      → NativeRefund.to_cell lib message ≡ cell
      → Returns cell
      → Ensures (Refunds task) (generic cell >>= λ c. serialized lib b around c)
  serialized-Refunds task original message (err e) token remaining paid recipient built h = fails
  serialized-Refunds task original message panic token remaining paid recipient built h =
      absurd (Ensures-panic h)
  serialized-Refunds task original message (ok cell) token remaining paid recipient built h =
      hex (lib.to_boc_hex cell) refl
    where
      hex :
          (o : String ⊎ String)
          → lib.to_boc_hex cell ≡ o
          → Ensures (Refunds task) (
              lift_err
                (λ e. generic_error (append "Failed to serialize relayer execute message: " e))
                o)
      hex (inl e) at = fails
      hex (inr boc) at = returns (record {
        original = original;
        message = message;
        cell = cell;
        token = token;
        remaining = remaining;
        paid = paid;
        recipient = recipient;
        built = built;
        serialized = at;
      })

  read-Refunds :
      (task : RefundTaskFields) (tx_hash : String ⊎ List ℕ) (address : String ⊎ lib.Address)
      (original : String ⊎ ℕ)
      → task.remaining_gas_balance.token_id ≡ none
      → lib.address_from_hex_str task.refund_recipient_address ≡ address
      → lib.parse_biguint task.remaining_gas_balance.amount ≡ original
      → Ensures (Refunds task) (
          lift_err generic_error tx_hash >>= λ h. lift_err generic_error address >>= λ a.
          lift_err generic_error original >>= λ n.
          refund_amount lib b around n (native_gas_refund_estimate b.gas_estimates) >>= λ amount.
          refund_text lib b around h a amount)
  unfolding refund_amount refund_text
  read-Refunds task (inl e) address original token recipient remaining = fails
  read-Refunds task (inr h) (inl e) original token recipient remaining = fails
  read-Refunds task (inr h) (inr a) (inl e) token recipient remaining = fails
  read-Refunds task (inr h) (inr a) (inr n) token recipient remaining =
      let g = native_gas_refund_estimate b.gas_estimates in
      elim (Bool-cases (ltb n g)) [
        | inl less ↦ rw less fails
        | inr enough ↦ rw enough (
            let m : NativeRefund.NativeRefundMessage lib = record {
              tx_hash = h;
              address = a;
              amount = n - g;
            } in
            let exact : n - g + g ≡ n = ground arith in
            serialized-Refunds task n m (NativeRefund.to_cell lib m) token remaining exact recipient
              refl (native_refund-Returns lib m))
      ]

  -- The message that a refund sends pays the recipient of the task the whole remaining balance less the
  -- estimate of the gas, to the last unit, and only for a balance in the native coin; where the balance
  -- does not cover the estimate there is no message.
  pub refund-Refunds :
      (task : RefundTaskFields) (boc : String)
      → refund lib b around task ≡ ok boc
      → Refunds task boc
  unfolding refund native_refund
  refund-Refunds task boc h =
      let (token, h') =
        native_only-eq-ok task.remaining_gas_balance.token_id (native_refund lib b around task) boc
          h in
      Ensures-eq-ok (read-Refunds task _ _ _ token refl refl) h'
