-- ===== src/Broadcaster/LocksLeft.antt =====
-- src/broadcaster.rs: every request ends, and none leaves a lock.
use axelar_relayer_ton.Prelude.{
  ℕ, String, false, ltb, Option, none, some, List, ◌≡◌, returns, fails, string_eq,
}
use axelar_relayer_ton.Externals.{Externals}
use axelar_relayer_ton.TonWalletHighLoadV3.{TonWalletHighLoadV3}
use axelar_relayer_ton.Boc.NoPanic.{Returns, Returns-if}
use axelar_relayer_ton.Boc.WriteNoPanic.{
  steps, Returns-map_err, native_refund-Returns, relayer_execute-Returns, approve_messages-Returns,
}
use axelar_relayer_ton.Broadcaster.{TonBroadcaster, Surroundings}
use axelar_relayer_ton.Broadcaster.Release.{
  Leaves, Leaves-then_act, Leaves-if, Leaves-with_wallet, Inner-then_act, Inner-sending,
  Inner-reported, Inner-hash_or_empty,
}
use axelar_relayer_ton.Broadcaster.NoPanic.{out_action-Returns}
use axelar_relayer_ton.Broadcaster.Handlers.{
  ExecuteTaskFields, RefundTaskFields, approval, native_refund, native_only, refund_text, decoded,
  execution, refund, refund_amount, lacks_gas, broadcast_prover_message, broadcast_execute_message,
  broadcast_refund_message,
}

module _ (lib : Externals) (b : TonBroadcaster lib) (around : Surroundings) where
  approval-Returns : (tx_blob : String) → Returns (approval lib b around tx_blob)
  unfolding approval
  approval-Returns tx_blob = search (steps, approve_messages-Returns, out_action-Returns) depth 12

  decoded-Returns : (task : ExecuteTaskFields) → Returns (decoded lib b around task)
  unfolding decoded
  decoded-Returns task = search (steps) depth 12

  execution-Returns :
      (task : ExecuteTaskFields) (read : lib.Address × List ℕ)
      (wallet : TonWalletHighLoadV3 lib.Address)
      → Returns (execution lib b around task read wallet)
  unfolding execution
  execution-Returns task read wallet =
      search (steps, relayer_execute-Returns, out_action-Returns) depth 12

  refund_amount-Returns :
      (original gas_estimate : ℕ) → Returns (refund_amount lib b around original gas_estimate)
  unfolding refund_amount
  refund_amount-Returns original gas_estimate =
      Returns-if (ltb original gas_estimate) _ _ fails (returns tt)

  refund-Returns : (task : RefundTaskFields) → Returns (refund lib b around task)
  unfolding refund native_refund refund_text
  refund-Returns task = refunded task.remaining_gas_balance.token_id
    where
      refunded :
          (token : Option String)
          → Returns (native_only lib b around token (native_refund lib b around task))
      refunded none = search (steps, native_refund-Returns, refund_amount-Returns) depth 20
      refunded (some _) = fails

  module _ (works : (key : String) → around.release_at.fails key ≡ false) where
    prover_message-Leaves :
        (tx_blob : String) → Leaves (broadcast_prover_message lib b around tx_blob)
    unfolding broadcast_prover_message
    prover_message-Leaves tx_blob =
        Leaves-then_act _ _ (approval-Returns tx_blob) λ (message, action).
          Leaves-with_wallet lib b around works _
            λ wallet. Inner-reported lib b around _ _ _ (Inner-sending lib b around wallet action)

    execute_message-Leaves :
        (task : ExecuteTaskFields) → Leaves (broadcast_execute_message lib b around task)
    unfolding broadcast_execute_message
    execute_message-Leaves task = Leaves-then_act _ _ (decoded-Returns task) λ read.
        Leaves-if (lacks_gas lib b around task read.1) _ _ (returns tt) (
          Leaves-with_wallet lib b around works _ λ wallet.
            Inner-then_act _ _ (execution-Returns task read wallet) λ action.
              Inner-reported lib b around _ _ _ (Inner-sending lib b around wallet action))

    refund_message-Leaves :
        (task : RefundTaskFields) → Leaves (broadcast_refund_message lib b around task)
    unfolding broadcast_refund_message
    refund_message-Leaves task = Leaves-then_act _ _ (refund-Returns task) λ boc.
        Leaves-with_wallet lib b around works _ λ wallet.
          Inner-then_act _ _ (Returns-map_err _ _ (out_action-Returns lib _ _ _))
            λ action. Inner-hash_or_empty lib b around _ (Inner-sending lib b around wallet action)

-- Every request ends with a result or an error, never with a panic, and if the lock store executes the
-- release, the request leaves every lock as it was or free: whichever wallet it acquired is free again,
-- on every path through the request.
pub requests_leave_no_lock :
    (lib : Externals) (b : TonBroadcaster lib) (around : Surroundings)
    → ((key : String) → around.release_at.fails key ≡ false)
    → ((tx_blob : String) → Leaves (broadcast_prover_message lib b around tx_blob))
      × ((task : ExecuteTaskFields) → Leaves (broadcast_execute_message lib b around task))
      × ((task : RefundTaskFields) → Leaves (broadcast_refund_message lib b around task))
requests_leave_no_lock lib b around works = (
  prover_message-Leaves lib b around works,
  execute_message-Leaves lib b around works,
  refund_message-Leaves lib b around works,
)
