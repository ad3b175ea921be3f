-- ===== src/Examples/Broadcasts.antt =====
-- src/broadcaster.rs at one wallet whose row shows the query id (1, 5), and a refund of 100.
use axelar_relayer_ton.Prelude.{
  ℕ, length, String, ◌⊎◌, inl, inr, false, none, some, [], ◌∷◌, ◌≡◌, refl, ok, err, if◌then◌else◌,
  ◌==◌, string_eq, arith, contains,
}
use axelar_relayer_ton.Prelude.Int.{pos}
use axelar_relayer_ton.Externals.{OutAction}
use axelar_relayer_ton.GasEstimator.{GasEstimates, native_gas_refund_estimate, highload_wallet_send}
use axelar_relayer_ton.TonWalletQueryId.{Table, get_query_id, update_query_id, upsert_query_id}
use axelar_relayer_ton.HighLoadQueryId.{query_id}
use axelar_relayer_ton.HighLoadQueryIdDbWrapper.{next, chosen, choose, increase_shift, store}
use axelar_relayer_ton.WalletManager.{acquire}
use axelar_relayer_ton.OutAction.{out_action}
use axelar_relayer_ton.Boc.NativeRefund
use axelar_relayer_ton.LockManager.{Locks, lock, set_key}
use axelar_relayer_ton.TonWalletHighLoadV3.{TonWalletHighLoadV3, outgoing_message}
use axelar_relayer_ton.Broadcaster.{
  Surroundings, State, TonBroadcaster, rpc_call_failed, message_boc, post_once, send_again,
  send_to_chain, with_wallet,
}
use axelar_relayer_ton.Client.{V3MessageResponse}
use axelar_relayer_ton.Broadcaster.Handlers.{
  ExecuteTaskFields, RefundTaskFields, refund, native_refund, refund_amount, refund_text,
  broadcast_prover_message, broadcast_execute_message, broadcast_refund_message,
}
use axelar_relayer_ton.Broadcaster.Release.{Leaves}
use axelar_relayer_ton.Broadcaster.LocksLeft.{requests_leave_no_lock}
use axelar_relayer_ton.Broadcaster.Requests.{refund_message, serve_all}
use axelar_relayer_ton.Broadcaster.Sends.{Sent, send_to_chain-Sent}
use axelar_relayer_ton.Broadcaster.FreshIds.{Fresh}
use axelar_relayer_ton.Broadcaster.Replay.{serve_all-Fresh}
use axelar_relayer_ton.Broadcaster.Refunds.{Refunds, refund-Refunds}
use axelar_relayer_ton.Broadcaster.Funded.{Funded, broadcast_execute_message-Funded}
use axelar_relayer_ton.Examples.Library.{library, TestCell, zeros}

abbrev estimates : GasEstimates
estimates = record {
  native_gas_refund = 20;
  native_gas_refund_storage_slippage = 10;
  execute_send_min = 5;
  execute_base = 1;
  execute_payload = 1;
  execute_storage_slippage = 1;
  approve_send = 50;
  highload_wallet_send = 2;
  its_execute_minimum = 3;
}

abbrev wallet : TonWalletHighLoadV3 ℕ
wallet = record {
  address = 5;
  key_pair = record { public_key = []; secret_key = [] };
  subwallet_id = 1;
  timeout = 60;
}

abbrev broadcaster : TonBroadcaster library
broadcaster = record {
  wallets = wallet ∷ [];
  gateway_address = 1;
  gas_service_address = 2;
  chain_name = "ton2";
  gas_estimates = estimates;
}

-- The node answers every post with this.
abbrev answering : String ⊎ V3MessageResponse → Surroundings
answering answer = record {
  attempt = λ _. record {
    read_at = pos 10;
    write_at = pos 11;
    fails = λ _. false;
    carried_out = λ _. false;
    now = 1000;
    answer = λ _. answer;
  };
  acquire_at = record { now = 10; fails = λ _. false };
  release_at = record { now = 20; fails = λ _. false };
}

abbrev accepting : Surroundings
accepting = answering (inr (record { message_hash = "hash"; message_hash_norm = "norm" }))

abbrev row_table : Table
row_table key =
    if key == "wallet"
    then some (record { shift = pos 1; bitnumber = pos 5; expires_at = pos 190 })
    else none

abbrev idle : State
idle = record { tried = 0; table = row_table; locks = λ _. none; posts = [] }

abbrev idle-Fresh : Fresh "wallet" (pos 190) idle
idle-Fresh = record {
  last = record { shift = 1; bitnumber = 5 };
  row = record {
    row = refl;
    valid = record { shift_fits = omega arith; bitnumber_fits = omega arith };
  };
  decreasing = tt;
}

abbrev task : RefundTaskFields
task = record {
  message_id = "0x01";
  refund_recipient_address = "0:02";
  remaining_gas_balance = record { token_id = none; amount = "100" };
}

send_to_chain-Sent_example :
    Sent
      (answering (inl "THROWIF 36"))
      12
      idle
      (send_to_chain library broadcaster (answering (inl "THROWIF 36")) wallet [] none idle)
send_to_chain-Sent_example =
    send_to_chain-Sent library broadcaster (answering (inl "THROWIF 36")) wallet [] idle

serve_all-Fresh_example : Fresh "wallet" (pos 190) (
    serve_all library broadcaster
      ((answering (inl "THROWIF 36"), refund_message task) ∷ (accepting, refund_message task) ∷ [])
      idle)
serve_all-Fresh_example =
    serve_all-Fresh "wallet" (pos 190) library broadcaster
      ((answering (inl "THROWIF 36"), refund_message task) ∷ (accepting, refund_message task) ∷ [])
      idle (λ _. refl, (λ _. refl, tt)) idle-Fresh

requests_leave_no_lock_example :
    ((tx_blob : String) → Leaves (broadcast_prover_message library broadcaster accepting tx_blob))
    × ((t : ExecuteTaskFields) → Leaves (broadcast_execute_message library broadcaster accepting t))
    × ((t : RefundTaskFields) → Leaves (broadcast_refund_message library broadcaster accepting t))
requests_leave_no_lock_example = requests_leave_no_lock library broadcaster accepting (λ _. refl)

refund_of_task : (around : Surroundings) → refund library broadcaster around task ≡ ok "call"
unfolding refund native_refund refund_amount refund_text NativeRefund.to_cell
    native_gas_refund_estimate
refund_of_task around = refl

refund-Refunds_example : Refunds library broadcaster accepting task "call"
refund-Refunds_example =
    refund-Refunds library broadcaster accepting task "call" (refund_of_task accepting)

abbrev closed : Surroundings
closed = answering (inl "connection closed")

abbrev locked : Locks
locked = set_key "wallet" (some 70) (λ _. none)

abbrev action : OutAction TestCell
action = record { mode = 2; out_msg = (7 ∷ zeros 32, (101 ∷ []) ∷ (102 ∷ []) ∷ (1 ∷ 2 ∷ []) ∷ []) }

failed_sending :
    (send_to_chain library broadcaster closed wallet
      (action ∷ [])
      none
      (record idle { locks = locked })).0
    ≡ err (rpc_call_failed "connection closed")
unfolding send_to_chain send_again post_once message_boc contains outgoing_message
    highload_wallet_send next chosen choose increase_shift store get_query_id update_query_id
    upsert_query_id query_id
failed_sending = refl

-- The request drops that error.
refund_lost : (broadcast_refund_message library broadcaster closed task idle).0 ≡ ok ""
unfolding broadcast_refund_message with_wallet refund native_refund refund_amount refund_text
    NativeRefund.to_cell native_gas_refund_estimate acquire lock out_action send_to_chain send_again
    post_once message_boc contains outgoing_message highload_wallet_send next chosen choose
    increase_shift store get_query_id update_query_id upsert_query_id query_id
refund_lost = refl

-- A node that takes every query id for one that was executed gets twelve messages, and the sending is
-- an error.
abbrev refusing : Surroundings
refusing = record closed {
  attempt = λ n. record (closed.attempt n) { answer = λ boc. inl "THROWIF 36" };
}

twelve_posts :
    length
      (send_to_chain library broadcaster refusing wallet
        (action ∷ [])
        none
        (record idle { locks = locked })).1.posts
    ≡ 12
unfolding send_to_chain send_again post_once message_boc contains outgoing_message
    highload_wallet_send next chosen choose increase_shift store get_query_id update_query_id
    upsert_query_id query_id
twelve_posts = refl

abbrev funded_task : ExecuteTaskFields
funded_task = record {
  message_id = "0x01";
  source_chain = "chain";
  source_address = "source";
  destination_address = "0:02";
  payload = "AA==";
  available_gas_balance = record { token_id = none; amount = "100" };
}

broadcast_execute_message-Funded_example :
    ((broadcast_execute_message library broadcaster accepting funded_task idle).1 ≡ idle)
    ⊎ Funded library broadcaster accepting funded_task
broadcast_execute_message-Funded_example =
    broadcast_execute_message-Funded library broadcaster accepting funded_task idle
