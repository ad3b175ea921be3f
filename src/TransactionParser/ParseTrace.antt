-- ===== src/TransactionParser/ParseTrace.antt =====
-- `parse_trace` of src/transaction_parser/parser.rs as a whole: where its events come from.
use axelar_relayer_ton.Prelude.{
  ℕ, String, List, [], ◌∷◌, ◌≡◌, ok, ◌>>=◌, >>=-eq-ok, Ensures, returns, Ensures->>=, Ensures-eq-ok,
  All,
}
use axelar_relayer_ton.Externals.{Externals}
use axelar_relayer_ton.Types.{Trace, Transaction}
use axelar_relayer_ton.GmpTypes.{
  Event, gas_credit, gas_refunded, message_approved, message_executed, call,
  cannot_execute_message_v2, its_interchain_transfer, its_link_token_started,
  its_interchain_token_deployment_started, its_token_metadata_registered, signers_rotated,
}
use axelar_relayer_ton.TransactionParser.Creation.{TraceParser, create_parsers}
use axelar_relayer_ton.TransactionParser.Assembly.{
  convert_payment, adjust, add_gas_used_and_convert, events_of, parse_trace,
}
use axelar_relayer_ton.TransactionParser.Genuine.{IsGenuine}
use axelar_relayer_ton.TransactionParser.Collection.{
  SendsFirst, create_parsers-AllOwn, create_parsers-ok-AllOwn,
}
use axelar_relayer_ton.TransactionParser.Events.{events_of-Genuine}

module _ (lib : Externals) (tp : TraceParser lib.Address) where
  open lib use {Address}

  module _ (txs : List (Transaction Address)) (total refund count : ℕ) where
    adjust-IsGenuine :
        (e e' : Event)
        → IsGenuine tp txs e
        → adjust lib total refund count e ≡ ok e'
        → IsGenuine tp txs e'
    unfolding adjust
    adjust-IsGenuine (gas_credit common id refund_address payment) e' h k =
        let (paid, _, same) = >>=-eq-ok (convert_payment lib payment) _ k in
        Ensures-eq-ok {P = IsGenuine tp txs} (returns h) same
    adjust-IsGenuine (message_approved common msg cost) e' h k =
        Ensures-eq-ok {P = IsGenuine tp txs} (returns h) k
    adjust-IsGenuine (message_executed common id source_chain status cost) e' h k =
        Ensures-eq-ok {P = IsGenuine tp txs} (returns h) k
    adjust-IsGenuine (gas_refunded common id recipient refunded cost) e' h k =
        Ensures-eq-ok {P = IsGenuine tp txs} (returns h) k
    adjust-IsGenuine (call a b c d) e' h k = Ensures-eq-ok {P = IsGenuine tp txs} (returns h) k
    adjust-IsGenuine (cannot_execute_message_v2 _ _ _ _ _) e' h k =
        Ensures-eq-ok {P = IsGenuine tp txs} (returns h) k
    adjust-IsGenuine (its_interchain_transfer _ _ _ _ _ _ _) e' h k =
        Ensures-eq-ok {P = IsGenuine tp txs} (returns h) k
    adjust-IsGenuine (its_link_token_started _ _ _ _ _ _ _) e' h k =
        Ensures-eq-ok {P = IsGenuine tp txs} (returns h) k
    adjust-IsGenuine (its_interchain_token_deployment_started _ _ _ _) e' h k =
        Ensures-eq-ok {P = IsGenuine tp txs} (returns h) k
    adjust-IsGenuine (its_token_metadata_registered _ _ _ _) e' h k =
        Ensures-eq-ok {P = IsGenuine tp txs} (returns h) k
    adjust-IsGenuine (signers_rotated _ _) e' h k =
        Ensures-eq-ok {P = IsGenuine tp txs} (returns h) k

    add_gas_used_and_convert-IsGenuine :
        (es es' : List Event)
        → All (IsGenuine tp txs) es
        → add_gas_used_and_convert lib total refund count es ≡ ok es'
        → All (IsGenuine tp txs) es'
    unfolding add_gas_used_and_convert
    add_gas_used_and_convert-IsGenuine [] es' h k =
        Ensures-eq-ok {P = All (IsGenuine tp txs)} (returns tt) k
    add_gas_used_and_convert-IsGenuine (e ∷ es) es' h k =
        let (adjusted, e_eq, k1) = >>=-eq-ok (adjust lib total refund count e) _ k in
        let (rest, rest_eq, k2) =
          >>=-eq-ok (add_gas_used_and_convert lib total refund count es) _ k1 in
        Ensures-eq-ok {P = All (IsGenuine tp txs)}
          (returns (
            adjust-IsGenuine e adjusted h.0 e_eq,
            add_gas_used_and_convert-IsGenuine es rest h.1 rest_eq,
          ))
          k2

  -- Every event that `parse_trace` returns, except those of the type `CannotExecuteMessageV2`, names
  -- a transaction of the trace whose account is the contract that its type belongs to: the gateway
  -- for calls, approvals, executions and signer rotations, the gas service for credits and refunds,
  -- the ITS for the rest.
  pub parse_trace-IsGenuine :
      (now : String) (trace : Trace Address) (events : List Event)
      → parse_trace lib tp now trace ≡ ok events
      → All (IsGenuine tp trace.transactions) events
  unfolding parse_trace
  parse_trace-IsGenuine now trace events h =
      let (c, c_eq, h1) = >>=-eq-ok (create_parsers lib tp trace) _ h in
      let (pushed, pushed_eq, h2) = >>=-eq-ok (events_of lib tp.chain_name now c) _ h1 in
      add_gas_used_and_convert-IsGenuine trace.transactions _ _ _ pushed events
        (Ensures-eq-ok
          (events_of-Genuine lib tp trace.transactions now c
            (create_parsers-ok-AllOwn lib tp trace c c_eq))
          pushed_eq)
        h2

  -- If the first transaction of a trace sends a message, neither `create_parsers` nor the three loops
  -- that build the events panic: no index is out of bounds, and no `unimplemented!()` is reached.
  pub parse_trace-no_panic :
      (now : String) (trace : Trace Address)
      → SendsFirst trace
      → Ensures
          (λ events. All (IsGenuine tp trace.transactions) events)
          (create_parsers lib tp trace >>= events_of lib tp.chain_name now)
  parse_trace-no_panic now trace sends =
      Ensures->>= (create_parsers lib tp trace) _ (create_parsers-AllOwn lib tp trace sends)
        (events_of-Genuine lib tp trace.transactions now)
