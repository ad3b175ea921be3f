-- ===== src/Broadcaster/Requests.antt =====
-- src/broadcaster.rs: the requests that a broadcaster serves, one after the other.
use axelar_relayer_ton.Prelude.{String, List, [], ◌∷◌}
use axelar_relayer_ton.Externals.{Externals}
use axelar_relayer_ton.Broadcaster.{Surroundings, State, TonBroadcaster}
use axelar_relayer_ton.Broadcaster.Handlers.{
  ExecuteTaskFields, RefundTaskFields, broadcast_prover_message, broadcast_execute_message,
  broadcast_refund_message,
}

pub data Request : Type 0 where
  prover_message : String → Request
  execute_message : ExecuteTaskFields → Request
  refund_message : RefundTaskFields → Request

module _ (lib : Externals) (b : TonBroadcaster lib) where
  -- The state after a request.
  abbrev pub served : Surroundings → Request → State → State
  served around (prover_message tx_blob) s = (broadcast_prover_message lib b around tx_blob s).1
  served around (execute_message task) s = (broadcast_execute_message lib b around task s).1
  served around (refund_message task) s = (broadcast_refund_message lib b around task s).1

  abbrev pub serve_all : List (Surroundings × Request) → State → State
  serve_all [] s = s
  serve_all ((around, request) ∷ requests) s = serve_all requests (served around request s)
