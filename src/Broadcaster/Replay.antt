-- ===== src/Broadcaster/Replay.antt =====
-- src/broadcaster.rs: the query ids that a wallet posts over a history of requests.
use axelar_relayer_ton.Prelude.{
  String, Bool, true, false, List, [], ◌∷◌, refl, Outcome, ok, err, panic, All, if◌then◌else◌,
}
use axelar_relayer_ton.Prelude.Int.{ℤ}
use axelar_relayer_ton.Externals.{Externals}
use axelar_relayer_ton.LockManager.{Locks}
use axelar_relayer_ton.WalletManager.{WalletManagerError}
use axelar_relayer_ton.TonWalletHighLoadV3.{TonWalletHighLoadV3}
use axelar_relayer_ton.Broadcaster.{
  framed, BroadcasterError, Surroundings, State, Act, released, TonBroadcaster, with_wallet,
}
use axelar_relayer_ton.Client.{V3MessageResponse}
use axelar_relayer_ton.Broadcaster.Handlers.{
  ExecuteTaskFields, RefundTaskFields, reported, hash_or_empty, lacks_gas, broadcast_prover_message,
  broadcast_execute_message, broadcast_refund_message,
}
use axelar_relayer_ton.Broadcaster.Requests.{
  Request, prover_message, execute_message, refund_message, served, serve_all,
}
use axelar_relayer_ton.Broadcaster.FreshIds.{
  Fresh, ReadsBefore, Keeps, keeps, Keeps-at, Keeps-then_act, Fresh-locks, Keeps-send_to_chain,
}

module _ (key : String) (until : ℤ) (lib : Externals) (b : TonBroadcaster lib)
    (around : Surroundings) where
  Keeps-reported :
      (message_id source_chain : String) (act : Act V3MessageResponse)
      → Keeps key until act
      → Keeps key until (λ s. reported message_id source_chain (act s))
  Keeps-reported message_id source_chain act h =
      keeps (λ s f. result (act s) (Keeps-at key until h s f))
    where
      result :
          (r : Outcome BroadcasterError V3MessageResponse × State)
          → Fresh key until r.1
          → Fresh key until (reported message_id source_chain r).1
      result (ok response, s) f = f
      result (err e, s) f = f
      result (panic, s) f = f

  Keeps-hash_or_empty :
      (act : Act V3MessageResponse)
      → Keeps key until act
      → Keeps key until (λ s. hash_or_empty (act s))
  Keeps-hash_or_empty act h = keeps (λ s f. result (act s) (Keeps-at key until h s f))
    where
      result :
          (r : Outcome BroadcasterError V3MessageResponse × State)
          → Fresh key until r.1
          → Fresh key until (hash_or_empty r).1
      result (ok response, s) f = f
      result (err e, s) f = f
      result (panic, s) f = f

  released-Fresh :
      {R : Type 0} (wallet : TonWalletHighLoadV3 lib.Address)
      (r : Outcome BroadcasterError R × State)
      → Fresh key until r.1
      → Fresh key until (released lib around wallet r).1
  released-Fresh wallet (ok r, s) f = Fresh-locks key until s _ refl refl f
  released-Fresh wallet (err e, s) f = Fresh-locks key until s _ refl refl f
  released-Fresh wallet (panic, s) f = f

  framed-Fresh :
      {R : Type 0} (body : TonWalletHighLoadV3 lib.Address → Act R)
      (acquired : Outcome WalletManagerError (TonWalletHighLoadV3 lib.Address) × Locks) (s : State)
      → ((wallet : TonWalletHighLoadV3 lib.Address) → Keeps key until (body wallet))
      → Fresh key until s
      → Fresh key until (framed lib around body acquired s).1
  framed-Fresh body (ok w, locks) s h f = released-Fresh w _ (
      Keeps-at key until (h w) (record s { locks = locks }) (Fresh-locks key until s _ refl refl f))
  framed-Fresh body (err e, locks) s h f = Fresh-locks key until s _ refl refl f
  framed-Fresh body (panic, locks) s h f = Fresh-locks key until s _ refl refl f

  Keeps-with_wallet :
      {R : Type 0} (body : TonWalletHighLoadV3 lib.Address → Act R)
      → ((wallet : TonWalletHighLoadV3 lib.Address) → Keeps key until (body wallet))
      → Keeps key until (with_wallet lib b around body)
  unfolding with_wallet
  Keeps-with_wallet body h = keeps (λ s f. framed-Fresh body _ s h f)

  Keeps-if :
      {R : Type 0} (test : Bool) (act act' : Act R)
      → Keeps key until act
      → Keeps key until act'
      → Keeps key until (λ s. if test then act s else act' s)
  Keeps-if true act act' h h' = h
  Keeps-if false act act' h h' = h'

  Keeps-nothing : {R : Type 0} (r : Outcome BroadcasterError R) → Keeps key until (λ s. (r, s))
  Keeps-nothing r = keeps (λ s f. f)

  module _ (before : ReadsBefore until around) where
    Keeps-prover_message :
        (tx_blob : String) → Keeps key until (broadcast_prover_message lib b around tx_blob)
    unfolding broadcast_prover_message
    Keeps-prover_message tx_blob = Keeps-then_act key until _ _ λ (message, action).
        Keeps-with_wallet _ λ wallet.
          Keeps-reported _ _ _
            (Keeps-send_to_chain key until lib b around before wallet (action ∷ []))

    Keeps-execute_message :
        (task : ExecuteTaskFields) → Keeps key until (broadcast_execute_message lib b around task)
    unfolding broadcast_execute_message
    Keeps-execute_message task = Keeps-then_act key until _ _ λ read.
        Keeps-if (lacks_gas lib b around task read.1) _ _ (Keeps-nothing _) (
          Keeps-with_wallet _ λ wallet. Keeps-then_act key until _ _ λ action.
            Keeps-reported _ _ _
              (Keeps-send_to_chain key until lib b around before wallet (action ∷ [])))

    Keeps-refund_message :
        (task : RefundTaskFields) → Keeps key until (broadcast_refund_message lib b around task)
    unfolding broadcast_refund_message
    Keeps-refund_message task = Keeps-then_act key until _ _ λ boc. Keeps-with_wallet _ λ wallet.
        Keeps-then_act key until _ _ λ action.
          Keeps-hash_or_empty _
            (Keeps-send_to_chain key until lib b around before wallet (action ∷ []))

    served-Fresh :
        (request : Request) (s : State)
        → Fresh key until s
        → Fresh key until (served lib b around request s)
    served-Fresh (prover_message tx_blob) s f =
        Keeps-at key until (Keeps-prover_message tx_blob) s f
    served-Fresh (execute_message task) s f = Keeps-at key until (Keeps-execute_message task) s f
    served-Fresh (refund_message task) s f = Keeps-at key until (Keeps-refund_message task) s f

-- From a state in which the row of a wallet is at least the ids that it posted, whatever requests are
-- served, the query ids that the wallet posts go on increasing as long as every query id is read before
-- the row expires: none is posted twice, over all the retries of all the requests and whatever the
-- node, the database and the lock store do.
pub serve_all-Fresh :
    (key : String) (until : ℤ) (lib : Externals) (b : TonBroadcaster lib)
    (requests : List (Surroundings × Request)) (s : State)
    → All (λ r. ReadsBefore until r.0) requests
    → Fresh key until s
    → Fresh key until (serve_all lib b requests s)
serve_all-Fresh key until lib b [] s before f = f
serve_all-Fresh key until lib b ((around, request) ∷ requests) s before f =
    serve_all-Fresh key until lib b requests (served lib b around request s) before.1
      (served-Fresh key until lib b around before.0 request s f)
