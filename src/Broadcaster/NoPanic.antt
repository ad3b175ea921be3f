-- ===== src/Broadcaster/NoPanic.antt =====
-- src/broadcaster.rs: a request ends with a result or an error. It makes one action, so the wallet's
-- limit of 254 actions is not reached.
use mathlib.Core.Option.{some_inj}
use axelar_relayer_ton.Prelude.{
  ℕ, zero, suc, String, ◌⊎◌, inl, inr, Bool, true, false, Option, none, some, [], ◌∷◌, ◌≡◌, refl,
  subst, Outcome, ok, err, panic, returns, fails, Ensures-panic, Bool-cases, contains,
}
use axelar_relayer_ton.Externals.{Externals, OutAction}
use axelar_relayer_ton.HighLoadQueryId.{HighLoadQueryId}
use axelar_relayer_ton.HighLoadQueryIdDbWrapper.Storage.{next-returns}
use axelar_relayer_ton.Boc.NoPanic.{Returns}
use axelar_relayer_ton.Boc.WriteNoPanic.{steps}
use axelar_relayer_ton.OutAction.{out_action}
use axelar_relayer_ton.TonWalletHighLoadV3.{
  TonWalletHighLoadV3, outgoing_message, internal_transfer_body,
}
use axelar_relayer_ton.Broadcaster.{
  BroadcasterError, TonBroadcaster, Surroundings, State, Act, already_executed, then_act, answered,
  next_call, message_boc, post_once, send_again, send_to_chain,
}
use axelar_relayer_ton.Client.{V3MessageResponse}

-- An act that does not panic.
pub data Ends {R : Type 0} (act : Act R) : Type 0 where
  ends : ((s : State) → Returns (act s).0) → Ends act

pub Ends-at : {R : Type 0} {act : Act R} → Ends act → (s : State) → Returns (act s).0
Ends-at (ends h) = h

Ends-then_act :
    {R Q : Type 0} (o : Outcome BroadcasterError R) (act : R → Act Q)
    → Returns o
    → ((r : R) → Ends (act r))
    → Ends (then_act o act)
Ends-then_act (ok r) act h k = k r
Ends-then_act (err e) act h k = ends (λ s. fails)
Ends-then_act panic act h k = absurd (Ensures-panic h)

answered-Returns :
    (again : Option (Act V3MessageResponse))
    (r : Outcome BroadcasterError (String ⊎ V3MessageResponse) × State)
    → ((send : Act V3MessageResponse) → again ≡ some send → Ends send)
    → Returns r.0
    → Returns (answered again r).0
answered-Returns again (err e, s) more h = fails
answered-Returns again (panic, s) more h = absurd (Ensures-panic h)
answered-Returns again (ok (inr response), s) more h = returns tt
answered-Returns none (ok (inl error), s) more h = fails
answered-Returns (some send) (ok (inl error), s) more h =
    elim (Bool-cases (contains error already_executed)) [
      | inl executed ↦ rw (executed, answered) (Ends-at (more send refl) s)
      | inr other ↦ rw (other, answered) fails
    ]

module _ (lib : Externals) where
  internal_transfer_body-Returns :
      (action : OutAction lib.Cell) (query_id : ℕ)
      → Returns (internal_transfer_body lib (action ∷ []) query_id)
  unfolding internal_transfer_body
  internal_transfer_body-Returns action query_id = search (steps) depth 16

  outgoing_message-Returns :
      (now : ℕ) (wallet : TonWalletHighLoadV3 lib.Address) (action : OutAction lib.Cell)
      (query_id value : ℕ)
      → Returns (outgoing_message lib now wallet (action ∷ []) query_id value)
  unfolding outgoing_message
  outgoing_message-Returns now wallet action query_id value =
      search (steps, internal_transfer_body-Returns) depth 30

  pub out_action-Returns :
      (boc : String) (value : ℕ) (destination : lib.Address)
      → Returns (out_action lib boc value destination)
  unfolding out_action
  out_action-Returns boc value destination = search (steps) depth 10

  module _ (b : TonBroadcaster lib) (around : Surroundings) where
    module _ (wallet : TonWalletHighLoadV3 lib.Address) (action : OutAction lib.Cell) where
      message_boc-Returns :
          (now : ℕ) (id : HighLoadQueryId)
          → Returns (message_boc lib b around wallet (action ∷ []) now id)
      unfolding message_boc
      message_boc-Returns now id = search (steps, outgoing_message-Returns) depth 12

      Ends-post_once :
          (retrying : Bool) → Ends (post_once lib b around wallet (action ∷ []) retrying)
      unfolding post_once
      Ends-post_once retrying = ends λ s.
          elim (next-returns (next_call lib b around wallet (action ∷ []) retrying s.tried)
            s.table) [
              | inl (q, e) ↦
                  rw (e, post_once)
                    (Ends-at
                      (Ends-then_act (message_boc lib b around wallet (action ∷ []) _ q) _
                        (message_boc-Returns _ q) (λ boc. ends (λ s'. returns tt)))
                      _)
              | inr (e, h) ↦ rw (h, post_once) fails
            ]

      answered-Ends :
          (again : Option (Act V3MessageResponse)) (retrying : Bool)
          → ((send : Act V3MessageResponse) → again ≡ some send → Ends send)
          → Ends (λ s. answered again (post_once lib b around wallet (action ∷ []) retrying s))
      answered-Ends again retrying more =
          ends (λ s. answered-Returns again _ more (Ends-at (Ends-post_once retrying) s))

      Ends-send_again : (r : ℕ) → Ends (send_again lib b around wallet (action ∷ []) r)
      unfolding send_again
      Ends-send_again zero = answered-Ends none true (λ send e. cc)
      Ends-send_again (suc r) =
          answered-Ends (some (send_again lib b around wallet (action ∷ []) r)) true
            (λ send e. subst Ends (some_inj.0 e) (Ends-send_again r))

      pub Ends-send_to_chain : Ends (send_to_chain lib b around wallet (action ∷ []) none)
      unfolding send_to_chain
      Ends-send_to_chain =
          answered-Ends (some (send_again lib b around wallet (action ∷ []) 10)) false
            (λ send e. subst Ends (some_inj.0 e) (Ends-send_again 10))
