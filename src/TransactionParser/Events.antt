-- ===== src/TransactionParser/Events.antt =====
-- `parse_trace` of src/transaction_parser/parser.rs: the events that come out of it.
use axelar_relayer_ton.Prelude.{
  ℕ, suc, String, Option, none, some, List, [], ◌∷◌, ◌++◌, get_elem?, Ensures, returns, fails,
  Ensures->>=, Bool-cases, Option-cases, inl, inr, All, All-append, get_elem?-All,
}
use axelar_relayer_ton.Externals.{Externals}
use axelar_relayer_ton.Types.{Transaction}
use axelar_relayer_ton.GmpTypes.{Event}
use axelar_relayer_ton.Boc.NoPanic.{Returns}
use axelar_relayer_ton.TransactionParser.Common.{MessageMatchingKey}
use axelar_relayer_ton.TransactionParser.AnyParser.{
  AnyParser, key, message_id, event, execute_insufficient_gas, call_contract, message_executed,
  message_approved, native_gas_paid, native_gas_added, native_gas_refunded, jetton_gas_added,
  jetton_gas_paid, its_token_metadata_registered, its_interchain_token_deployment_started,
  its_interchain_transfer, its_link_token_started, signers_rotated,
}
use axelar_relayer_ton.TransactionParser.Creation.{TraceParser, Collected, same_key, remove}
use axelar_relayer_ton.TransactionParser.Assembly.{
  credit_event, call_events, its_events, other_events, events_of,
}
use axelar_relayer_ton.TransactionParser.Genuine.{
  IsGenuine, Ensures-then, Returns-ok_or, call_contract-IsGenuine, message_executed-IsGenuine,
  message_approved-IsGenuine, native_gas_paid-IsGenuine, native_gas_added-IsGenuine,
  jetton_gas_added-IsGenuine, jetton_gas_paid-IsGenuine, native_gas_refunded-IsGenuine,
  its_token_metadata_registered-IsGenuine, its_interchain_token_deployment_started-IsGenuine,
  its_interchain_transfer-IsGenuine, its_link_token_started-IsGenuine, signers_rotated-IsGenuine,
  Returns-hash_to_message_id,
}
use axelar_relayer_ton.TransactionParser.Authenticity.{IsOwn, IsCall, is_call, AllOwn}
use axelar_relayer_ton.TransactionParser.CallContract
use axelar_relayer_ton.TransactionParser.ExecuteInsufficientGas

module _ (lib : Externals) (tp : TraceParser lib.Address) (txs : List (Transaction lib.Address))
    (now : String) where
  open lib use {Address}

  abbrev Genuine : List Event → Type 0
  Genuine = All (IsGenuine tp txs)

  insufficient_gas-IsGenuine :
      (s : ExecuteInsufficientGas.ParserExecuteInsufficientGas Address)
      → Ensures (IsGenuine tp txs) (ExecuteInsufficientGas.event lib s)
  unfolding ExecuteInsufficientGas.event
  insufficient_gas-IsGenuine s = Ensures-then _ _ (Returns-ok_or s.log _) (λ log. returns tt)

  event-IsGenuine :
      (id : Option String) (p : AnyParser lib)
      → IsOwn lib tp txs p
      → Ensures (IsGenuine tp txs) (event lib tp.chain_name now id p)
  unfolding event
  event-IsGenuine id (execute_insufficient_gas s) own = insufficient_gas-IsGenuine s
  event-IsGenuine id (call_contract s) own = call_contract-IsGenuine lib tp txs now id s own
  event-IsGenuine id (message_executed s) own = message_executed-IsGenuine lib tp txs now id s own
  event-IsGenuine id (message_approved s) own = message_approved-IsGenuine lib tp txs now id s own
  event-IsGenuine id (native_gas_paid s) own = native_gas_paid-IsGenuine lib tp txs now id s own
  event-IsGenuine id (native_gas_added s) own = native_gas_added-IsGenuine lib tp txs now id s own
  event-IsGenuine id (native_gas_refunded s) own =
      native_gas_refunded-IsGenuine lib tp txs now id s own
  event-IsGenuine id (jetton_gas_added s) own = jetton_gas_added-IsGenuine lib tp txs now id s own
  event-IsGenuine id (jetton_gas_paid s) own = jetton_gas_paid-IsGenuine lib tp txs now id s own
  event-IsGenuine id (its_token_metadata_registered s) own =
      its_token_metadata_registered-IsGenuine lib tp txs now id s own
  event-IsGenuine id (its_interchain_token_deployment_started s) own =
      its_interchain_token_deployment_started-IsGenuine lib tp txs now id s own
  event-IsGenuine id (its_interchain_transfer s) own =
      its_interchain_transfer-IsGenuine lib tp txs now id s own
  event-IsGenuine id (its_link_token_started s) own =
      its_link_token_started-IsGenuine lib tp txs now id s own
  event-IsGenuine id (signers_rotated s) own = signers_rotated-IsGenuine lib tp txs now id s own

  -- A call has a key and a message id.
  call-key-Returns : {p : AnyParser lib} → IsCall lib tp txs p → Returns (key lib p)
  unfolding key CallContract.key
  call-key-Returns (is_call {s = s} own) =
      Ensures-then _ _ (Returns-ok_or s.log _) (λ log. returns tt)

  call-message_id-Returns : {p : AnyParser lib} → IsCall lib tp txs p → Returns (message_id lib p)
  unfolding message_id CallContract.message_id
  call-message_id-Returns (is_call {s = s} own) =
      Ensures-then _ _ (Returns-hash_to_message_id lib s.tx.hash) (λ id. returns tt)

  call-IsOwn : {p : AnyParser lib} → IsCall lib tp txs p → IsOwn lib tp txs p
  call-IsOwn (is_call {s = s} own) = own

  abbrev AllCredits : List (MessageMatchingKey × AnyParser lib) → Type 0
  AllCredits = All (λ entry. IsOwn lib tp txs entry.1)

  remove-All :
      (k : MessageMatchingKey) (m : List (MessageMatchingKey × AnyParser lib))
      → AllCredits m
      → AllCredits (remove k m).1
  unfolding remove
  remove-All k [] own = tt
  remove-All k ((j, w) ∷ m) own = elim (Bool-cases (same_key j k)) [
    | inl e ↦ rw e own.1
    | inr e ↦ rw e (own.0, remove-All k m own.1)
  ]

  abbrev OwnIfAny : Option (AnyParser lib) → Type 0
  OwnIfAny none = Unit
  OwnIfAny (some p) = IsOwn lib tp txs p

  removed-IsOwn :
      (k : MessageMatchingKey) (m : List (MessageMatchingKey × AnyParser lib))
      → AllCredits m
      → OwnIfAny (remove k m).0
  unfolding remove
  removed-IsOwn k [] own = tt
  removed-IsOwn k ((j, w) ∷ m) own = elim (Bool-cases (same_key j k)) [
    | inl e ↦ rw e own.0
    | inr e ↦ rw e (removed-IsOwn k m own.1)
  ]

  credit_event-Genuine :
      (cc : AnyParser lib) (paid : Option (AnyParser lib))
      → IsCall lib tp txs cc
      → OwnIfAny paid
      → Ensures Genuine (credit_event lib tp.chain_name now cc paid)
  unfolding credit_event
  credit_event-Genuine cc none call own = returns tt
  credit_event-Genuine cc (some p) call own =
      Ensures-then _ _ (call-message_id-Returns call) (λ found.
        Ensures-then _ _ (Returns-ok_or found _)
          (λ id. Ensures->>= _ _ (event-IsGenuine (some id) p own) (λ credit h. returns (h, tt))))

  call_events-Genuine :
      (ccs : List (AnyParser lib)) (m : List (MessageMatchingKey × AnyParser lib))
      → All (IsCall lib tp txs) ccs
      → AllCredits m
      → Ensures Genuine (call_events lib tp.chain_name now ccs m)
  unfolding call_events
  call_events-Genuine [] m calls own = returns tt
  call_events-Genuine (cc ∷ ccs) m calls own = Ensures-then _ _ (call-key-Returns calls.0) (λ k.
      Ensures->>= _ _ (event-IsGenuine none cc (call-IsOwn calls.0)) (λ called h.
        Ensures->>= _ _ (credit_event-Genuine cc (remove k m).0 calls.0 (removed-IsOwn k m own))
          (λ credit hs.
            Ensures->>= _ _ (call_events-Genuine ccs (remove k m).1 calls.1 (remove-All k m own))
              (λ rest hss. returns (h, All-append _ credit rest hs hss)))))

  its_events-Genuine :
      (calls : List (AnyParser lib)) (i : ℕ) (paired : List (AnyParser lib))
      → All (IsCall lib tp txs) calls
      → All (IsOwn lib tp txs) paired
      → Ensures Genuine (its_events lib tp.chain_name now calls i paired)
  unfolding its_events
  its_events-Genuine calls i [] hc own = returns tt
  its_events-Genuine calls i (p ∷ ps) hc own = elim (Option-cases (get_elem? calls i)) [
    | inl e ↦ rw (e, its_events) fails
    | inr (contract, e) ↦
        rw (e, its_events)
          (Ensures-then _ _ (call-message_id-Returns (get_elem?-All _ calls i contract hc e)) (λ id.
            Ensures->>= _ _ (event-IsGenuine id p own.0) (λ made h.
              Ensures->>= _ _ (its_events-Genuine calls (suc i) ps hc own.1)
                (λ rest hs. returns (h, hs)))))
  ]

  other_events-Genuine :
      (ps : List (AnyParser lib))
      → All (IsOwn lib tp txs) ps
      → Ensures Genuine (other_events lib tp.chain_name now ps)
  unfolding other_events
  other_events-Genuine [] own = returns tt
  other_events-Genuine (p ∷ ps) own =
      Ensures->>= _ _ (event-IsGenuine none p own.0)
        (λ made h. Ensures->>= _ _ (other_events-Genuine ps own.1) (λ rest hs. returns (h, hs)))

  pub events_of-Genuine :
      (c : Collected lib)
      → AllOwn lib tp txs c
      → Ensures Genuine (events_of lib tp.chain_name now c)
  unfolding events_of
  events_of-Genuine c own =
      Ensures->>= _ _ (call_events-Genuine c.call_contract c.gas_credit_map own.calls own.credits)
        (λ calls h.
          Ensures->>= _ _ (its_events-Genuine c.call_contract 0 c.its own.calls own.paired)
            (λ paired hs.
              Ensures->>= _ _ (other_events-Genuine c.parsers own.parsers) (λ others hss.
                returns
                  (All-append _ (calls ++ paired) others (All-append _ calls paired h hs) hss))))
