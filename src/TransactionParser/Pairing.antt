-- ===== src/TransactionParser/Pairing.antt =====
-- The second loop of `parse_trace` in src/transaction_parser/parser.rs: ITS events and their calls.
use axelar_relayer_ton.Prelude.{
  ℕ, suc, String, Option, some, List, [], ◌∷◌, ◌≡◌, refl, ◌↔◌, ok, >>=-eq-ok, Option-cases, inl,
  inr, get_elem?, Ensures-eq-ok, returns,
}
use axelar_relayer_ton.Externals.{Externals}
use axelar_relayer_ton.GmpTypes.{Event}
use axelar_relayer_ton.TransactionParser.AnyParser.{AnyParser, message_id, event}
use axelar_relayer_ton.TransactionParser.Assembly.{its_events}

module _ (lib : Externals) (chain_name now : String) where
  -- The event is the one of the ITS parser, with the message id of the call at the index.
  pub record PairedWith (calls : List (AnyParser lib)) (i : ℕ) (p : AnyParser lib) (e : Event)
      : Type 0 where
    pub contract_parser : AnyParser lib
    pub at : get_elem? calls i ≡ some contract_parser
    pub id : Option String
    pub has_id : message_id lib contract_parser ≡ ok id
    pub makes : event lib chain_name now id p ≡ ok e

  -- Parsers and events in step, from an index on.
  abbrev pub InStep : List (AnyParser lib) → ℕ → List (AnyParser lib) → List Event → Type 0
  InStep calls i [] [] = Unit
  InStep calls i (p ∷ ps) (e ∷ es) = PairedWith calls i p e × InStep calls (suc i) ps es
  InStep calls i _ _ = ⊥

  its_events-InStep :
      (calls : List (AnyParser lib)) (i : ℕ) (paired : List (AnyParser lib)) (es : List Event)
      → its_events lib chain_name now calls i paired ≡ ok es
      → InStep calls i paired es
  unfolding its_events
  its_events-InStep calls i [] es h = Ensures-eq-ok {P = InStep calls i []} (returns tt) h
  its_events-InStep calls i (p ∷ ps) es h = elim (Option-cases (get_elem? calls i)) [
    | inl missing ↦ cc (rw (missing, its_events) at h)
    | inr (contract, found) ↦
        (let (id, id_eq, h1) =
            >>=-eq-ok (message_id lib contract) _ (rw (found, its_events) at h) in
          let (e, e_eq, h2) = >>=-eq-ok (event lib chain_name now id p) _ h1 in
          let (rest, rest_eq, h3) =
            >>=-eq-ok (its_events lib chain_name now calls (suc i) ps) _ h2 in
          Ensures-eq-ok {P = InStep calls i (p ∷ ps)}
            (returns (
              record {
                contract_parser = contract;
                at = found;
                id = id;
                has_id = id_eq;
                makes = e_eq;
              },
              its_events-InStep calls (suc i) ps rest rest_eq,
            ))
            h3)
  ]

  InStep-its_events :
      (calls : List (AnyParser lib)) (i : ℕ) (paired : List (AnyParser lib)) (es : List Event)
      → InStep calls i paired es
      → its_events lib chain_name now calls i paired ≡ ok es
  unfolding its_events
  InStep-its_events calls i [] [] h = refl
  InStep-its_events calls i [] (e ∷ es) h = absurd h
  InStep-its_events calls i (p ∷ ps) [] h = absurd h
  InStep-its_events calls i (p ∷ ps) (e ∷ es) (pair, rest) =
      rw (pair.at, its_events, pair.has_id, pair.makes, InStep-its_events calls (suc i) ps es rest)

  -- The loop over the ITS parsers succeeds with some events exactly if the n-th event is what the
  -- n-th ITS parser makes of the message id of the n-th call, and there are no more.
  pub its_events_iff :
      (calls paired : List (AnyParser lib)) (es : List Event)
      → (its_events lib chain_name now calls 0 paired ≡ ok es) ↔ InStep calls 0 paired es
  its_events_iff calls paired es =
      (its_events-InStep calls 0 paired es, InStep-its_events calls 0 paired es)
