-- ===== src/TransactionParser/Credits.antt =====
-- The first loop of `parse_trace` in src/transaction_parser/parser.rs: calls and the payments for them.
use axelar_relayer_ton.Prelude.{
  String, Bool, false, ◌||◌, Option, none, List, [], ◌∷◌, ◌++◌, ◌≡◌, refl, ◌∙◌, Outcome, ok, ◌>>=◌,
  >>=-ext, Bool-cases, inl, inr, if◌then◌else◌,
}
use axelar_relayer_ton.Externals.{Externals}
use axelar_relayer_ton.Types.{Trace, TransactionParsingError}
use axelar_relayer_ton.GmpTypes.{Event}
use axelar_relayer_ton.TransactionParser.Common.{MessageMatchingKey}
use axelar_relayer_ton.TransactionParser.AnyParser.{AnyParser, key, event}
use axelar_relayer_ton.TransactionParser.Creation.{
  TraceParser, Collected, same_key, remove, create_parsers,
}
use axelar_relayer_ton.TransactionParser.Assembly.{credit_event, call_events}
use axelar_relayer_ton.TransactionParser.Keys.{
  find, Distinct, remove-find, find-remove, remove-Distinct,
}
use axelar_relayer_ton.TransactionParser.Collection.{create_parsers-ok-AllOwn}

abbrev pub seen_before : MessageMatchingKey → List MessageMatchingKey → Bool
seen_before k [] = false
seen_before k (j ∷ seen) = same_key j k || seen_before k seen

module _ (lib : Externals) where
  abbrev Payments : Type 0
  Payments = List (MessageMatchingKey × AnyParser lib)

  -- The payment for a call: that of its key, unless an earlier call had the key.
  abbrev pub payment_for :
      MessageMatchingKey
      → List MessageMatchingKey
      → List (MessageMatchingKey × AnyParser lib)
      → Option (AnyParser lib)
  payment_for k seen m = if seen_before k seen then none else find k m

  -- The first loop, said with a map that does not change.
  unfoldable pub calls_with_credits :
      (chain_name now : String)
      → List MessageMatchingKey
      → List (AnyParser lib)
      → List (MessageMatchingKey × AnyParser lib)
      → Outcome TransactionParsingError (List Event)
  calls_with_credits chain_name now seen [] m = ok []
  calls_with_credits chain_name now seen (cc ∷ ccs) m = do
    cc_key ← key lib cc
    called ← event lib chain_name now none cc
    credit ← credit_event lib chain_name now cc (payment_for cc_key seen m)
    rest ← calls_with_credits chain_name now (cc_key ∷ seen) ccs m
    ok (called ∷ credit ++ rest)

  -- What is left of the map after the calls with the keys `seen`.
  record Left (seen : List MessageMatchingKey) (m m' : List (MessageMatchingKey × AnyParser lib))
      : Type 0 where
    distinct : Distinct m'
    finds : (k : MessageMatchingKey) → find k m' ≡ payment_for k seen m

  Left-remove :
      (k : MessageMatchingKey) (seen : List MessageMatchingKey) (m m' : Payments)
      → Left seen m m'
      → Left (k ∷ seen) m (remove k m').1
  Left-remove k seen m m' left = record {
    distinct = remove-Distinct k m' left.distinct;
    finds = λ k'. elim (Bool-cases (same_key k k')) [
      | inl e ↦ find-remove k k' m' left.distinct ∙ rw e
      | inr e ↦ find-remove k k' m' left.distinct ∙ rw e (left.finds k')
    ];
  }

  call_events-Left :
      (chain_name now : String) (seen : List MessageMatchingKey) (ccs : List (AnyParser lib))
      (m m' : Payments)
      → Left seen m m'
      → call_events lib chain_name now ccs m' ≡ calls_with_credits chain_name now seen ccs m
  unfolding call_events calls_with_credits
  call_events-Left chain_name now seen [] m m' left = refl
  call_events-Left chain_name now seen (cc ∷ ccs) m m' left = >>=-ext (key lib cc) _ _ (λ k. rw (
    remove-find k m' ∙ left.finds k,
    call_events-Left chain_name now (k ∷ seen) ccs m (remove k m').1 (Left-remove k seen m m' left),
  ))

  -- Each call that `create_parsers` finds in a trace is given the payment with its key, if there is
  -- one and no earlier call of the trace had the same key: a payment is credited at most once.
  pub call_events_exact :
      (tp : TraceParser lib.Address) (now : String) (trace : Trace lib.Address) (c : Collected lib)
      → create_parsers lib tp trace ≡ ok c
      → call_events lib tp.chain_name now c.call_contract c.gas_credit_map
        ≡ calls_with_credits tp.chain_name now [] c.call_contract c.gas_credit_map
  call_events_exact tp now trace c h =
      call_events-Left tp.chain_name now [] c.call_contract c.gas_credit_map c.gas_credit_map
        (record { distinct = (create_parsers-ok-AllOwn lib tp trace c h).keys; finds = λ k. refl })
