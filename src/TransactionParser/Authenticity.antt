-- ===== src/TransactionParser/Authenticity.antt =====
-- src/transaction_parser/parser.rs: what `create_parsers` collects from a trace.
use axelar_relayer_ton.Prelude.{
  ℕ, Bool, Option, none, some, List, [], ◌∷◌, ◌≡◌, Outcome, get_elem?, Ensures, returns,
  Ensures->>=, Bool-cases, inl, inr, All, All-append,
}
use axelar_relayer_ton.Externals.{Externals}
use axelar_relayer_ton.Types.{Transaction, TransactionParsingError}
use axelar_relayer_ton.TransactionParser.Common.{ParserState, MessageMatchingKey}
use axelar_relayer_ton.TransactionParser.Acceptance.{Accepts}
use axelar_relayer_ton.TransactionParser.AnyParser.{
  AnyParser, execute_insufficient_gas, call_contract, message_executed, message_approved,
  native_gas_paid, native_gas_added, native_gas_refunded, jetton_gas_added, jetton_gas_paid,
  its_token_metadata_registered, its_interchain_token_deployment_started, its_interchain_transfer,
  its_link_token_started, signers_rotated,
}
use axelar_relayer_ton.TransactionParser.Creation.{
  TraceParser, Collected, same_key, recognise, insert, push, push_approved, push_call, push_its,
  insert_credit,
}
use axelar_relayer_ton.TransactionParser.Keys.{Distinct, insert-Distinct}
use axelar_relayer_ton.TransactionParser.Genuine.{gateway, gas_service, its, Own}
use axelar_relayer_ton.TransactionParser.CallContract

module _ (lib : Externals) (tp : TraceParser lib.Address)
    (txs : List (Transaction lib.Address)) where
  open lib use {Address}

  -- The parser is about a transaction of the trace that its contract made.
  abbrev pub IsOwn : AnyParser lib → Type 0
  IsOwn (execute_insufficient_gas _) = Unit
  IsOwn (call_contract s) = Own tp txs gateway s.tx
  IsOwn (message_executed s) = Own tp txs gateway s.tx
  IsOwn (message_approved s) = Own tp txs gateway s.tx
  IsOwn (signers_rotated s) = Own tp txs gateway s.tx
  IsOwn (native_gas_paid s) = Own tp txs gas_service s.tx
  IsOwn (native_gas_added s) = Own tp txs gas_service s.tx
  IsOwn (native_gas_refunded s) = Own tp txs gas_service s.tx
  IsOwn (jetton_gas_added s) = Own tp txs gas_service s.tx
  IsOwn (jetton_gas_paid s) = Own tp txs gas_service s.tx
  IsOwn (its_token_metadata_registered s) = Own tp txs its s.tx
  IsOwn (its_interchain_token_deployment_started s) = Own tp txs its s.tx
  IsOwn (its_interchain_transfer s) = Own tp txs its s.tx
  IsOwn (its_link_token_started s) = Own tp txs its s.tx

  -- A parser that has a key and a message id of its own.
  pub data IsCall : AnyParser lib → Type 0 where
    is_call :
        {s : CallContract.ParserCallContract lib}
        → Own tp txs gateway s.tx
        → IsCall (call_contract s)

  pub record AllOwn (c : Collected lib) : Type 0 where
    pub parsers : All IsOwn c.parsers
    pub calls : All IsCall c.call_contract
    pub paired : All IsOwn c.its
    pub credits : All (λ entry. IsOwn entry.1) c.gas_credit_map
    pub keys : Distinct c.gas_credit_map

  abbrev pub Kept : Option (Collected lib) → Type 0
  Kept none = Unit
  Kept (some c) = AllOwn c

  abbrev pub Within : Transaction Address → Type 0
  Within tx = (i : ℕ) × get_elem? txs i ≡ some tx

  pub insert-All :
      (k : MessageMatchingKey) (p : AnyParser lib) (m : List (MessageMatchingKey × AnyParser lib))
      → IsOwn p
      → All (λ entry. IsOwn entry.1) m
      → All (λ entry. IsOwn entry.1) (insert k p m)
  unfolding insert
  insert-All k p [] h hs = (h, tt)
  insert-All k p ((j, w) ∷ m) h hs = elim (Bool-cases (same_key j k)) [
    | inl e ↦ rw e (h, hs.1)
    | inr e ↦ rw e (hs.0, insert-All k p m h hs.1)
  ]

  pub push-AllOwn :
      (p : AnyParser lib) (c : Collected lib) → IsOwn p → AllOwn c → AllOwn (push lib p c)
  push-AllOwn p c h own = record {
    parsers = All-append _ c.parsers (p ∷ []) own.parsers (h, tt);
    calls = own.calls;
    paired = own.paired;
    credits = own.credits;
    keys = own.keys;
  }

  pub push_approved-AllOwn :
      (p : AnyParser lib) (c : Collected lib) → IsOwn p → AllOwn c → AllOwn (push_approved lib p c)
  push_approved-AllOwn p c h own = record {
    parsers = All-append _ c.parsers (p ∷ []) own.parsers (h, tt);
    calls = own.calls;
    paired = own.paired;
    credits = own.credits;
    keys = own.keys;
  }

  pub push_call-AllOwn :
      (p : AnyParser lib) (c : Collected lib) → IsCall p → AllOwn c → AllOwn (push_call lib p c)
  push_call-AllOwn p c h own = record {
    parsers = own.parsers;
    calls = All-append _ c.call_contract (p ∷ []) own.calls (h, tt);
    paired = own.paired;
    credits = own.credits;
    keys = own.keys;
  }

  pub push_its-AllOwn :
      (p : AnyParser lib) (c : Collected lib) → IsOwn p → AllOwn c → AllOwn (push_its lib p c)
  push_its-AllOwn p c h own = record {
    parsers = own.parsers;
    calls = own.calls;
    paired = All-append _ c.its (p ∷ []) own.paired (h, tt);
    credits = own.credits;
    keys = own.keys;
  }

  pub insert_credit-AllOwn :
      (k : MessageMatchingKey) (p : AnyParser lib) (c : Collected lib)
      → IsOwn p
      → AllOwn c
      → AllOwn (insert_credit lib k p c)
  insert_credit-AllOwn k p c h own = record {
    parsers = own.parsers;
    calls = own.calls;
    paired = own.paired;
    credits = insert-All k p c.gas_credit_map h own.credits;
    keys = insert-Distinct k p c.gas_credit_map own.keys;
  }

  module _ {L : Type 0} where
    -- What a match that does `found` keeps.
    pub recognise-Kept :
        (check_match parse : ParserState Address L
          → Outcome TransactionParsingError (Bool × ParserState Address L))
        (found : ParserState Address L → Outcome TransactionParsingError (Collected lib))
        (s : ParserState Address L)
        → Accepts lib check_match parse s
        → ((s' : ParserState Address L)
            → s'.tx ≡ s.tx
            → s.tx.account ≡ s.allowed_address
            → Ensures AllOwn (found s'))
        → Ensures Kept (recognise lib check_match parse found s)
    recognise-Kept check_match parse found s h k =
        Ensures->>= (check_match s) _ h (λ checked accepted. elim (Bool-cases checked.0) [
          | inl e ↦ rw e (
              Ensures->>= (parse checked.1) _ (accepted.parses e) (λ parsed same.
                Ensures->>= (found parsed.1) _ (k parsed.1 same (accepted.own e))
                  (λ c own. returns own)))
          | inr e ↦ rw e (returns tt)
        ])
