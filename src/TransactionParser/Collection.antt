-- ===== src/TransactionParser/Collection.antt =====
-- `create_parsers` of src/transaction_parser/parser.rs as a whole: it does not panic on a trace whose
-- first transaction sends a message, and what it collects has an origin.
use axelar_relayer_ton.Prelude.{
  ℕ, suc, Option, none, some, List, [], ◌∷◌, ◌≡◌, refl, ok, get_elem?, Ensures, returns,
  Ensures->>=, >>=-eq-ok, Ensures-eq-ok, Bool-cases, inl, inr, Ensures-if, Ensures-map_err, All,
}
use axelar_relayer_ton.Externals.{Externals}
use axelar_relayer_ton.Types.{Transaction, Trace}
use axelar_relayer_ton.Boc.NoPanic.{Returns, relayer_execute_wrapped-Returns}
use axelar_relayer_ton.TransactionParser.Acceptance.{Readable, out_body-Returns}
use axelar_relayer_ton.TransactionParser.Common.{out_body}
use axelar_relayer_ton.TransactionParser.AnyParser.{execute_insufficient_gas}
use axelar_relayer_ton.TransactionParser.Creation.{
  TraceParser, Collected, Recogniser, recognisers, empty, try_in_turn, collect_from, create_parsers,
  try_execute_insufficient_gas,
}
use axelar_relayer_ton.TransactionParser.Genuine.{Ensures-then}
use axelar_relayer_ton.TransactionParser.Authenticity.{AllOwn, Kept, Within, push-AllOwn}
use axelar_relayer_ton.TransactionParser.Recognition.{
  Keeper, call_contract-Keeper, message_executed-Keeper, message_approved-Keeper,
  native_gas_paid-Keeper, native_gas_added-Keeper, jetton_gas_added-Keeper, jetton_gas_paid-Keeper,
  native_gas_refunded-Keeper, its_token_metadata_registered-Keeper,
  its_interchain_token_deployment_started-Keeper, its_interchain_transfer-Keeper,
  its_link_token_started-Keeper, signers_rotated-Keeper,
}
use axelar_relayer_ton.TransactionParser.ExecuteInsufficientGas

-- What holds of an element by its position holds of all.
All-index {ℓ κ} :
    {A : Type ℓ} (P : A → Type κ) (xs : List A)
    → ((i : ℕ) (x : A) → get_elem? xs i ≡ some x → P x)
    → All P xs
All-index P [] h = tt
All-index P (x ∷ xs) h = (h 0 x refl, All-index P xs (λ i y e. h (suc i) y e))

-- The first transaction of the trace sends a message.
abbrev pub SendsFirst : {A : Type 0} → Trace A → Type 0
SendsFirst trace = (tx : Transaction _) × (get_elem? trace.transactions 0 ≡ some tx) × Readable tx 0

module _ (lib : Externals) (tp : TraceParser lib.Address) where
  open lib use {Address}

  module _ (txs : List (Transaction Address)) where
    recognisers-Keeper : All (Keeper lib tp txs) (recognisers lib)
    recognisers-Keeper = (
      call_contract-Keeper lib tp txs,
      (
        message_executed-Keeper lib tp txs,
        (
          message_approved-Keeper lib tp txs,
          (
            native_gas_paid-Keeper lib tp txs,
            (
              native_gas_added-Keeper lib tp txs,
              (
                jetton_gas_added-Keeper lib tp txs,
                (
                  jetton_gas_paid-Keeper lib tp txs,
                  (
                    native_gas_refunded-Keeper lib tp txs,
                    (
                      its_token_metadata_registered-Keeper lib tp txs,
                      (
                        its_interchain_token_deployment_started-Keeper lib tp txs,
                        (
                          its_interchain_transfer-Keeper lib tp txs,
                          (
                            its_link_token_started-Keeper lib tp txs,
                            (signers_rotated-Keeper lib tp txs, tt),
                          ),
                        ),
                      ),
                    ),
                  ),
                ),
              ),
            ),
          ),
        ),
      ),
    )

    try_in_turn-AllOwn :
        (rs : List (Recogniser lib)) (tx : Transaction Address) (c : Collected lib)
        → All (Keeper lib tp txs) rs
        → Within lib tp txs tx
        → AllOwn lib tp txs c
        → Ensures (AllOwn lib tp txs) (try_in_turn lib rs tp tx c)
    unfolding try_in_turn
    try_in_turn-AllOwn [] tx c keep within own = returns own
    try_in_turn-AllOwn (r ∷ rs) tx c keep within own =
        Ensures->>= (r tp tx c) _ (keep.0 tx c within own)
          (matched (try_in_turn-AllOwn rs tx c keep.1 within own))
      where
        matched :
            Ensures (AllOwn lib tp txs) (try_in_turn lib rs tp tx c)
            → (o : Option (Collected lib)) → Kept lib tp txs o
            → Ensures
                (AllOwn lib tp txs)
                (elim o [ some c' ↦ ok c' | none ↦ try_in_turn lib rs tp tx c ])
        matched rest (some c') own' = returns own'
        matched rest none _ = rest

    collect_from-AllOwn :
        (rest : List (Transaction Address)) (c : Collected lib)
        → All (Within lib tp txs) rest
        → AllOwn lib tp txs c
        → Ensures (AllOwn lib tp txs) (collect_from lib tp rest c)
    unfolding collect_from
    collect_from-AllOwn [] c within own = returns own
    collect_from-AllOwn (tx ∷ rest) c within own =
        Ensures->>= (try_in_turn lib (recognisers lib) tp tx c) _
          (try_in_turn-AllOwn (recognisers lib) tx c recognisers-Keeper within.0 own)
          (λ c' own'. collect_from-AllOwn rest c' within.1 own')

    empty-AllOwn : AllOwn lib tp txs (empty lib)
    empty-AllOwn = record { parsers = tt; calls = tt; paired = tt; credits = tt; keys = tt }

  parse_insufficient_gas-Returns :
      (trace : Trace Address)
      → SendsFirst trace
      → Returns
          (ExecuteInsufficientGas.parse lib (ExecuteInsufficientGas.new trace tp.gateway_address))
  unfolding ExecuteInsufficientGas.parse
  parse_insufficient_gas-Returns trace (tx, first, readable) = rw first (
      Ensures-then (out_body tx 0) _ (out_body-Returns tx 0 readable) (λ body.
        Ensures-then _ _ (Ensures-map_err _ _ (relayer_execute_wrapped-Returns lib body))
          (λ log. returns tt)))

  try_execute_insufficient_gas-Kept :
      (trace : Trace Address)
      → SendsFirst trace
      → Ensures (Kept lib tp trace.transactions) (try_execute_insufficient_gas lib tp trace)
  unfolding try_execute_insufficient_gas ExecuteInsufficientGas.check_match
  try_execute_insufficient_gas-Kept trace sends =
      let s = ExecuteInsufficientGas.new trace tp.gateway_address in
      let own = empty-AllOwn trace.transactions in
      Ensures-if (ExecuteInsufficientGas.matches lib s) _ _
        (Ensures-then (ExecuteInsufficientGas.parse lib s) _
          (parse_insufficient_gas-Returns trace sends)
          (λ parsed. returns (
            push-AllOwn lib tp trace.transactions (execute_insufficient_gas parsed.1) (empty lib) tt
              own)))
        (returns tt)

  matched_rest-AllOwn :
      (trace : Trace Address) (o : Option (Collected lib))
      → Kept lib tp trace.transactions o
      → Ensures (AllOwn lib tp trace.transactions) (elim o [
        | some c ↦ collect_from lib tp trace.transactions c
        | none ↦ collect_from lib tp trace.transactions (empty lib)
      ])
  matched_rest-AllOwn trace (some c) own =
      collect_from-AllOwn trace.transactions trace.transactions c (All-index _ _ (λ i x e. (i, e)))
        own
  matched_rest-AllOwn trace none _ =
      collect_from-AllOwn trace.transactions trace.transactions (empty lib)
        (All-index _ _ (λ i x e. (i, e))) (empty-AllOwn trace.transactions)

  -- On a trace whose first transaction sends a message `create_parsers` does not panic, and each
  -- parser that it collects from a transaction is about one of the trace's, made by the contract
  -- that the parser watches.
  pub create_parsers-AllOwn :
      (trace : Trace Address)
      → SendsFirst trace
      → Ensures (AllOwn lib tp trace.transactions) (create_parsers lib tp trace)
  unfolding create_parsers
  create_parsers-AllOwn trace sends =
      Ensures->>= (try_execute_insufficient_gas lib tp trace) _
        (try_execute_insufficient_gas-Kept trace sends) (matched_rest-AllOwn trace)

  try_execute_insufficient_gas-ok :
      (trace : Trace Address) (m : Option (Collected lib))
      → try_execute_insufficient_gas lib tp trace ≡ ok m
      → Kept lib tp trace.transactions m
  unfolding try_execute_insufficient_gas ExecuteInsufficientGas.check_match
  try_execute_insufficient_gas-ok trace m h =
      let s = ExecuteInsufficientGas.new trace tp.gateway_address in
      let own = empty-AllOwn trace.transactions in
      elim (Bool-cases (ExecuteInsufficientGas.matches lib s)) [
        | inl e ↦
            (let (parsed, _, found) =
                >>=-eq-ok (ExecuteInsufficientGas.parse lib s) _ (rw e at h) in
              Ensures-eq-ok {P = Kept lib tp trace.transactions}
                (returns (
                  push-AllOwn lib tp trace.transactions (execute_insufficient_gas parsed.1)
                    (empty lib) tt own))
                found)
        | inr e ↦ Ensures-eq-ok {P = Kept lib tp trace.transactions} (returns tt) (rw e at h)
      ]

  -- With no condition on the trace, whatever `create_parsers` returns has an origin.
  pub create_parsers-ok-AllOwn :
      (trace : Trace Address) (c : Collected lib)
      → create_parsers lib tp trace ≡ ok c
      → AllOwn lib tp trace.transactions c
  unfolding create_parsers
  create_parsers-ok-AllOwn trace c h =
      let (m, e, k) = >>=-eq-ok (try_execute_insufficient_gas lib tp trace) _ h in
      Ensures-eq-ok (matched_rest-AllOwn trace m (try_execute_insufficient_gas-ok trace m e)) k
