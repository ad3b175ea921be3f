-- ===== src/TransactionParser/Acceptance.antt =====
-- src/transaction_parser/: a parser that matches stands on a transaction of the contract it watches,
-- and parsing it then reads a message that is there.
use axelar_relayer_ton.Prelude.{
  ℕ, suc, String, Bool, true, false, ◌&&◌, ◌+◌, some, List, [], ◌∷◌, ◌≡◌, refl, Outcome, subst,
  get_elem?, Bool-cases, &&-true, if-true, Option-cases, inl, inr, Ensures, returns, Ensures->>=,
  Ensures-map_err, arith,
}
use axelar_relayer_ton.Prelude.Int.{ℤ, pos, negsuc}
use axelar_relayer_ton.Externals.{Externals}
use axelar_relayer_ton.Types.{Transaction, TransactionMessage, BocError, TransactionParsingError}
use axelar_relayer_ton.Boc.NoPanic.{Returns}
use axelar_relayer_ton.TransactionParser.Common.{
  ParserState, is_none, opcode_is, is_log_emmitted_in_opcode, is_log_emitted, is_log_emitted_from,
  parse_body, out_body, parse_at, match_at, from_allowed, match_opcode, match_log,
}

-- There is an outgoing message at the index.
abbrev pub Readable : {A : Type 0} → Transaction A → ℕ → Type 0
Readable tx i = (msg : TransactionMessage _) × get_elem? tx.out_msgs i ≡ some msg

module _ {A : Type 0} where
  pub emitted-Readable :
      (tx : Transaction A) (op_code i : ℕ)
      → is_log_emmitted_in_opcode tx op_code i ≡ true
      → Readable tx i
  unfolding is_log_emmitted_in_opcode
  emitted-Readable tx op_code i h = elim (Option-cases (get_elem? tx.out_msgs i)) [
    | inl e ↦ ground (e, arith)
    | inr found ↦ found
  ]

  -- A message to no destination, with the op code.
  abbrev pub IsLog : ℕ → TransactionMessage A → Type 0
  IsLog op_code msg = (is_none msg.destination ≡ true) × (opcode_is msg.opcode op_code ≡ true)

  -- `is_log_emitted` returns the index of a log with the op code.
  is_log_emitted_from-IsLog :
      (k : ℕ) (msgs : List (TransactionMessage A)) (op_code i : ℕ)
      → is_log_emitted_from k msgs op_code ≡ pos i
      → (j : ℕ) × (msg : TransactionMessage A) × (i ≡ k + j)
        × (get_elem? msgs j ≡ some msg)
        × IsLog op_code msg
  unfolding is_log_emitted_from
  is_log_emitted_from-IsLog k [] op_code i h = cc
  is_log_emitted_from-IsLog k (msg ∷ msgs) op_code i h =
      elim (Bool-cases (is_none msg.destination && opcode_is msg.opcode op_code)) [
        | inl e ↦ (0, msg, first e, refl, &&-true _ _ e)
        | inr e ↦ later (is_log_emitted_from-IsLog (suc k) msgs op_code i (rw e at h))
      ]
    where
      first : is_none msg.destination && opcode_is msg.opcode op_code ≡ true → i ≡ k + 0
      first e = ground (rw e at h, arith)

      later :
          (j : ℕ) × (m : TransactionMessage A) × (i ≡ suc k + j)
            × (get_elem? msgs j ≡ some m)
            × IsLog op_code m
          → (j : ℕ) × (m : TransactionMessage A) × (i ≡ k + j)
            × (get_elem? (msg ∷ msgs) j ≡ some m)
            × IsLog op_code m
      later (j, m, i_eq, at, log) = (suc j, m, omega (arith, i_eq), at, log)

  pub is_log_emitted-IsLog :
      (tx : Transaction A) (op_code i : ℕ)
      → is_log_emitted tx op_code ≡ pos i
      → (msg : TransactionMessage A) × (get_elem? tx.out_msgs i ≡ some msg) × IsLog op_code msg
  unfolding is_log_emitted
  is_log_emitted-IsLog tx op_code i h =
      let (j, msg, i_eq, found, log) = is_log_emitted_from-IsLog 0 tx.out_msgs op_code i h in
      let j_eq : j ≡ i = omega (arith, i_eq) in
      (msg, subst (λ x. get_elem? tx.out_msgs x ≡ some msg) j_eq found, log)

  pub out_body-Returns : (tx : Transaction A) (i : ℕ) → Readable tx i → Returns (out_body tx i)
  out_body-Returns tx i (msg, h) = rw h (returns tt)

  -- What is left of the parser is about the same transaction.
  abbrev pub Keeps : {L : Type 0} → ParserState A L → Bool × ParserState A L → Type 0
  Keeps s r = r.1.tx ≡ s.tx

  pub parse_body-Keeps :
      {L : Type 0} (from_boc_b64 : String → Outcome BocError L)
      (body : Outcome TransactionParsingError String) (s : ParserState A L)
      → ((boc : String) → Returns (from_boc_b64 boc))
      → Returns body
      → Ensures (Keeps s) (parse_body from_boc_b64 body s)
  parse_body-Keeps from_boc_b64 body s h k = elim (Option-cases s.log) [
    | inl e ↦ rw e (
        Ensures->>= body _ k
          (λ text _. Ensures->>= _ _ (Ensures-map_err _ _ (h text)) (λ log _. returns refl)))
    | inr (log, e) ↦ rw e (returns refl)
  ]

module _ (lib : Externals) {L : Type 0} where
  open lib use {Address, address_eq}

  -- A parser that matches stands on a transaction of the address it watches, and its parse does
  -- not panic.
  pub record Accepted
      (parse : ParserState Address L
        → Outcome TransactionParsingError (Bool × ParserState Address L))
      (s : ParserState Address L) (r : Bool × ParserState Address L) : Type 0 where
    pub own : r.0 ≡ true → s.tx.account ≡ s.allowed_address
    pub parses : r.0 ≡ true → Ensures (Keeps s) (parse r.1)

  abbrev pub Accepts :
      (check_match parse : ParserState Address L
        → Outcome TransactionParsingError (Bool × ParserState Address L))
      → ParserState Address L
      → Type 0
  Accepts check_match parse s = Ensures (Accepted parse s) (check_match s)

  -- Nothing is claimed of a parser that does not match.
  pub unmatched :
      (parse : ParserState Address L
        → Outcome TransactionParsingError (Bool × ParserState Address L))
      (s s' : ParserState Address L)
      → Accepted parse s (false, s')
  unmatched parse s s' = record { own = λ e. cc; parses = λ e. cc }

  pub from_allowed-own :
      (s : ParserState Address L) → from_allowed lib s ≡ true → s.tx.account ≡ s.allowed_address
  from_allowed-own s = (address_eq.decides s.tx.account s.allowed_address).0

  pub match_opcode-Accepts :
      (from_boc_b64 : String → Outcome BocError L)
      → ((boc : String) → Returns (from_boc_b64 boc))
      → (op_code i : ℕ) (s : ParserState Address L)
      → Accepts (match_opcode lib op_code i) (λ s. parse_body from_boc_b64 (out_body s.tx i) s) s
  match_opcode-Accepts from_boc_b64 h op_code i s = returns (record {
    own = λ e. from_allowed-own s (if-true _ _ e).0;
    parses = λ e.
        parse_body-Keeps from_boc_b64 _ s h
          (out_body-Returns s.tx i (emitted-Readable s.tx op_code i (if-true _ _ e).1));
  })

  pub match_log-Accepts :
      (from_boc_b64 : String → Outcome BocError L)
      → ((boc : String) → Returns (from_boc_b64 boc))
      → (op_code : ℕ) (s : ParserState Address L)
      → Accepts (match_log lib op_code) (λ s. parse_at s.log_position from_boc_b64 s) s
  match_log-Accepts from_boc_b64 h op_code s = elim (Bool-cases (from_allowed lib s)) [
    | inr e ↦ rw e (returns (unmatched _ s s))
    | inl e ↦ rw e (returns (at (from_allowed-own s e) (is_log_emitted s.tx op_code) refl))
  ]
    where
      at :
          s.tx.account ≡ s.allowed_address
          → (position : ℤ) → is_log_emitted s.tx op_code ≡ position
          → Accepted (λ s. parse_at s.log_position from_boc_b64 s) s (match_at position s)
      at own (pos i) k =
          let (msg, found, _) = is_log_emitted-IsLog s.tx op_code i k in
          record {
            own = λ e. own;
            parses =
                λ e. parse_body-Keeps from_boc_b64 _ _ h (out_body-Returns s.tx i (msg, found));
          }
      at own (negsuc _) k = unmatched _ s s
