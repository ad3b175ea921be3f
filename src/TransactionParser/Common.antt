-- ===== src/TransactionParser/Common.antt =====
-- src/transaction_parser/common.rs, message_matching_key.rs, and what the parsers have in common.
use axelar_relayer_ton.Prelude.{
  ℕ, suc, String, inl, inr, Bool, true, false, ◌&&◌, Option, none, some, List, [], ◌∷◌, Outcome, ok,
  err, ok_or, or_panic, ◌⊎◌, map_err, ◌>>=◌, get_elem?, eqb, if◌then◌else◌,
}
use axelar_relayer_ton.Prelude.Int.{ℤ, pos, negsuc}
use axelar_relayer_ton.Externals.{Externals}
use axelar_relayer_ton.Types.{
  Transaction, TransactionMessage, BocError, TransactionParsingError, boc_parsing, message, append,
  boc_error_text, lift_err,
}
use axelar_relayer_ton.GmpTypes.{EventMetadata, CommonEventFields}

pub record MessageMatchingKey : Type 0 where
  pub destination_chain : String
  pub destination_address : String
  pub payload_hash : List ℕ

abbrev pub is_none {ℓ} : {A : Type ℓ} → Option A → Bool
is_none none = true
is_none (some a) = false

abbrev pub is_ok {ℓ κ} : {E : Type ℓ} {A : Type κ} → Outcome E A → Bool
is_ok (ok a) = true
is_ok _ = false

abbrev pub opcode_is : Option ℕ → ℕ → Bool
opcode_is none op_code = false
opcode_is (some opcode) op_code = eqb opcode op_code

module _ {A : Type 0} where
  -- The op code of the incoming message, if there is one.
  abbrev pub in_opcode : Option (TransactionMessage A) → Option ℕ
  in_opcode none = none
  in_opcode (some in_msg) = in_msg.opcode

  -- A log is a message to no destination.
  abbrev pub is_log : Option (TransactionMessage A) → Bool
  is_log none = false
  is_log (some msg) = is_none msg.destination

  unfoldable pub is_log_emmitted_in_opcode : Transaction A → ℕ → ℕ → Bool
  is_log_emmitted_in_opcode tx op_code out_msg_log_index =
      opcode_is (in_opcode tx.in_msg) op_code && is_log (get_elem? tx.out_msgs out_msg_log_index)

  -- The loop of `is_log_emitted`, from index `i` on.
  unfoldable pub is_log_emitted_from : ℕ → List (TransactionMessage A) → ℕ → ℤ
  is_log_emitted_from i [] op_code = negsuc 0
  is_log_emitted_from i (msg ∷ msgs) op_code =
      let rest = is_log_emitted_from (suc i) msgs op_code in
      if is_none msg.destination && opcode_is msg.opcode op_code then pos i else rest

  unfoldable pub is_log_emitted : Transaction A → ℕ → ℤ
  unfolding is_log_emitted_from
  is_log_emitted tx op_code = is_log_emitted_from 0 tx.out_msgs op_code

-- The state of a parser: its Rust structs have these fields, `log_position` in the four that look
-- for the log's position (-1 until a match).
pub record ParserState (A L : Type 0) : Type 0 where
  pub log : Option L
  pub tx : Transaction A
  pub allowed_address : A
  pub log_position : ℤ

abbrev pub new : {A L : Type 0} → Transaction A → A → ParserState A L
new tx allowed_address = record {
  log = none;
  tx = tx;
  allowed_address = allowed_address;
  log_position = negsuc 0;
}

-- `&self.tx.out_msgs[i].message_content.body`
abbrev pub out_body : {A : Type 0} → Transaction A → ℕ → Outcome TransactionParsingError String
out_body tx i = do msg ← or_panic (get_elem? tx.out_msgs i); ok msg.message_content.body

module _ {A L : Type 0} where
  -- `self.log = Some(X::from_boc_b64(body).map_err(..)?)`, unless there is a log
  abbrev pub parse_body :
      (String → Outcome BocError L)
      → Outcome TransactionParsingError String
      → ParserState A L
      → Outcome TransactionParsingError (Bool × ParserState A L)
  parse_body from_boc_b64 body s = elim s.log [
    | some log ↦ ok (true, s)
    | none ↦ (do
      text ← body
      log ← map_err (λ e. boc_parsing (boc_error_text e)) (from_boc_b64 text)
      ok (true, record s { log = some log }))
  ]

  -- The parse of the log at a position, which is not done at a negative one.
  abbrev pub parse_at :
      ℤ
      → (String → Outcome BocError L)
      → ParserState A L
      → Outcome TransactionParsingError (Bool × ParserState A L)
  parse_at (pos i) from_boc_b64 s = parse_body from_boc_b64 (out_body s.tx i) s
  parse_at (negsuc _) from_boc_b64 s = ok (false, s)

  -- `check_match` of a parser that looks for the log's position
  abbrev pub match_at : ℤ → ParserState A L → Bool × ParserState A L
  match_at (pos i) s = (true, record s { log_position = pos i })
  match_at (negsuc _) s = (false, s)

  -- `match self.log.clone() { Some(log) => log, None => return Err(..) }`
  abbrev pub the_log : ParserState A L → Outcome TransactionParsingError L
  the_log s = ok_or s.log (message "Missing log")

-- the message id that the caller gives
abbrev pub given_id : Option String → Outcome TransactionParsingError String
given_id id = ok_or id (message "Missing message_id")

-- the message id of the parser itself
abbrev pub own_id : Option String → Outcome TransactionParsingError String
own_id id = ok_or id (message "Missing message id")

abbrev pub common : {M : Type 0} → String → String → Option M → CommonEventFields M
common event_type event_id meta = record {
  event_type = event_type;
  event_id = event_id;
  meta = meta;
}

abbrev pub metadata : String → Option (List (String × String)) → String → EventMetadata
metadata tx_id source_context timestamp = record {
  tx_id = some tx_id;
  from_address = none;
  finalized = none;
  source_context = source_context;
  timestamp = timestamp;
}

abbrev pub conversion {ℓ} : {A : Type ℓ} → String ⊎ A → Outcome String A
conversion = lift_err (λ e. append "ConversionError: " e)

module _ (lib : Externals) where
  open lib use {
    Address, address_eq, base64_decode, get_price, decimal_from_str, decimal_mul, decimal_div,
    decimal_round, show_decimal, show_number, parse_biguint, hex_encode, to_lowercase,
  }

  unfoldable pub hash_to_message_id : String → Outcome TransactionParsingError String
  hash_to_message_id hash = elim (base64_decode hash) [
    | inl text ↦ err (message (append "DataError: " text))
    | inr bytes ↦ ok (append "0x" (to_lowercase (hex_encode bytes)))
  ]

  -- Every error is a `GasError::ConversionError`, kept as its text.
  unfoldable pub convert_jetton_to_native : String → ℕ → Outcome String ℕ
  convert_jetton_to_native minter amount = do
    coin_to_usd ← conversion (get_price (append minter "/USD"))
    ton_to_usd ← conversion (get_price "TON/USD")
    decimal ←
        lift_err (λ e. append "ConversionError: Invalid amount: " e)
          (decimal_from_str (show_number amount))
    usd ← or_panic (decimal_mul decimal coin_to_usd)
    ton ← or_panic (decimal_div usd ton_to_usd)
    conversion (parse_biguint (show_decimal (decimal_round ton)))

  -- `self.tx.account == self.allowed_address`
  abbrev pub from_allowed : {L : Type 0} → ParserState Address L → Bool
  from_allowed s = address_eq.eq s.tx.account s.allowed_address

  -- `check_match` of a parser that looks at one log for the op code of the incoming message
  abbrev pub match_opcode :
      {L : Type 0}
      → ℕ
      → ℕ
      → ParserState Address L
      → Outcome TransactionParsingError (Bool × ParserState Address L)
  match_opcode op_code index s =
      ok (if from_allowed s then is_log_emmitted_in_opcode s.tx op_code index else false, s)

  -- `check_match` of a parser that looks for a log with an op code
  abbrev pub match_log :
      {L : Type 0}
      → ℕ
      → ParserState Address L
      → Outcome TransactionParsingError (Bool × ParserState Address L)
  match_log op_code s =
      if from_allowed s then ok (match_at (is_log_emitted s.tx op_code) s) else ok (false, s)
