-- ===== src/Boc.antt =====
-- src/boc/: the messages that the contracts log, read from cells. The `CellParser` that a Rust
-- function mutates is the state of a `Reader`; after an error nothing reads it, so it is dropped.
pub mod CellTo
pub mod CellLaws
pub mod BufferToCell
pub mod NativeRefund
pub mod RelayerExecuteMessage
pub mod ApproveMessage
pub mod CallContract
pub mod NativeGasPaid
pub mod NativeGasAdded
pub mod NativeGasRefunded
pub mod JettonGasPaid
pub mod JettonGasAdded
pub mod CcMessage
pub mod NullifiedMessage
pub mod RelayerExecuteWrapped
pub mod SignersRotated
pub mod ItsInterchainTransfer
pub mod ItsLinkTokenStarted
pub mod ItsInterchainTokenDeploymentStarted
pub mod ItsTokenMetadataRegistered
pub mod NoPanic
pub mod WriteNoPanic
use CellTo.{cell_to_string, cell_to_buffer}
use axelar_relayer_ton.Prelude.{
  inl, inr, ℕ, zero, suc, ◌+◌, ◌*◌, String, ◌⊎◌, Bool, false, List, [], ◌∷◌, Outcome, ok, err,
  panic, eqb, length, if◌then◌else◌,
}
use axelar_relayer_ton.Externals.{Externals}
use axelar_relayer_ton.Types.{BocError, boc_parsing_error, invalid_op_code, append, lift_err}

abbrev pub Reader : Type 0 → Type 0 → Type 0
Reader P A = P → Outcome BocError (A × P)

infixl 5 ◌>>=◌ ◌>>◌
abbrev pub ◌>>=◌ : {P A B : Type 0} → Reader P A → (A → Reader P B) → Reader P B
◌>>=◌ m f p = elim (m p) [ ok (a, p') ↦ f a p' | err e ↦ err e | panic ↦ panic ]

abbrev pub ◌>>◌ : {P A B : Type 0} → Reader P A → Reader P B → Reader P B
m >> k = m >>= λ _. k

abbrev pub pure : {P A : Type 0} → A → Reader P A
pure a p = ok (a, p)

-- A step that does not touch the parser.
abbrev pub lift : {P A : Type 0} → Outcome BocError A → Reader P A
lift (ok a) p = ok (a, p)
lift (err e) p = err e
lift panic p = panic

-- A load of the library, with `map_err(|err| BocParsingError(err.to_string()))`.
abbrev pub load : {P A : Type 0} → (P → String ⊎ (A × P)) → Reader P A
load f p = lift_err boc_parsing_error (f p)

-- The value that is read from the start of a parser.
abbrev pub run : {P A : Type 0} → Reader P A → P → Outcome BocError A
run m p = elim (m p) [ ok (a, _) ↦ ok a | err e ↦ err e | panic ↦ panic ]

-- op_code.rs: a big-endian `u32`, when there are four bytes
unfoldable pub compare_op_code : ℕ → List ℕ → Bool
compare_op_code expected (a ∷ b ∷ c ∷ d ∷ []) = eqb (((a * 256 + b) * 256 + c) * 256 + d) expected
compare_op_code _ _ = false

-- `try_into` of a vector to `[u8; 32]`
abbrev pub bytes32 : String → List ℕ → Outcome BocError (List ℕ)
bytes32 text bytes = if eqb (length bytes) 32 then ok bytes else err (boc_parsing_error text)

abbrev pub wrong_op_code : String → String → String
wrong_op_code shown got = append (append (append "Expected " shown) ", got ") got

module _ (lib : Externals) where
  open lib use {Cell, CellParser, cell_from_boc_b64, parser, next_reference, hex_encode, load_bits}

  -- `Cell::from_boc_b64`, and what is read from its parser
  abbrev pub read_boc : {A : Type 0} → Reader CellParser A → String → Outcome BocError A
  read_boc m boc = elim (cell_from_boc_b64 boc) [
    | inl text ↦ err (boc_parsing_error text)
    | inr cell ↦ run m (parser cell)
  ]

  -- What is read from the parser of another cell.
  abbrev pub inside : {A : Type 0} → Cell → Reader CellParser A → Reader CellParser A
  inside cell m = lift (run m (parser cell))

  abbrev pub next_string : Reader CellParser String
  next_string = do cell ← load next_reference; lift (cell_to_string lib cell)

  abbrev pub next_buffer : Reader CellParser (List ℕ)
  next_buffer = do cell ← load next_reference; lift (cell_to_buffer lib cell)

  -- `load_bits(256)` into a `[u8; 32]`
  abbrev pub load_bytes32 : String → Reader CellParser (List ℕ)
  load_bytes32 text = do bytes ← load (load_bits 256); lift (bytes32 text bytes)

  -- `load_bits(32)`, and the test that most logs begin with; `shown` is the expected op code as
  -- eight hexadecimal digits
  abbrev pub expect_op_code : ℕ → String → Reader CellParser (Unit {0})
  expect_op_code expected shown = do
    op_code ← load (load_bits 32)
    if compare_op_code expected op_code
        then pure tt
        else lift (err (invalid_op_code (wrong_op_code shown (hex_encode op_code))))
