-- ===== src/Boc/CellTo.antt =====
-- src/boc/cell_to.rs: the bytes and the text of a chain of cells.
pub mod Fuel
use axelar_relayer_ton.Prelude.{
  ℕ, zero, suc, ◌%◌, String, inl, inr, List, [], ◌∷◌, ◌++◌, Outcome, ok,
}
use axelar_relayer_ton.Externals.{Externals}
use axelar_relayer_ton.Types.{BocError, boc_parsing_error, lift_err}

abbrev pub bytes_per_cell : ℕ
bytes_per_cell = 96

module _ (lib : Externals) where
  open lib use {Cell, CellParser, parser, load_uint, next_reference, depth, from_utf8}

  -- The inner loop: at most `n` bytes, and it ends at the first load that fails.
  unfoldable pub load_bytes : ℕ → CellParser → List ℕ × CellParser
  load_bytes zero p = ([], p)
  load_bytes (suc n) p = elim (load_uint 8 p) [
    | inl _ ↦ ([], p)
    | inr (value, p') ↦ (let (bytes, q) = load_bytes n p' in (value % 256 ∷ bytes, q))
  ]

  -- The outer loop, on fuel.
  unfoldable pub load_chain : ℕ → Cell → List ℕ
  load_chain zero cell = []
  load_chain (suc fuel) cell =
      let (bytes, p) = load_bytes bytes_per_cell (parser cell) in
      elim (next_reference p) [ inl _ ↦ bytes | inr (next, _) ↦ bytes ++ load_chain fuel next ]

  unfoldable pub cell_to_buffer : Cell → Outcome BocError (List ℕ)
  unfolding load_chain load_bytes
  cell_to_buffer cell = ok (load_chain (suc (depth cell)) cell)

  unfoldable pub cell_to_string : Cell → Outcome BocError String
  unfolding load_chain load_bytes
  cell_to_string cell = lift_err boc_parsing_error (from_utf8 (load_chain (suc (depth cell)) cell))
