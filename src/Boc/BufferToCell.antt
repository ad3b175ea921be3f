-- ===== src/Boc/BufferToCell.antt =====
-- src/boc/buffer_to_cell.rs: bytes as a chain of cells.
pub mod RoundTrip
use axelar_relayer_ton.Prelude.{
  ℕ, zero, suc, ◌+◌, ◌-◌, List, [], ◌∷◌, Outcome, ok, err, panic, ◌>>=◌, ltb, length, take, drop,
  if◌then◌else◌, inl, inr, Bool, true, false,
}
use axelar_relayer_ton.Externals.{Externals}
use axelar_relayer_ton.Types.{BocError, boc_parsing_error, lift_err}
use axelar_relayer_ton.Boc.CellTo.{bytes_per_cell}

abbrev pub min : ℕ → ℕ → ℕ
min a b = if ltb b a then b else a

module _ (lib : Externals) where
  open lib use {Cell, CellBuilder, new_builder, store_uint, store_reference, build}

  -- The loop over the bytes of one cell.
  unfoldable pub store_bytes : List ℕ → CellBuilder → Outcome BocError CellBuilder
  store_bytes [] b = ok b
  store_bytes (byte ∷ bytes) b = do
    b' ← lift_err boc_parsing_error (store_uint 8 byte b)
    store_bytes bytes b'

  -- The reference to the rest of the chain, if there are more bytes.
  abbrev pub store_next : Bool → Outcome BocError Cell → CellBuilder → Outcome BocError CellBuilder
  store_next false next b = ok b
  store_next true next b = next >>= λ cell. lift_err boc_parsing_error (store_reference cell b)

  -- On fuel, one more than the length of the buffer: each call starts further on.
  unfoldable pub build_cell_chain : (fuel start_index : ℕ) → List ℕ → Outcome BocError Cell
  unfolding store_bytes
  build_cell_chain zero start_index buffer = panic
  build_cell_chain (suc fuel) start_index buffer =
      let end_index = min (start_index + bytes_per_cell) (length buffer) in
      let next = build_cell_chain fuel end_index buffer in
      store_bytes (take (end_index - start_index) (drop start_index buffer)) new_builder >>= λ b.
      store_next (ltb end_index (length buffer)) next b >>= λ b.
      lift_err boc_parsing_error (build b)

  unfoldable pub buffer_to_cell : List ℕ → Outcome BocError Cell
  unfolding build_cell_chain
  buffer_to_cell buffer = build_cell_chain (suc (length buffer)) 0 buffer
