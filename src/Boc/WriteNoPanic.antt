-- ===== src/Boc/WriteNoPanic.antt =====
-- src/boc/: writing a message, and reading an approval, ends with a cell or an error.
use axelar_relayer_ton.Prelude.{
  ℕ, zero, suc, ◌+◌, ◌-◌, ◌≤◌, ◌<◌, String, ◌⊎◌, inl, inr, Bool, true, false, Option, none, some,
  List, [], ◌∷◌, ◌≡◌, refl, Outcome, ok, err, panic, map_err, ok_or, ◌>>=◌, Ensures, returns, fails,
  Ensures-panic, Ensures-map_err, Ensures->>=, ltb, length, take, drop, arith, Bool-cases,
  if◌then◌else◌,
}
use axelar_relayer_ton.Externals.{Externals}
use axelar_relayer_ton.Types.{BocError, boc_parsing_error}
use axelar_relayer_ton.Boc.{run}
use axelar_relayer_ton.Boc.NoPanic.{Returns, Returns-lift_err, Returns-run, reads}
use axelar_relayer_ton.Boc.BufferToCell.{
  min, store_bytes, store_next, build_cell_chain, buffer_to_cell,
}
use axelar_relayer_ton.Boc.CellTo.{bytes_per_cell}
use axelar_relayer_ton.Boc.NativeRefund
use axelar_relayer_ton.Boc.RelayerExecuteMessage
use axelar_relayer_ton.Boc.ApproveMessage

pub Returns-map_err :
    {E F A : Type 0} (f : E → F) (m : Outcome E A) → Returns m → Returns (map_err f m)
Returns-map_err f m h = Ensures-map_err f m h

pub Returns->>= :
    {E A B : Type 0} (m : Outcome E A) (f : A → Outcome E B)
    → Returns m
    → ((a : A) → Returns (f a))
    → Returns (m >>= f)
Returns->>= m f h k = Ensures->>= m f h (λ a _. k a)

pub Returns-ok_or : {E A : Type 0} (o : Option A) (e : E) → Returns (ok_or o e)
Returns-ok_or none e = fails
Returns-ok_or (some a) e = returns tt

pub ruleset steps = (Returns->>=, Returns-map_err, Returns-lift_err, Returns-ok_or, returns, fails)

end-later :
    (start n : ℕ)
    → ltb (min (start + bytes_per_cell) n) n ≡ true
    → (start < min (start + bytes_per_cell) n) × (min (start + bytes_per_cell) n < n)
end-later start n more = ground arith

module _ (lib : Externals) where
  store_bytes-Returns : (bytes : List ℕ) (b : lib.CellBuilder) → Returns (store_bytes lib bytes b)
  unfolding store_bytes
  store_bytes-Returns [] b = returns tt
  store_bytes-Returns (byte ∷ bytes) b =
      Returns->>= _ _ (Returns-lift_err _ _) (λ b'. store_bytes-Returns bytes b')

  store_next-Returns :
      (more : Bool) (next : Outcome BocError lib.Cell) (b : lib.CellBuilder)
      → (more ≡ true → Returns next)
      → Returns (store_next lib more next b)
  store_next-Returns false next b h = returns tt
  store_next-Returns true next b h = Returns->>= next _ (h refl) (λ cell. Returns-lift_err _ _)

  build_cell_chain-Returns :
      (fuel start : ℕ) (buffer : List ℕ)
      → length buffer - start < fuel
      → Returns (build_cell_chain lib fuel start buffer)
  unfolding build_cell_chain
  build_cell_chain-Returns zero start buffer enough = absurd (omega arith)
  build_cell_chain-Returns (suc fuel) start buffer enough =
      let end_index : ℕ = min (start + bytes_per_cell) (length buffer) in
      Returns->>= (store_bytes lib (take (end_index - start) (drop start buffer)) lib.new_builder) _
        (store_bytes-Returns _ _)
        λ b.
          Returns->>=
            (store_next lib (ltb end_index (length buffer))
              (build_cell_chain lib fuel end_index buffer) b)
            _
            (store_next-Returns (ltb end_index (length buffer)) _ b λ more.
              build_cell_chain-Returns fuel end_index buffer
                (omega (arith, end-later start (length buffer) more)))
            (λ b'. Returns-lift_err _ _)

  pub buffer_to_cell-Returns : (buffer : List ℕ) → Returns (buffer_to_cell lib buffer)
  unfolding buffer_to_cell
  buffer_to_cell-Returns buffer =
      build_cell_chain-Returns (suc (length buffer)) 0 buffer (omega arith)

  pub native_refund-Returns :
      (m : NativeRefund.NativeRefundMessage lib) → Returns (NativeRefund.to_cell lib m)
  unfolding NativeRefund.to_cell
  native_refund-Returns m = search (steps) depth 16

  pub relayer_execute-Returns :
      (m : RelayerExecuteMessage.RelayerExecuteMessage lib)
      → Returns (RelayerExecuteMessage.to_cell lib m)
  unfolding RelayerExecuteMessage.to_cell
  relayer_execute-Returns m = search (steps, buffer_to_cell-Returns) depth 30

  parse_approve_messages-Returns :
      (cell : lib.Cell) → Returns (ApproveMessage.parse_approve_messages lib cell)
  unfolding ApproveMessage.parse_approve_messages
  parse_approve_messages-Returns cell = search (reads, Returns-run) depth 24

  collect_messages-Returns :
      (cells : List lib.Cell) → Returns (ApproveMessage.collect_messages lib cells)
  unfolding ApproveMessage.collect_messages
  collect_messages-Returns [] = returns tt
  collect_messages-Returns (cell ∷ cells) =
      Returns->>= _ _ (parse_approve_messages-Returns cell)
        λ message. Returns->>= _ _ (collect_messages-Returns cells) λ messages. returns tt

  pub approve_messages-Returns : (boc : String) → Returns (ApproveMessage.from_boc_hex lib boc)
  unfolding ApproveMessage.from_boc_hex
  approve_messages-Returns boc = read (lib.cell_from_boc_hex boc)
    where
      read :
          (o : String ⊎ lib.Cell)
          → Returns (elim o [
            | inl text ↦ err (boc_parsing_error text)
            | inr cell ↦ run (ApproveMessage.approve_messages lib) (lib.parser cell)
          ])
      read (inl text) = fails
      read (inr cell) = search (reads, Returns-run, collect_messages-Returns) depth 24
