-- ===== src/Boc/CellTo/Fuel.antt =====
-- src/boc/cell_to.rs: the fuel of the loop over the references is enough.
use axelar_relayer_ton.Prelude.{ℕ, zero, suc, ◌<◌, ◌⊎◌, inl, inr, ◌++◌, ◌≡◌, refl, ap, arith}
use axelar_relayer_ton.Externals.{Externals}
use axelar_relayer_ton.Boc.CellTo.{bytes_per_cell, load_bytes, load_chain}

reference-cases : {A B : Type 0} (o : A ⊎ B) → ((a : A) × (o ≡ inl a)) ⊎ ((b : B) × (o ≡ inr b))
reference-cases (inl a) = inl (a, refl)
reference-cases (inr b) = inr (b, refl)

-- Suppose that the first reference that is left when the bytes of a cell are read leads to a cell with
-- less below it.
module _ (lib : Externals)
    (below : (cell next : lib.Cell) (p : lib.CellParser)
      → lib.next_reference (load_bytes lib bytes_per_cell (lib.parser cell)).1 ≡ inr (next, p)
      → lib.depth next < lib.depth cell) where
  -- With more fuel than the depth of the first cell, more fuel reads no more.
  load_chain-enough :
      (f g : ℕ) (cell : lib.Cell)
      → lib.depth cell < f
      → lib.depth cell < g
      → load_chain lib f cell ≡ load_chain lib g cell
  unfolding load_chain
  load_chain-enough zero g cell hf hg = absurd (omega arith)
  load_chain-enough (suc f) zero cell hf hg = absurd (omega arith)
  load_chain-enough (suc f) (suc g) cell hf hg =
      elim (reference-cases
        (lib.next_reference (load_bytes lib bytes_per_cell (lib.parser cell)).1)) [
          | inl (error, e) ↦ rw (e, load_chain) refl
          | inr ((next, p), e) ↦
              (let less = below cell next p e in
                rw (e, load_chain)
                  (ap (λ rest. (load_bytes lib bytes_per_cell (lib.parser cell)).0 ++ rest)
                    (load_chain-enough f g next (omega (arith, less)) (omega (arith, less)))))
        ]
