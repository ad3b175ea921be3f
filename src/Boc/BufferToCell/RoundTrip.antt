-- ===== src/Boc/BufferToCell/RoundTrip.antt =====
-- src/boc/buffer_to_cell.rs and src/boc/cell_to.rs: the bytes that are written are the bytes that are
-- read.
use mathlib.Core.List.{append-nil, append_assoc}
use axelar_relayer_ton.Prelude.{
  ℕ, zero, suc, ◌+◌, ◌-◌, ◌%◌, ◌≤◌, ◌<◌, inl, inr, true, false, List, [], ◌∷◌, ◌++◌, ◌≡◌, refl, sym,
  ap, subst, ◌∙◌, ok, ltb, Bool-cases, length, length-append, length-drop, length-take-le, take,
  drop, drop-add, take-all, take-append-drop, All, All-drop, All-take, arith,
}
use axelar_relayer_ton.Externals.{Externals}
use axelar_relayer_ton.Boc.CellLaws.{CellLaws}
use axelar_relayer_ton.Boc.CellTo.{bytes_per_cell, load_bytes, load_chain, cell_to_buffer}
use axelar_relayer_ton.Boc.BufferToCell.{min, store_bytes, build_cell_chain, buffer_to_cell}

abbrev pub IsByte : ℕ → Type 0
IsByte byte = byte < 256

end-more :
    (start n : ℕ)
    → ltb (min (start + bytes_per_cell) n) n ≡ true
    → (min (start + bytes_per_cell) n ≡ start + bytes_per_cell) × (start + bytes_per_cell < n)
end-more start n more = ground arith

end-last :
    (start n : ℕ)
    → start ≤ n
    → ltb (min (start + bytes_per_cell) n) n ≡ false
    → (min (start + bytes_per_cell) n ≡ n) × (n ≤ start + bytes_per_cell)
end-last start n within last = ground arith

module _ (lib : Externals) (laws : CellLaws lib) where
  open lib use {Cell, CellBuilder, CellParser, parser, depth, new_builder, build, store_reference}
  open laws use {Holds, Left}

  store_bytes-Holds :
      (bytes front : List ℕ) (b : CellBuilder) (refs : List Cell)
      → All IsByte bytes
      → Holds b front refs
      → length front + length bytes ≤ 127
      → (b' : CellBuilder) × (store_bytes lib bytes b ≡ ok b') × Holds b' (front ++ bytes) refs
  unfolding store_bytes
  store_bytes-Holds [] front b refs small holds fits =
      (b, refl, subst (λ xs. Holds b xs refs) (sym (append-nil front)) holds)
  store_bytes-Holds (byte ∷ bytes) front b refs small holds fits =
      let (b', e, holds') = laws.store_byte b front refs byte holds small.0 (omega arith) in
      let (b'', e', holds'') =
        store_bytes-Holds bytes (front ++ byte ∷ []) b' refs small.1 holds'
          (omega (arith, length-append {0} front (byte ∷ []))) in
      (
        b'',
        rw (e, store_bytes) e',
        subst (λ xs. Holds b'' xs refs) (append_assoc front (byte ∷ []) bytes) holds'',
      )

  load_bytes-Left :
      (n : ℕ) (bytes : List ℕ) (p : CellParser) (refs : List Cell)
      → All IsByte bytes
      → Left p bytes refs
      → length bytes ≤ n
      → (q : CellParser) × (load_bytes lib n p ≡ (bytes, q)) × Left q [] refs
  unfolding load_bytes
  load_bytes-Left zero [] p refs small left fits = (p, refl, left)
  load_bytes-Left zero (byte ∷ bytes) p refs small left fits = absurd (omega arith)
  load_bytes-Left (suc n) [] p refs small left fits =
      let (error, e) = laws.load_no_byte p refs left in (p, rw (e, load_bytes), left)
  load_bytes-Left (suc n) (byte ∷ bytes) p refs small left fits =
      let (p', e, left') = laws.load_byte p byte bytes refs left in
      let (q, e', left'') = load_bytes-Left n bytes p' refs small.1 left' (omega arith) in
      let whole : byte % 256 ≡ byte = omega (arith, small.0) in
      (q, rw (e, e', whole, load_bytes), left'')

  load_chain-last :
      (bytes : List ℕ) (cell : Cell) (f : ℕ)
      → All IsByte bytes
      → Left (parser cell) bytes []
      → length bytes ≤ bytes_per_cell
      → load_chain lib (suc f) cell ≡ bytes
  unfolding load_chain
  load_chain-last bytes cell f small left fits =
      let (q, e, left') = load_bytes-Left bytes_per_cell bytes (parser cell) [] small left fits in
      let (error, e') = laws.next_no_ref q [] left' in rw (e, e', load_chain) (ap (λ r. r.0) e)

  load_chain-more :
      (bytes : List ℕ) (cell next : Cell) (f : ℕ)
      → All IsByte bytes
      → Left (parser cell) bytes (next ∷ [])
      → length bytes ≤ bytes_per_cell
      → load_chain lib (suc f) cell ≡ bytes ++ load_chain lib f next
  unfolding load_chain
  load_chain-more bytes cell next f small left fits =
      let (q, e, left') =
        load_bytes-Left bytes_per_cell bytes (parser cell) (next ∷ []) small left fits in
      let (q', e', left'') = laws.next_ref q [] next [] left' in
      rw (e, e', load_chain) (ap (λ r. r.0 ++ load_chain lib f next) e)

  -- The bytes are read from the cell, with fuel for its depth.
  abbrev pub Reads : Cell → List ℕ → Type 0
  Reads cell bytes = (f : ℕ) → depth cell ≤ f → load_chain lib (suc f) cell ≡ bytes

  Reads-below :
      (cell : Cell) (bytes : List ℕ) (f : ℕ)
      → Reads cell bytes
      → depth cell < f
      → load_chain lib f cell ≡ bytes
  Reads-below cell bytes zero reads deep = absurd (omega arith)
  Reads-below cell bytes (suc f) reads deep = reads f (omega arith)

  -- The last cell of a chain, and a cell before another.
  build-last :
      (bytes : List ℕ)
      → All IsByte bytes
      → length bytes ≤ bytes_per_cell
      → (b : CellBuilder) × (cell : Cell) × (store_bytes lib bytes new_builder ≡ ok b)
        × (build b ≡ inr cell)
        × Reads cell bytes
  build-last bytes small fits =
      let (b, e, holds) =
        store_bytes-Holds bytes [] new_builder [] small laws.new_lem (omega arith) in
      let (cell, e', left, below) = laws.build_lem b bytes [] holds in
      (b, cell, e, e', λ f deep. load_chain-last bytes cell f small left fits)

  build-more :
      (bytes rest : List ℕ) (next : Cell)
      → All IsByte bytes
      → length bytes ≤ bytes_per_cell
      → Reads next rest
      → (b b' : CellBuilder) × (cell : Cell) × (store_bytes lib bytes new_builder ≡ ok b)
        × (store_reference next b ≡ inr b')
        × (build b' ≡ inr cell)
        × Reads cell (bytes ++ rest)
  build-more bytes rest next small fits reads =
      let (b, e, holds) =
        store_bytes-Holds bytes [] new_builder [] small laws.new_lem (omega arith) in
      let (b', e', holds') = laws.store_ref b bytes [] next holds (omega arith) in
      let (cell, e'', left, below) = laws.build_lem b' bytes (next ∷ []) holds' in
      (
        b,
        b',
        cell,
        e,
        e',
        e'',
        λ f deep.
            load_chain-more bytes cell next f small left fits
            ∙ ap (λ xs. bytes ++ xs) (Reads-below next rest f reads (omega (arith, below.0))),
      )

  -- Enough fuel gives a chain of cells from which the rest of the buffer is read.
  build_cell_chain-Reads :
      (fuel start : ℕ) (buffer : List ℕ)
      → All IsByte buffer
      → start ≤ length buffer
      → length buffer - start < fuel
      → (cell : Cell) × (build_cell_chain lib fuel start buffer ≡ ok cell)
        × Reads cell (drop start buffer)
  unfolding build_cell_chain
  build_cell_chain-Reads zero start buffer small within enough = absurd (omega arith)
  build_cell_chain-Reads (suc fuel) start buffer small within enough =
      let end_index : ℕ = min (start + bytes_per_cell) (length buffer) in
      let n : ℕ = end_index - start in
      let rest : List ℕ = drop start buffer in
      let chunk_small = All-take IsByte n rest (All-drop IsByte start buffer small) in
      elim (Bool-cases (ltb end_index (length buffer))) [
        | inl more ↦
            (let (at, below) = end-more start (length buffer) more in
              let fits : length (take n rest) ≤ bytes_per_cell =
                omega (arith, length-take-le n rest, at) in
              let (next, e, reads) =
                build_cell_chain-Reads fuel end_index buffer small (omega (arith, at, below))
                  (omega (arith, at, below)) in
              let (b, b', cell, e1, e2, e3, all) =
                build-more (take n rest) (drop end_index buffer) next chunk_small fits reads in
              let here : start + n ≡ end_index = omega (arith, at) in
              let joined : take n rest ++ drop end_index buffer ≡ rest =
                ap (λ k. take n rest ++ drop k buffer) (sym here)
                ∙ ap (λ xs. take n rest ++ xs) (sym (drop-add n start buffer))
                ∙ take-append-drop n rest in
              (cell, rw (more, e1, e, e2, e3), λ f deep. all f deep ∙ joined))
        | inr last ↦
            (let (at, near) = end-last start (length buffer) within last in
              let fits : length (take n rest) ≤ bytes_per_cell =
                omega (arith, length-take-le n rest, at, near) in
              let (b, cell, e1, e2, all) = build-last (take n rest) chunk_small fits in
              let reaches : length rest ≤ n = omega (arith, length-drop start buffer, at) in
              (cell, rw (last, e1, e2), λ f deep. all f deep ∙ take-all n rest reaches))
      ]

  -- If the cells of the library keep the bytes and the references that are stored in them,
  -- `buffer_to_cell` succeeds for every buffer of bytes, however long, and `cell_to_buffer` reads that
  -- buffer back.
  pub buffer_to_cell-cell_to_buffer :
      (buffer : List ℕ)
      → All IsByte buffer
      → (cell : Cell) × (buffer_to_cell lib buffer ≡ ok cell)
        × (cell_to_buffer lib cell ≡ ok buffer)
  unfolding buffer_to_cell cell_to_buffer
  buffer_to_cell-cell_to_buffer buffer small =
      let (cell, e, reads) =
        build_cell_chain-Reads (suc (length buffer)) 0 buffer small (omega arith) (omega arith) in
      (cell, e, ap ok (reads (depth cell) (omega arith)))
