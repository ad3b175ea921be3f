-- ===== src/Boc/CellLaws.antt =====
-- What src/boc/ relies on of tonlib's cells: a builder takes whole bytes up to 1016 bits, which are 127
-- bytes, and four references, and the parser of the cell that it builds gives them back in order.
use axelar_relayer_ton.Prelude.{ℕ, ◌<◌, String, inl, inr, List, [], ◌∷◌, ◌++◌, ◌≡◌, length, All}
use axelar_relayer_ton.Externals.{Externals}

pub record CellLaws (lib : Externals) : Type 1 where
  -- the bytes and the references that a builder holds, and those that a parser has before it
  pub Holds : lib.CellBuilder → List ℕ → List lib.Cell → Type 0
  pub Left : lib.CellParser → List ℕ → List lib.Cell → Type 0
  pub new_lem : Holds lib.new_builder [] []
  pub store_byte :
      (b : lib.CellBuilder) (bytes : List ℕ) (refs : List lib.Cell) (byte : ℕ)
      → Holds b bytes refs
      → byte < 256
      → length bytes < 127
      → (b' : lib.CellBuilder) × (lib.store_uint 8 byte b ≡ inr b')
        × Holds b' (bytes ++ byte ∷ []) refs
  pub store_ref :
      (b : lib.CellBuilder) (bytes : List ℕ) (refs : List lib.Cell) (cell : lib.Cell)
      → Holds b bytes refs
      → length refs < 4
      → (b' : lib.CellBuilder) × (lib.store_reference cell b ≡ inr b')
        × Holds b' bytes (refs ++ cell ∷ [])
  pub build_lem :
      (b : lib.CellBuilder) (bytes : List ℕ) (refs : List lib.Cell)
      → Holds b bytes refs
      → (cell : lib.Cell) × (lib.build b ≡ inr cell)
        × Left (lib.parser cell) bytes refs
        × All (λ child. lib.depth child < lib.depth cell) refs
  pub load_byte :
      (p : lib.CellParser) (byte : ℕ) (bytes : List ℕ) (refs : List lib.Cell)
      → Left p (byte ∷ bytes) refs
      → (p' : lib.CellParser) × (lib.load_uint 8 p ≡ inr (byte, p')) × Left p' bytes refs
  pub load_no_byte :
      (p : lib.CellParser) (refs : List lib.Cell)
      → Left p [] refs
      → (error : String) × (lib.load_uint 8 p ≡ inl error)
  pub next_ref :
      (p : lib.CellParser) (bytes : List ℕ) (cell : lib.Cell) (refs : List lib.Cell)
      → Left p bytes (cell ∷ refs)
      → (p' : lib.CellParser) × (lib.next_reference p ≡ inr (cell, p')) × Left p' bytes refs
  pub next_no_ref :
      (p : lib.CellParser) (bytes : List ℕ)
      → Left p bytes []
      → (error : String) × (lib.next_reference p ≡ inl error)
