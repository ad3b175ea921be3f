-- ===== src/Examples/Cells.antt =====
-- src/boc/buffer_to_cell.rs over cells that keep what is stored in them.
use axelar_relayer_ton.Prelude.{
  ℕ, zero, suc, ap, ◌+◌, ◌<◌, ◌≤◌, String, ◌⊎◌, inl, inr, List, [], ◌∷◌, ◌++◌, ◌≡◌, refl, ok, All,
  arith,
}
use axelar_relayer_ton.Externals.{Externals}
use axelar_relayer_ton.Boc.CellLaws.{CellLaws}
use axelar_relayer_ton.Boc.CellTo.{cell_to_buffer}
use axelar_relayer_ton.Boc.BufferToCell.{buffer_to_cell}
use axelar_relayer_ton.Boc.BufferToCell.RoundTrip.{buffer_to_cell-cell_to_buffer}
use axelar_relayer_ton.Examples.Library.{library}

mutual
  -- A cell is its bytes and the cells that it refers to.
  data Tree : Type 0 where
    node : List ℕ → Trees → Tree

  data Trees : Type 0 where
    nil : Trees
    cons : Tree → Trees → Trees

abbrev forest : Trees → List Tree
forest nil = []
forest (cons tree trees) = tree ∷ forest trees

abbrev trees : List Tree → Trees
trees [] = nil
trees (tree ∷ rest) = cons tree (trees rest)

abbrev mutual
  depth : Tree → ℕ
  depth (node bytes ts) = depth_all ts

  -- More than the depth of each.
  depth_all : Trees → ℕ
  depth_all nil = 0
  depth_all (cons tree rest) = suc (depth tree) + depth_all rest

abbrev Contents : Type 0
Contents = List ℕ × List Tree

abbrev contents : Tree → Contents
contents (node bytes ts) = (bytes, forest ts)

abbrev add_byte : ℕ → Contents → String ⊎ Contents
add_byte byte (bytes, refs) = inr (bytes ++ byte ∷ [], refs)

abbrev add_ref : Tree → Contents → String ⊎ Contents
add_ref tree (bytes, refs) = inr (bytes, refs ++ tree ∷ [])

abbrev built : Contents → String ⊎ Tree
built (bytes, refs) = inr (node bytes (trees refs))

abbrev byte_of : Contents → String ⊎ (ℕ × Contents)
byte_of ([], refs) = inl "underflow"
byte_of (byte ∷ bytes, refs) = inr (byte, (bytes, refs))

abbrev ref_of : Contents → String ⊎ (Tree × Contents)
ref_of (bytes, []) = inl "no reference"
ref_of (bytes, tree ∷ refs) = inr (tree, (bytes, refs))

abbrev tree_library : Externals
tree_library = record library {
  Cell = Tree;
  CellParser = Contents;
  cell_from_boc_b64 = λ _. inl "none";
  parser = contents;
  cell_data = λ tree. (contents tree).0;
  next_reference = ref_of;
  load_bits = λ _ p. inl "none";
  load_uint = λ _. byte_of;
  load_u8 = λ _. byte_of;
  load_i16 = λ _ p. inl "none";
  load_address = byte_of;
  load_coins = byte_of;
  load_tonhash = λ p. inl "none";
  cell_from_boc_hex = λ _. inl "none";
  to_boc_hex = λ _. inr "boc";
  serialize_root = λ _. inr [];
  cell_hash = λ _. [];
  load_dict = λ _ p. inl "none";
  CellBuilder = Contents;
  new_builder = ([], []);
  store_uint = λ _. add_byte;
  store_int = λ _. add_byte;
  store_number = λ _. add_byte;
  store_slice = λ _. add_byte 0;
  store_reference = add_ref;
  store_address = add_byte;
  store_coins = add_byte;
  store_tonhash = λ _. add_byte 0;
  build = built;
  build_transfer = λ _ body. inr body;
  write_out_list = λ _. add_byte 2;
  ext_in_message = λ _ body. inr body;
  depth = depth;
}

forest-trees : (refs : List Tree) → forest (trees refs) ≡ refs
forest-trees [] = refl
forest-trees (tree ∷ refs) = rw (forest-trees refs)

deeper : (refs : List Tree) (n : ℕ) → depth_all (trees refs) ≤ n → All (λ tree. depth tree < n) refs
deeper [] n h = tt
deeper (tree ∷ refs) n h = (omega arith, deeper refs n (omega arith))

abbrev tree_laws : CellLaws tree_library
tree_laws = record {
  Holds = λ b bytes refs. b ≡ (bytes, refs);
  Left = λ p bytes refs. p ≡ (bytes, refs);
  new_lem = refl;
  store_byte = λ b bytes refs byte holds small room. (_, ap (add_byte byte) holds, refl);
  store_ref = λ b bytes refs tree holds room. (_, ap (add_ref tree) holds, refl);
  build_lem = λ b bytes refs holds. (
    node bytes (trees refs),
    ap built holds,
    ap (λ rs. (bytes, rs)) (forest-trees refs),
    deeper refs (depth_all (trees refs)) (omega arith),
  );
  load_byte = λ p byte bytes refs left. (_, ap byte_of left, refl);
  load_no_byte = λ p refs left. (_, ap byte_of left);
  next_ref = λ p bytes tree refs left. (_, ap ref_of left, refl);
  next_no_ref = λ p bytes left. (_, ap ref_of left);
}

-- A hundred bytes, which take two cells.
abbrev many : ℕ → List ℕ
many zero = []
many (suc n) = 7 ∷ many n

buffer_to_cell-cell_to_buffer_example :
    (cell : Tree) × (buffer_to_cell tree_library (many 100) ≡ ok cell)
    × (cell_to_buffer tree_library cell ≡ ok (many 100))
buffer_to_cell-cell_to_buffer_example =
    buffer_to_cell-cell_to_buffer tree_library tree_laws (many 100) (omega arith)
