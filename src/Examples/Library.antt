-- ===== src/Examples/Library.antt =====
-- A library for the examples: a cell is its bytes and the bytes of the cells that it refers to, an
-- address is a number, and a text of a cell is one of a few names.
use axelar_relayer_ton.Prelude.{
  ℕ, suc, zero, ◌/◌, ◌*◌, String, ◌⊎◌, inl, inr, Option, none, some, List, [], ◌∷◌, nat_eq, ◌==◌,
  string_eq, if◌then◌else◌,
}
use axelar_relayer_ton.Prelude.Int.{pos}
use axelar_relayer_ton.Externals.{Externals}

abbrev pub TestCell : Type 0
TestCell = List ℕ × List (List ℕ)

-- The first `n` elements and the rest, if there are as many.
abbrev pub split : ℕ → List ℕ → Option (List ℕ × List ℕ)
split zero xs = some ([], xs)
split (suc n) [] = none
split (suc n) (x ∷ xs) = elim (split n xs) [
  | none ↦ none
  | some (front, back) ↦ some (x ∷ front, back)
]

abbrev pub one : TestCell → String ⊎ (ℕ × TestCell)
one ([], refs) = inl "underflow"
one (byte ∷ bytes, refs) = inr (byte, (bytes, refs))

abbrev pub bits : ℕ → TestCell → String ⊎ (List ℕ × TestCell)
bits n (bytes, refs) = elim (split (n / 8) bytes) [
  | none ↦ inl "underflow"
  | some (front, back) ↦ inr (front, (back, refs))
]

abbrev pub reference : TestCell → String ⊎ (TestCell × TestCell)
reference (bytes, []) = inl "no reference"
reference (bytes, child ∷ refs) = inr ((child, []), (bytes, refs))

abbrev pub text_of : List ℕ → String ⊎ String
text_of [] = inl "empty"
text_of (byte ∷ _) = inr (if byte == 101 then "chain" else "address")

abbrev pub zeros : ℕ → List ℕ
zeros zero = []
zeros (suc n) = 0 ∷ zeros n

abbrev pub append_zeros : ℕ → List ℕ → List ℕ
append_zeros zero xs = xs
append_zeros (suc n) xs = 0 ∷ append_zeros n xs

-- A call of the contract "address" on "chain", and a payment for it.
abbrev pub boc : String → String ⊎ TestCell
boc text =
    if text == "call"
    then inr (7 ∷ zeros 32, (101 ∷ []) ∷ (102 ∷ []) ∷ (1 ∷ 2 ∷ []) ∷ [])
    else if text == "gas"
    then inr (7 ∷ append_zeros 32 (zeros 32), (8 ∷ []) ∷ (101 ∷ []) ∷ (102 ∷ []) ∷ [])
    else inl "not a cell"

abbrev pub store : ℕ → TestCell → String ⊎ TestCell
store value (bytes, refs) = inr (value ∷ bytes, refs)

abbrev pub library : Externals
library = record {
  Address = ℕ;
  address_eq = nat_eq;
  to_hex = λ _. "0:00";
  address_from_str = λ _. inr 0;
  address_new = λ n _. n;
  address_from_hex_str = λ _. inr 0;
  address_from_base64_url =
      λ text. if text == "a" then inr 1 else if text == "b" then inr 2 else inl "no address";
  show_address = λ _. "wallet";
  hash_part = λ _. zeros 32;
  null_address = 0;
  tonhash_from_hex = λ _. inr (zeros 32);
  Cell = TestCell;
  CellParser = TestCell;
  cell_from_boc_b64 = boc;
  parser = λ cell. cell;
  cell_data = λ cell. cell.0;
  next_reference = reference;
  load_bits = bits;
  load_uint = λ _. one;
  load_u8 = λ _. one;
  load_i16 = λ _ p. inl "none";
  load_address = one;
  load_coins = one;
  load_tonhash = bits 256;
  cell_from_boc_hex = boc;
  to_boc_hex = λ _. inr "call";
  serialize_root = λ _. inr (1 ∷ []);
  cell_hash = λ _. 1 ∷ [];
  load_dict = λ _ p. inr ((p.0, []) ∷ [], p);
  CellBuilder = TestCell;
  new_builder = ([], []);
  store_uint = λ _. store;
  store_int = λ _. store;
  store_number = λ _. store;
  store_slice = λ _. store 0;
  store_reference = λ cell. store 1;
  store_address = store;
  store_coins = store;
  store_tonhash = λ _. store 0;
  build = λ b. inr b;
  build_transfer = λ _ body. inr body;
  write_out_list = λ _. store 2;
  ext_in_message = λ _ body. inr body;
  signature = λ _ _. inr [];
  depth = λ _. 1;
  as_bytes = λ _. 101 ∷ [];
  parse_u64 = λ text. some (if text == "100" then 100 else 7);
  from_utf8 = text_of;
  hex_encode = λ _. "00";
  hex_decode = λ _. inr (1 ∷ []);
  base64_encode = λ _. "AA==";
  base64_decode = λ _. inr (1 ∷ []);
  show_tonhash = λ _. "00";
  show_number = λ n. if n == 0 then "0" else "1";
  show_i64 = λ _. "1";
  show_number_hex = λ _. "0";
  bytes_be = λ n. n ∷ [];
  from_bytes_be = λ _. 1;
  parse_i128 = λ text. some (if text == "100" then pos 100 else pos 0);
  parse_biguint = λ text. inr (if text == "100" then 100 else 1);
  strip_prefix = λ text _. some text;
  to_lowercase = λ text. text;
  keccak256 = λ _. 0;
  Decimal = ℕ;
  decimal_from_str = λ _. inr 1;
  decimal_mul = λ a b. some (a * b);
  decimal_div = λ a b. elim b [ zero ↦ none | suc c ↦ some (a / suc c) ];
  decimal_round = λ a. a;
  show_decimal = λ _. "1";
  get_price = λ _. inr 1;
}
