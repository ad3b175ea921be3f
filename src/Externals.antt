-- ===== src/Externals.antt =====
-- What the code calls and the repository does not contain: tonlib (addresses, cells), num-bigint,
-- hex, base64, tiny-keccak and the text conversions. It is a parameter of all that uses it. A call
-- that can fail returns `inl` of the error's text, or `inr` of its value.
use axelar_relayer_ton.Prelude.{ℕ, String, Bool, ◌⊎◌, Option, List, PartialEq}
use axelar_relayer_ton.Prelude.Int.{ℤ}

-- tonlib_core::message::InternalMessage, and the one action that the code makes of
-- tonlib_core::tlb_types::block::out_action::OutAction, which is SendMsg.
pub record InternalMessage (A : Type 0) : Type 0 where
  pub ihr_disabled : Bool
  pub bounce : Bool
  pub bounced : Bool
  pub src : A
  pub dest : A
  pub value : ℕ
  pub ihr_fee : ℕ
  pub fwd_fee : ℕ
  pub created_lt : ℕ
  pub created_at : ℕ

pub record OutAction (C : Type 0) : Type 0 where
  pub mode : ℕ
  pub out_msg : C

pub record Externals : Type 1 where
  -- tonlib_core::TonAddress
  pub Address : Type 0
  pub address_eq : PartialEq Address
  pub to_hex : Address → String
  pub address_from_str : String → String ⊎ Address
  pub address_new : ℕ → List ℕ → Address
  pub address_from_hex_str : String → String ⊎ Address
  pub address_from_base64_url : String → String ⊎ Address
  pub show_address : Address → String
  pub hash_part : Address → List ℕ
  pub null_address : Address
  -- tonlib_core::TonHash
  pub tonhash_from_hex : String → String ⊎ List ℕ
  -- tonlib_core::cell::{Cell, CellParser}; a load takes the parser and returns what is left of it
  pub Cell : Type 0
  pub CellParser : Type 0
  pub cell_from_boc_b64 : String → String ⊎ Cell
  pub parser : Cell → CellParser
  pub cell_data : Cell → List ℕ
  pub next_reference : CellParser → String ⊎ (Cell × CellParser)
  pub load_bits : ℕ → CellParser → String ⊎ (List ℕ × CellParser)
  pub load_uint : ℕ → CellParser → String ⊎ (ℕ × CellParser)
  pub load_u8 : ℕ → CellParser → String ⊎ (ℕ × CellParser)
  pub load_i16 : ℕ → CellParser → String ⊎ (ℤ × CellParser)
  pub load_address : CellParser → String ⊎ (Address × CellParser)
  pub load_coins : CellParser → String ⊎ (ℕ × CellParser)
  pub load_tonhash : CellParser → String ⊎ (List ℕ × CellParser)
  -- `Cell::from_boc_hex`, `Cell::to_boc_hex(true)`, `BagOfCells::from_root` with `serialize(true)`
  pub cell_from_boc_hex : String → String ⊎ Cell
  pub to_boc_hex : Cell → String ⊎ String
  pub serialize_root : Cell → String ⊎ List ℕ
  pub cell_hash : Cell → List ℕ
  -- `load_dict(n, key_reader_u8, val_reader_ref_cell)`: the values, in the order of the hash map
  pub load_dict : ℕ → CellParser → String ⊎ (List Cell × CellParser)
  -- tonlib_core::cell::CellBuilder; a store takes the builder and returns the new one
  pub CellBuilder : Type 0
  pub new_builder : CellBuilder
  pub store_uint : ℕ → ℕ → CellBuilder → String ⊎ CellBuilder
  pub store_int : ℕ → ℕ → CellBuilder → String ⊎ CellBuilder
  pub store_number : ℕ → ℕ → CellBuilder → String ⊎ CellBuilder
  pub store_slice : List ℕ → CellBuilder → String ⊎ CellBuilder
  pub store_reference : Cell → CellBuilder → String ⊎ CellBuilder
  pub store_address : Address → CellBuilder → String ⊎ CellBuilder
  pub store_coins : ℕ → CellBuilder → String ⊎ CellBuilder
  pub store_tonhash : List ℕ → CellBuilder → String ⊎ CellBuilder
  pub build : CellBuilder → String ⊎ Cell
  -- `TransferMessage::new(common, body).build()`, `OutList::new(actions)` with `write`, and the cell of
  -- a `Message` from outside
  pub build_transfer : InternalMessage Address → Cell → String ⊎ Cell
  pub write_out_list : List (OutAction Cell) → CellBuilder → String ⊎ CellBuilder
  pub ext_in_message : Address → Cell → String ⊎ Cell
  -- nacl::sign::signature, of a text by a secret key
  pub signature : List ℕ → List ℕ → String ⊎ List ℕ
  -- the depth of the tree of cells below a cell: it bounds the loop that follows references
  pub depth : Cell → ℕ
  -- texts: String::from_utf8, hex, base64, the `Display` of a TonHash and of numbers, and parsing
  pub as_bytes : String → List ℕ
  pub parse_u64 : String → Option ℕ
  pub from_utf8 : List ℕ → String ⊎ String
  pub hex_encode : List ℕ → String
  pub hex_decode : String → String ⊎ List ℕ
  pub base64_encode : List ℕ → String
  pub base64_decode : String → String ⊎ List ℕ
  pub show_tonhash : List ℕ → String
  pub show_number : ℕ → String
  pub show_i64 : ℤ → String
  pub show_number_hex : ℕ → String
  pub bytes_be : ℕ → List ℕ
  pub from_bytes_be : List ℕ → ℕ
  pub parse_i128 : String → Option ℤ
  pub parse_biguint : String → String ⊎ ℕ
  pub strip_prefix : String → String → Option String
  pub to_lowercase : String → String
  pub keccak256 : List ℕ → ℕ
  -- rust_decimal::Decimal and the price view; `none` is an overflow or a division by zero, which
  -- panic
  pub Decimal : Type 0
  pub decimal_from_str : String → String ⊎ Decimal
  pub decimal_mul : Decimal → Decimal → Option Decimal
  pub decimal_div : Decimal → Decimal → Option Decimal
  pub decimal_round : Decimal → Decimal
  pub show_decimal : Decimal → String
  pub get_price : String → String ⊎ Decimal
