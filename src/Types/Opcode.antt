-- ===== src/Types/Opcode.antt =====
-- `deserialize_hex_u32` of src/types.rs: the op code of a message, from the JSON value that serde
-- reads.
use Prim.Native.Char.{Char, code}
use axelar_relayer_ton.Prelude.{
  ℕ, zero, suc, ◌+◌, ◌-◌, ◌*◌, ◌%◌, ◌^◌, String, Bool, ◌&&◌, Option, none, some, Outcome, ok, err,
  ◌>>=◌, map_err, eqb, leb, if◌then◌else◌,
}
pub mod Digits

-- serde_json::Value, with the cases that the function tells apart; a number has its `as_u64`.
pub data Value : Type 0 where
  string : String → Value
  number : Option ℕ → Value
  other : Value

-- core::num::ParseIntError
pub data ParseIntError : Type 0 where
  empty invalid_digit pos_overflow : ParseIntError

pub data Error : Type 0 where
  parse_int : ParseIntError → Error
  expected_u64 expected_string_or_number : Error

abbrev pub between : ℕ → ℕ → Char → Bool
between low high c = leb low (code c) && leb (code c) high

-- `char::to_digit(16)`
abbrev pub to_digit : Char → Option ℕ
to_digit c =
    if between 48 57 c
    then some (code c - 48)
    else if between 65 70 c
    then some (code c - 55)
    else if between 97 102 c
    then some (code c - 87)
    else none

-- `checked_mul` and `checked_add` of `u32`
abbrev pub push : (result : ℕ) → Option ℕ → Outcome ParseIntError ℕ
push result none = err invalid_digit
push result (some digit) =
    if leb (2 ^ 32) (result * 16 + digit) then err pos_overflow else ok (result * 16 + digit)

abbrev pub digits : (result : ℕ) → String → Outcome ParseIntError ℕ
digits result String.[] = ok result
digits result (String.◌∷◌ c s) = push result (to_digit c) >>= λ next. digits next s

abbrev pub digits_after_plus : String → Outcome ParseIntError ℕ
digits_after_plus String.[] = err invalid_digit
digits_after_plus (String.◌∷◌ c s) = digits 0 (String.◌∷◌ c s)

-- `u32::from_str_radix(s, 16)`
abbrev pub from_str_radix_16 : String → Outcome ParseIntError ℕ
from_str_radix_16 String.[] = err empty
from_str_radix_16 (String.◌∷◌ c s) =
    if eqb (code c) 43 then digits_after_plus s else digits 0 (String.◌∷◌ c s)

-- `trim_start_matches("0x")`
abbrev pub trim_start_0x : String → String
trim_start_0x String.[] = String.[]
trim_start_0x (String.◌∷◌ c String.[]) = String.◌∷◌ c String.[]
trim_start_0x (String.◌∷◌ c (String.◌∷◌ d s)) =
    let rest = trim_start_0x s in
    if eqb (code c) 48 && eqb (code d) 120 then rest else String.◌∷◌ c (String.◌∷◌ d s)

-- `n as u32`
abbrev pub as_u32 : Option ℕ → Outcome Error (Option ℕ)
as_u32 none = err expected_u64
as_u32 (some n) = ok (some (n % 2 ^ 32))

unfoldable pub deserialize_hex_u32 : Option Value → Outcome Error (Option ℕ)
deserialize_hex_u32 none = ok none
deserialize_hex_u32 (some (string s)) =
    map_err parse_int (from_str_radix_16 (trim_start_0x s)) >>= λ n. ok (some n)
deserialize_hex_u32 (some (number n)) = as_u32 n
deserialize_hex_u32 (some other) = err expected_string_or_number
