-- ===== src/Types/Opcode/Digits.antt =====
-- src/types.rs: the op code that a text gives is the number that its digits write.
use Prim.Native.Char.{Char, char, code}
use Prim.Native.String.append
use axelar_relayer_ton.Prelude.{
  ℕ, zero, suc, ◌+◌, ◌*◌, ◌^◌, ◌≤◌, ◌<◌, String, true, false, some, Option, List, [], ◌∷◌, ◌≡◌,
  refl, sym, ap, ◌∙◌, inl, inr, Bool-cases, Outcome, ok, err, ◌>>=◌, map_err, eqb, leb,
  if◌then◌else◌, arith,
}
use axelar_relayer_ton.Types.{append}
use axelar_relayer_ton.Types.Opcode.{
  Error, ParseIntError, pos_overflow, parse_int, string, to_digit, digits, from_str_radix_16,
  trim_start_0x, deserialize_hex_u32,
}

-- The characters of the text are these hexadecimal digits.
abbrev pub Writes : String → List ℕ → Type 0
Writes String.[] [] = Unit
Writes (String.◌∷◌ c s) (d ∷ ds) = (to_digit c ≡ some d) × Writes s ds
Writes String.[] (d ∷ ds) = ⊥
Writes (String.◌∷◌ c s) [] = ⊥

-- The power of sixteen with as many digits behind it, and the number that the digits write.
abbrev pub weight : List ℕ → ℕ
weight [] = 1
weight (d ∷ ds) = 16 * weight ds

abbrev pub value : List ℕ → ℕ
value [] = 0
value (d ∷ ds) = d * weight ds + value ds

abbrev checked : ℕ → Outcome ParseIntError ℕ
checked n = if leb (2 ^ 32) n then err pos_overflow else ok n

weight-pos : (ds : List ℕ) → 1 ≤ weight ds
weight-pos [] = omega arith
weight-pos (d ∷ ds) = omega (arith, weight-pos ds)

le_mul_weight : (n w v : ℕ) → 1 ≤ w → n ≤ n * w + v
le_mul_weight n zero v pos = omega arith
le_mul_weight n (suc w) v pos = omega arith

shift_digit : (r d w v : ℕ) → (r * 16 + d) * w + v ≡ r * (16 * w) + (d * w + v)
shift_digit r d w v = omega arith

digits-value :
    (r : ℕ) (s : String) (ds : List ℕ)
    → r < 2 ^ 32
    → Writes s ds
    → digits r s ≡ checked (r * weight ds + value ds)
digits-value r String.[] [] small writes =
    let fits : leb (2 ^ 32) (r * 1 + 0) ≡ false = ground arith in
    let same : r * 1 + 0 ≡ r = omega arith in rw fits (ap ok (sym same))
digits-value r String.[] (d ∷ ds) small writes = elim writes [ ]
digits-value r (String.◌∷◌ c s) [] small writes = elim writes [ ]
digits-value r (String.◌∷◌ c s) (d ∷ ds) small writes =
    let shift = shift_digit r d (weight ds) (value ds) in
    elim (Bool-cases (leb (2 ^ 32) (r * 16 + d))) [
      | inl over ↦
          (let bound = le_mul_weight (r * 16 + d) (weight ds) (value ds) (weight-pos ds) in
            let much : leb (2 ^ 32) (r * (16 * weight ds) + (d * weight ds + value ds)) ≡ true =
              ground arith in
            rw (writes.0, over, much) refl)
      | inr fits ↦
          (let next : r * 16 + d < 2 ^ 32 = ground arith in
            rw (writes.0, fits) (digits-value (r * 16 + d) s ds next writes.1 ∙ ap checked shift))
    ]

abbrev zero_char : Char
zero_char = char 48 tt

abbrev x_char : Char
x_char = char 120 tt

abbrev read_text : Outcome ParseIntError ℕ → Outcome Error (Option ℕ)
read_text parsed = map_err parse_int parsed >>= λ n. ok (some n)

abbrev trimmed_text : String → Outcome Error (Option ℕ)
trimmed_text s = read_text (from_str_radix_16 s)

-- A digit is no `x`.
to_digit-not_x : (c : Char) (d : ℕ) → to_digit c ≡ some d → eqb (code c) 120 ≡ false
to_digit-not_x c d is = ground arith

to_digit-not_plus : (c : Char) (d : ℕ) → to_digit c ≡ some d → eqb (code c) 43 ≡ false
to_digit-not_plus c d is = ground arith

Writes-trim : (s : String) (ds : List ℕ) → Writes s ds → trim_start_0x s ≡ s
Writes-trim String.[] ds writes = refl
Writes-trim (String.◌∷◌ c String.[]) ds writes = refl
Writes-trim (String.◌∷◌ c (String.◌∷◌ d s)) [] writes = elim writes [ ]
Writes-trim (String.◌∷◌ c (String.◌∷◌ d s)) (n ∷ []) writes = elim (writes.1) [ ]
Writes-trim (String.◌∷◌ c (String.◌∷◌ d s)) (n ∷ m ∷ ds) writes =
    let other = to_digit-not_x d m writes.1.0 in
    elim (Bool-cases (eqb (code c) 48)) [
      | inl zero_digit ↦ rw (zero_digit, other)
      | inr first ↦ rw first
    ]

from_str_radix_16-value :
    (s : String) (d : ℕ) (ds : List ℕ)
    → Writes s (d ∷ ds)
    → from_str_radix_16 s ≡ checked (value (d ∷ ds))
from_str_radix_16-value String.[] d ds writes = elim writes [ ]
from_str_radix_16-value (String.◌∷◌ c s) d ds writes = rw (to_digit-not_plus c d writes.0) (
    digits-value 0 (String.◌∷◌ c s) (d ∷ ds) (omega arith) writes
    ∙ ap checked
        (let same : 0 * weight (d ∷ ds) + value (d ∷ ds) ≡ value (d ∷ ds) = omega arith in same))

trim-prefix : (s : String) → trim_start_0x (append "0x" s) ≡ trim_start_0x s
trim-prefix s =
    let opened : append "0x" s ≡ String.◌∷◌ zero_char (String.◌∷◌ x_char s) =
      append.cons zero_char "x" s
      ∙ ap (String.◌∷◌ zero_char)
          (append.cons x_char "" s ∙ ap (String.◌∷◌ x_char) (append.nil s)) in
    rw opened refl

abbrev pub opcode_of : ℕ → Outcome Error (Option ℕ)
opcode_of n = if leb (2 ^ 32) n then err (parse_int pos_overflow) else ok (some n)

read_text-checked : (n : ℕ) → read_text (checked n) ≡ opcode_of n
read_text-checked n = elim (Bool-cases (leb (2 ^ 32) n)) [ inl over ↦ rw over | inr fits ↦ rw fits ]

-- The op code of a JSON text of one or more hexadecimal digits, with `0x` before them or not, is the
-- number that they write, whatever their case and however many zeros lead, if that is below 2 ^ 32;
-- else the text is an error.
pub deserialize_hex_u32-value :
    (s : String) (d : ℕ) (ds : List ℕ)
    → Writes s (d ∷ ds)
    → (deserialize_hex_u32 (some (string s)) ≡ opcode_of (value (d ∷ ds)))
      × (deserialize_hex_u32 (some (string (append "0x" s))) ≡ opcode_of (value (d ∷ ds)))
unfolding deserialize_hex_u32
deserialize_hex_u32-value s d ds writes =
    let plain =
      ap trimmed_text (Writes-trim s (d ∷ ds) writes)
      ∙ ap read_text (from_str_radix_16-value s d ds writes)
      ∙ read_text-checked (value (d ∷ ds)) in
    (plain, ap trimmed_text (trim-prefix s) ∙ plain)
