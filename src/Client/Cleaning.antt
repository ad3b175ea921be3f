-- ===== src/Client/Cleaning.antt =====
-- src/client.rs: what the cleaning of a body removes, and what it keeps.
use Prim.Native.Char.{Char, code}
use axelar_relayer_ton.Prelude.{
  ◌≤◌, String, Bool, true, false, ◌||◌, ◌≡◌, refl, ap, ◌∙◌, ◌⊎◌, inl, inr, Bool-cases, ||-eq-false,
  eqb, arith,
}
use axelar_relayer_ton.Client.{
  is_kept, has_prefix, replace_nulls, filter_chars, clean_json_string_full,
}

-- A tab, a newline, or no control character.
abbrev pub Readable : Char → Type 0
Readable c = (code c ≡ 9) ⊎ (code c ≡ 10) ⊎ (32 ≤ code c × code c ≤ 126) ⊎ (160 ≤ code c)

abbrev pub AllChars : (Char → Type 0) → String → Type 0
AllChars P String.[] = Unit
AllChars P (String.◌∷◌ c s) = P c × AllChars P s

-- The first text, and the second after it.
abbrev pub joined : String → String → String
joined String.[] t = t
joined (String.◌∷◌ c s) t = String.◌∷◌ c (joined s t)

abbrev pub escaped_null : String
escaped_null = "\\u0000"

abbrev pub has_null : String → Bool
has_null String.[] = false
has_null (String.◌∷◌ c s) = has_prefix (String.◌∷◌ c s) escaped_null || has_null s

is_kept-Readable : (c : Char) → is_kept c ≡ true → Readable c
is_kept-Readable c kept = ground arith

Readable-is_kept : (c : Char) → Readable c → is_kept c ≡ true
Readable-is_kept c readable = ground arith

filter_chars-AllChars : (s : String) → AllChars Readable (filter_chars is_kept s)
filter_chars-AllChars String.[] = tt
filter_chars-AllChars (String.◌∷◌ c s) = elim (Bool-cases (is_kept c)) [
  | inl kept ↦ rw kept (is_kept-Readable c kept, filter_chars-AllChars s)
  | inr dropped ↦ rw dropped (filter_chars-AllChars s)
]

filter_chars-same : (s : String) → AllChars Readable s → filter_chars is_kept s ≡ s
filter_chars-same String.[] readable = refl
filter_chars-same (String.◌∷◌ c s) readable =
    rw (Readable-is_kept c readable.0, filter_chars-same s readable.1)

filter_chars-append :
    (s t : String)
    → AllChars Readable s
    → filter_chars is_kept (joined s t) ≡ joined s (filter_chars is_kept t)
filter_chars-append String.[] t readable = refl
filter_chars-append (String.◌∷◌ c s) t readable =
    rw (Readable-is_kept c readable.0, filter_chars-append s t readable.1)

-- A text that begins in front of an escaped null and has no backslash does not reach into it.
abbrev NoSlash : String → Type 0
NoSlash String.[] = Unit
NoSlash (String.◌∷◌ c s) = (eqb 0x5C (code c) ≡ false) × NoSlash s

has_prefix-append :
    (s t p : String) → NoSlash p → has_prefix (joined s (joined escaped_null t)) p ≡ has_prefix s p
has_prefix-append s t String.[] no_slash = refl
has_prefix-append String.[] t (String.◌∷◌ d p) no_slash = rw no_slash.0 refl
has_prefix-append (String.◌∷◌ c s) t (String.◌∷◌ d p) no_slash =
    rw (has_prefix-append s t p no_slash.1) refl

replace_nulls-append :
    (s t : String)
    → has_null s ≡ false
    → replace_nulls 0 (joined s (joined escaped_null t)) ≡ joined s (replace_nulls 0 t)
replace_nulls-append String.[] t no_null = refl
replace_nulls-append (String.◌∷◌ c s) t no_null =
    let (here, later) =
      ||-eq-false (has_prefix (String.◌∷◌ c s) escaped_null) (has_null s) no_null in
    rw
      (
        has_prefix-append s t "u0000" (refl, (refl, (refl, (refl, (refl, tt))))),
        here,
        replace_nulls-append s t later,
      )
      refl

replace_nulls-same : (s : String) → has_null s ≡ false → replace_nulls 0 s ≡ s
replace_nulls-same String.[] no_null = refl
replace_nulls-same (String.◌∷◌ c s) no_null =
    let (here, later) =
      ||-eq-false (has_prefix (String.◌∷◌ c s) escaped_null) (has_null s) no_null in
    rw (here, replace_nulls-same s later)

-- Readable characters are tabs, newlines and what is no control character. A body of readable characters
-- without an escaped null is left as it is by the cleaning. If an escaped null and any other text come
-- after it, the null is dropped, and what is left of the other text is what cleaning makes of it alone,
-- which has readable characters only.
pub clean_json_string_full-joined :
    (front back : String)
    → AllChars Readable front
    → has_null front ≡ false
    → (clean_json_string_full front ≡ front)
      × (clean_json_string_full (joined front (joined escaped_null back))
          ≡ joined front (clean_json_string_full back))
      × AllChars Readable (clean_json_string_full back)
unfolding clean_json_string_full
clean_json_string_full-joined front back readable no_null = (
  ap (filter_chars is_kept) (replace_nulls-same front no_null) ∙ filter_chars-same front readable,
  ap (filter_chars is_kept) (replace_nulls-append front back no_null)
      ∙ filter_chars-append front (replace_nulls 0 back) readable,
  filter_chars-AllChars (replace_nulls 0 back),
)
