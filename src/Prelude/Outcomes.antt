-- ===== src/Prelude/Outcomes.antt =====
-- What a fallible Rust function does: it returns `Ok` or `Err`, or it panics.
use mathlib.Core.Path.{◌≡◌, refl, subst}
use mathlib.Core.Logic.{◌⊎◌, inl, inr}
use axelar_relayer_ton.Prelude.Tests.{if◌then◌else◌}
use mathlib.Core.Bool.{Bool, true, false}
use mathlib.Core.Option.{Option, none, some}

pub data Outcome {ℓ κ} (E : Type ℓ) (A : Type κ) : Type (ℓ ⊔ κ) where
  ok : A → Outcome E A
  err : E → Outcome E A
  panic : Outcome E A

-- The `?` operator: what the function does next, if the value is there.
module _ {ℓ κ μ} {E : Type ℓ} {A : Type κ} {B : Type μ} where
  infixl 5 ◌>>=◌
  abbrev pub ◌>>=◌ : Outcome E A → (A → Outcome E B) → Outcome E B
  panic >>= next = panic
  err e >>= next = err e
  ok a >>= next = next a

  -- A chain that succeeds has a first step that succeeds.
  pub >>=-eq-ok :
      (first : Outcome E A) (next : A → Outcome E B) {result : B}
      → first >>= next ≡ ok result
      → (a : A) × (first ≡ ok a) × (next a ≡ ok result)
  >>=-eq-ok panic next done = cc
  >>=-eq-ok (err e) next done = cc
  >>=-eq-ok (ok a) next done = (a, refl, done)

-- `map_err`
abbrev pub map_err {ℓ κ μ} :
    {E : Type ℓ} {F : Type κ} {A : Type μ} → (E → F) → Outcome E A → Outcome F A
map_err f (ok a) = ok a
map_err f (err e) = err (f e)
map_err f panic = panic

-- `ok_or`
abbrev pub ok_or {ℓ κ} : {E : Type ℓ} {A : Type κ} → Option A → E → Outcome E A
ok_or (some a) e = ok a
ok_or none e = err e

-- Indexing a vector, which panics out of bounds: `index (get_elem? xs i)`.
abbrev pub or_panic {ℓ κ} : {E : Type ℓ} {A : Type κ} → Option A → Outcome E A
or_panic (some a) = ok a
or_panic none = panic

pub Outcome-cases {ℓ κ} :
    {E : Type ℓ} {A : Type κ} (o : Outcome E A)
    → ((a : A) × (o ≡ ok a)) ⊎ ((e : E) × (o ≡ err e)) ⊎ (o ≡ panic)
Outcome-cases (ok a) = inl (a, refl)
Outcome-cases (err e) = inr (inl (e, refl))
Outcome-cases panic = inr (inr refl)

-- The computation does not panic, and its result, if there is one, satisfies `P`.
pub data Ensures {ℓ κ μ} {E : Type ℓ} {A : Type κ} (P : A → Type μ)
    : Outcome E A → Type (ℓ ⊔ κ ⊔ μ) where
  returns : {a : A} → P a → Ensures P (ok a)
  fails : {e : E} → Ensures P (err e)

module _ {ℓ κ μ} {E : Type ℓ} {A : Type κ} {P : A → Type μ} where
  pub Ensures-ok : {a : A} → Ensures {E = E} P (ok a) → P a
  Ensures-ok (returns h) = h

  pub Ensures-panic : ¬ Ensures {E = E} P panic
  Ensures-panic h = elim h [ ]

  pub Ensures-eq-ok : {m : Outcome E A} {a : A} → Ensures P m → m ≡ ok a → P a
  Ensures-eq-ok h k = Ensures-ok (subst (Ensures P) k h)

  pub Ensures->>= {ν ξ} :
      {B : Type ν} {Q : B → Type ξ} (m : Outcome E A) (f : A → Outcome E B)
      → Ensures P m
      → ((a : A) → P a → Ensures Q (f a))
      → Ensures Q (m >>= f)
  Ensures->>= (ok a) f h k = k a (Ensures-ok h)
  Ensures->>= (err e) f h k = fails
  Ensures->>= panic f h k = elim h [ ]

  pub Ensures-if :
      (b : Bool) (m n : Outcome E A) → Ensures P m → Ensures P n → Ensures P (if b then m else n)
  Ensures-if true m n h k = h
  Ensures-if false m n h k = k

  pub Ensures-map_err {ν} :
      {F : Type ν} (f : E → F) (m : Outcome E A) → Ensures P m → Ensures P (map_err f m)
  Ensures-map_err f (ok a) h = returns (Ensures-ok h)
  Ensures-map_err f (err e) h = fails
  Ensures-map_err f panic h = elim h [ ]

pub Ensures-ok_or {ℓ κ} :
    {E : Type ℓ} {A : Type κ} (o : Option A) (e : E) → Ensures (λ a. o ≡ some a) (ok_or o e)
Ensures-ok_or (some a) e = returns refl
Ensures-ok_or none e = fails

pub >>=-ext {ℓ κ μ} :
    {E : Type ℓ} {A : Type κ} {B : Type μ} (m : Outcome E A) (f g : A → Outcome E B)
    → ((a : A) → f a ≡ g a)
    → m >>= f ≡ m >>= g
>>=-ext (ok a) f g h = h a
>>=-ext (err e) f g h = refl
>>=-ext panic f g h = refl
