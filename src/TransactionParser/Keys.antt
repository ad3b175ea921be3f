-- ===== src/TransactionParser/Keys.antt =====
-- The hash map from matching keys of src/transaction_parser/parser.rs: a key stands in it at most once.
use axelar_relayer_ton.Prelude.{
  ℕ, true, false, Option, none, some, List, [], ◌∷◌, ◌≡◌, refl, sym, ap, ◌∙◌, ==_iff, string_eq,
  nat_eq, &&-true, Bool-cases, inl, inr, if◌then◌else◌, eqb, ◌==◌, ◌&&◌,
}
use axelar_relayer_ton.TransactionParser.Common.{MessageMatchingKey}
use axelar_relayer_ton.TransactionParser.Creation.{same_bytes, same_key, insert, remove}

same_bytes-eq : (as' bs : List ℕ) → same_bytes as' bs ≡ true → as' ≡ bs
same_bytes-eq [] [] h = refl
same_bytes-eq [] (b ∷ bs) h = cc
same_bytes-eq (a ∷ as') [] h = cc
same_bytes-eq (a ∷ as') (b ∷ bs) h =
    let (head, tail) = &&-true (eqb a b) (same_bytes as' bs) h in
    cc ((==_iff a b).0 head, same_bytes-eq as' bs tail)

same_bytes_refl : (bs : List ℕ) → same_bytes bs bs ≡ true
same_bytes_refl [] = refl
same_bytes_refl (b ∷ bs) = rw ((==_iff b b).1 refl, same_bytes_refl bs)

pub same_key-eq : (j k : MessageMatchingKey) → same_key j k ≡ true → j ≡ k
unfolding same_key
same_key-eq j k h =
    let (first, bytes) =
      &&-true
        (j.destination_chain == k.destination_chain
          && j.destination_address == k.destination_address)
        (same_bytes j.payload_hash k.payload_hash) h in
    let (chain, address) =
      &&-true (j.destination_chain == k.destination_chain)
        (j.destination_address == k.destination_address) first in
    cc (
      (==_iff j.destination_chain k.destination_chain).0 chain,
      (==_iff j.destination_address k.destination_address).0 address,
      same_bytes-eq j.payload_hash k.payload_hash bytes,
    )

pub same_key_refl : (k : MessageMatchingKey) → same_key k k ≡ true
unfolding same_key
same_key_refl k = rw (
  (==_iff k.destination_chain k.destination_chain).1 refl,
  (==_iff k.destination_address k.destination_address).1 refl,
  same_bytes_refl k.payload_hash,
)

not_same : (k j : MessageMatchingKey) → same_key j k ≡ false → same_key k j ≡ false
not_same k j h = elim (Bool-cases (same_key k j)) [
  | inl same ↦ cc (ap (λ x. same_key j x) (same_key-eq k j same), same_key_refl j)
  | inr other ↦ other
]

module _ {V : Type 0} where
  -- The value of a key.
  unfoldable pub find : MessageMatchingKey → List (MessageMatchingKey × V) → Option V
  find k [] = none
  find k ((j, w) ∷ m) = if same_key j k then some w else find k m

  abbrev pub Distinct : List (MessageMatchingKey × V) → Type 0
  Distinct [] = Unit
  Distinct ((k, _) ∷ m) = (find k m ≡ none) × Distinct m

  pub remove-find :
      (k : MessageMatchingKey) (m : List (MessageMatchingKey × V)) → (remove k m).0 ≡ find k m
  unfolding remove find
  remove-find k [] = refl
  remove-find k ((j, w) ∷ m) = elim (Bool-cases (same_key j k)) [
    | inl same ↦ rw same
    | inr other ↦ rw (other, remove-find k m)
  ]

  pub find-insert :
      (k k' : MessageMatchingKey) (v : V) (m : List (MessageMatchingKey × V))
      → find k' (insert k v m) ≡ (if same_key k k' then some v else find k' m)
  unfolding insert find
  find-insert k k' v [] = refl
  find-insert k k' v ((j, w) ∷ m) = elim (Bool-cases (same_key j k)) [
    | inl same ↦ elim (Bool-cases (same_key k k')) [
      | inl e ↦ rw (same, e)
      | inr e ↦ rw (same, e, ap (λ x. same_key x k') (same_key-eq j k same) ∙ e)
    ]
    | inr other ↦ elim (Bool-cases (same_key k k')) [
      | inl e ↦ rw (
        other,
        find-insert k k' v m,
        e,
        ap (λ x. same_key j x) (sym (same_key-eq k k' e)) ∙ other,
      )
      | inr e ↦ rw (other, find-insert k k' v m, e)
    ]
  ]

  pub find-remove :
      (k k' : MessageMatchingKey) (m : List (MessageMatchingKey × V))
      → Distinct m
      → find k' (remove k m).1 ≡ (if same_key k k' then none else find k' m)
  unfolding remove find
  find-remove k k' [] d = elim (Bool-cases (same_key k k')) [ inl e ↦ rw e | inr e ↦ rw e ]
  find-remove k k' ((j, w) ∷ m) d = elim (Bool-cases (same_key j k)) [
    | inl same ↦ elim (Bool-cases (same_key k k')) [
      | inl e ↦ rw (
        same,
        e,
        ap (λ x. find x m) (sym (same_key-eq k k' e))
            ∙ ap (λ x. find x m) (sym (same_key-eq j k same))
            ∙ d.0,
      )
      | inr e ↦ rw (same, e, ap (λ x. same_key x k') (same_key-eq j k same) ∙ e)
    ]
    | inr other ↦ elim (Bool-cases (same_key k k')) [
      | inl e ↦ rw (
        other,
        find-remove k k' m d.1,
        e,
        ap (λ x. same_key j x) (sym (same_key-eq k k' e)) ∙ other,
      )
      | inr e ↦ rw (other, find-remove k k' m d.1, e)
    ]
  ]

  pub insert-Distinct :
      (k : MessageMatchingKey) (v : V) (m : List (MessageMatchingKey × V))
      → Distinct m
      → Distinct (insert k v m)
  unfolding insert find
  insert-Distinct k v [] d = (refl, tt)
  insert-Distinct k v ((j, w) ∷ m) d = elim (Bool-cases (same_key j k)) [
    | inl same ↦ rw same (ap (λ x. find x m) (sym (same_key-eq j k same)) ∙ d.0, d.1)
    | inr other ↦
        rw other (find-insert k j v m ∙ rw (not_same k j other) d.0, insert-Distinct k v m d.1)
  ]

  pub remove-Distinct :
      (k : MessageMatchingKey) (m : List (MessageMatchingKey × V))
      → Distinct m
      → Distinct (remove k m).1
  unfolding remove find
  remove-Distinct k [] d = tt
  remove-Distinct k ((j, w) ∷ m) d = elim (Bool-cases (same_key j k)) [
    | inl same ↦ rw same d.1
    | inr other ↦
        rw other (find-remove k j m d.1 ∙ rw (not_same k j other) d.0, remove-Distinct k m d.1)
  ]
