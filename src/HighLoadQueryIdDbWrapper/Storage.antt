-- ===== src/HighLoadQueryIdDbWrapper/Storage.antt =====
-- What a call of `next` leaves in the table.
use axelar_relayer_ton.Prelude.{
  ℕ, subst, ap, panic, String, true, false, ◌≡◌, ◌≢◌, refl, ◌⊎◌, inl, inr, some, ok, err, Outcome,
  arith, Bool-cases, ◌==◌, string_eq, ==_iff, ◌<◌, ◌^◌, ◌*◌, ◌≤◌, eqb, sym,
}
use axelar_relayer_ton.Prelude.Int.{ℤ, pos, negsuc, ◌+ℤ◌, ltb_ℤ}
use axelar_relayer_ton.HighLoadQueryId.{HighLoadQueryId, query_id, IsValid}
use axelar_relayer_ton.TonWalletQueryId.{Table, Row, get_query_id, update_query_id, upsert_query_id}
use axelar_relayer_ton.HighLoadQueryIdDbWrapper.{
  Call, HighLoadQueryIdWrapperError, Statement, upsert, update, write_result, store, next,
  store_chosen, get, lifetime, chosen, database_error,
}
use axelar_relayer_ton.HighLoadQueryIdDbWrapper.Choice.{
  choose-greater, choose-first, choose-ne-panic,
}

-- The wallet has a row that shows the id `q` and expires at `until`.
pub record Shows (t : Table) (address : String) (q : HighLoadQueryId) (until : ℤ) : Type 0 where
  pub row :
      t address
      ≡ some (record { shift = pos q.shift; bitnumber = pos q.bitnumber; expires_at = until })
  pub valid : IsValid q

str_eq_self : (a : String) → (a == a) ≡ true
str_eq_self a = (==_iff a a).1 refl

lifetime-pos : (timeout : ℕ) → timeout < 2 ^ 22 → lifetime timeout ≡ pos (3 * timeout)
unfolding lifetime
lifetime-pos timeout h = ground arith

-- The table after a write of `q`.
abbrev pub Written : Call → HighLoadQueryId → Table → Table → Type 0
Written c q t t' =
    ((query_id q ≡ 0)
      × (t'
          ≡ upsert_query_id c.address (pos q.shift) (pos q.bitnumber) (lifetime c.timeout)
              c.write_at t))
    ⊎ ((0 < query_id q) × (t' ≡ update_query_id c.address (pos q.shift) (pos q.bitnumber) t))

-- A write that succeeds is carried out, and one that fails is carried out or not.
Stored :
    Call
    → HighLoadQueryId
    → Table
    → Outcome HighLoadQueryIdWrapperError HighLoadQueryId × Table
    → Type 0
Stored c q t s =
    ((s.0 ≡ ok q) × Written c q t s.1)
    ⊎ ((s.0 ≡ err database_error) × ((s.1 ≡ t) ⊎ Written c q t s.1))

write_result-Stored :
    (c : Call) (statement : Statement) (q : HighLoadQueryId) (written t : Table)
    → Written c q t written
    → Stored c q t (write_result c statement q written t)
unfolding Stored
write_result-Stored c statement q written t w = elim (Bool-cases (c.fails statement)) [
  | inr works ↦ rw works (inl (refl, w))
  | inl fails ↦ elim (Bool-cases (c.carried_out statement)) [
    | inl carried ↦ rw (fails, carried) (inr (refl, inr w))
    | inr left ↦ rw (fails, left) (inr (refl, inl refl))
  ]
]

store-Stored : (c : Call) (q : HighLoadQueryId) (t : Table) → Stored c q t (store c q t)
unfolding store
store-Stored c q t = elim (Bool-cases (eqb (query_id q) 0)) [
  | inl first ↦ rw first (write_result-Stored c upsert q _ t (inl (ground arith, refl)))
  | inr later ↦ rw later (write_result-Stored c update q _ t (inr (ground arith, refl)))
]

update_self :
    (a : String) (s b : ℤ) (t : Table) (row : Row)
    → t a ≡ some row
    → update_query_id a s b t a ≡ some (record row { shift = s; bitnumber = b })
unfolding update_query_id
update_self a s b t row e = rw (str_eq_self a, e)

update-elsewhere :
    (a : String) (s b : ℤ) (t : Table) (x : String) → x ≢ a → update_query_id a s b t x ≡ t x
unfolding update_query_id
update-elsewhere a s b t x h = ground (arith, ==_iff x a)

upsert_self :
    (a : String) (s b l now : ℤ) (t : Table)
    → upsert_query_id a s b l now t a
      ≡ some (record { shift = s; bitnumber = b; expires_at = now +ℤ l })
unfolding upsert_query_id
upsert_self a s b l now t = rw (str_eq_self a)

upsert-elsewhere :
    (a : String) (s b l now : ℤ) (t : Table) (x : String)
    → x ≢ a
    → upsert_query_id a s b l now t x ≡ t x
unfolding upsert_query_id
upsert-elsewhere a s b l now t x h = ground (arith, ==_iff x a)

Written-elsewhere :
    (c : Call) (q : HighLoadQueryId) (t t' : Table) (a : String)
    → a ≢ c.address
    → Written c q t t'
    → t' a ≡ t a
Written-elsewhere c q t t' a h (inl (z, w)) = rw w (
    upsert-elsewhere c.address (pos q.shift) (pos q.bitnumber) (lifetime c.timeout) c.write_at t a
      h)
Written-elsewhere c q t t' a h (inr (z, w)) =
    rw w (update-elsewhere c.address (pos q.shift) (pos q.bitnumber) t a h)

store_chosen-elsewhere :
    (c : Call) (r : Outcome HighLoadQueryIdWrapperError HighLoadQueryId) (t : Table) (a : String)
    → a ≢ c.address
    → (store_chosen c r t).1 a ≡ t a
unfolding Stored
store_chosen-elsewhere c (ok q) t a h = elim (store-Stored c q t) [
  | inl (_, w) ↦ Written-elsewhere c q t _ a h w
  | inr (_, inl same) ↦ ap (λ t. t a) same
  | inr (_, inr w) ↦ Written-elsewhere c q t _ a h w
]
store_chosen-elsewhere c _ t a h = refl

store_chosen-returns :
    (c : Call) (r : Outcome HighLoadQueryIdWrapperError HighLoadQueryId) (t : Table)
    → r ≢ panic
    → ((q : HighLoadQueryId) × ((store_chosen c r t).0 ≡ ok q))
      ⊎ ((e : HighLoadQueryIdWrapperError) × ((store_chosen c r t).0 ≡ err e))
unfolding Stored
store_chosen-returns c (ok q) t h = elim (store-Stored c q t) [
  | inl (e, _) ↦ inl (q, e)
  | inr (e, _) ↦ inr (database_error, e)
]
store_chosen-returns c (err e) t h = inr (e, refl)
store_chosen-returns c panic t h = absurd (h refl)

-- A call for one wallet leaves the rows of the others alone.
pub next-elsewhere : (c : Call) (t : Table) (a : String) → a ≢ c.address → (next c t).1 a ≡ t a
unfolding next
next-elsewhere c t a h = elim (Bool-cases (c.fails get)) [
  | inl down ↦ rw down
  | inr works ↦ rw works (store_chosen-elsewhere c (chosen c _) t a h)
]

-- A call returns an id or an error.
pub next-returns :
    (c : Call) (t : Table)
    → ((q : HighLoadQueryId) × ((next c t).0 ≡ ok q))
      ⊎ ((e : HighLoadQueryIdWrapperError) × ((next c t).0 ≡ err e))
unfolding next chosen
next-returns c t = elim (Bool-cases (c.fails get)) [
  | inl down ↦ inr (database_error, rw down refl)
  | inr works ↦ rw works (store_chosen-returns c (chosen c _) t (choose-ne-panic _ _))
]

store_chosen-ok :
    (c : Call) (r : Outcome HighLoadQueryIdWrapperError HighLoadQueryId) (q' : HighLoadQueryId)
    (t : Table)
    → (store_chosen c r t).0 ≡ ok q'
    → (r ≡ ok q') × Written c q' t (store_chosen c r t).1
unfolding Stored
store_chosen-ok c (ok q) q' t e = elim (store-Stored c q t) [
  | inl (e', w) ↦
      (let p : q ≡ q' = cc (e, e') in
        (ap ok p, subst (λ (x : HighLoadQueryId). Written c x t (store c q t).1) p w))
  | inr (e', _) ↦ absurd (cc (e, e'))
]
store_chosen-ok c (err x) q' t e = absurd (cc e)
store_chosen-ok c panic q' t e = absurd (cc e)

-- An error leaves the table, or the id that was chosen was written.
store_chosen-err :
    (c : Call) (r : Outcome HighLoadQueryIdWrapperError HighLoadQueryId)
    (e : HighLoadQueryIdWrapperError) (t : Table)
    → (store_chosen c r t).0 ≡ err e
    → ((store_chosen c r t).1 ≡ t)
      ⊎ ((q : HighLoadQueryId) × (r ≡ ok q) × Written c q t (store_chosen c r t).1)
unfolding Stored
store_chosen-err c (ok q) e t h = elim (store-Stored c q t) [
  | inl (e', _) ↦ absurd (cc (h, e'))
  | inr (_, inl same) ↦ inl same
  | inr (_, inr w) ↦ inr (q, refl, w)
]
store_chosen-err c (err x) e t h = inl refl
store_chosen-err c panic e t h = absurd (cc h)

-- An id that is returned was chosen from the stored pair, and was written.
pub next-ok :
    (c : Call) (t : Table) (q : HighLoadQueryId)
    → (next c t).0 ≡ ok q
    → (chosen c (get_query_id c.address c.read_at t) ≡ ok q) × Written c q t (next c t).1
unfolding next
next-ok c t q e = elim (Bool-cases (c.fails get)) [
  | inl down ↦ absurd (cc (rw down at e))
  | inr works ↦ rw works (store_chosen-ok c _ q t (rw works at e))
]

get-live :
    (t : Table) (a : String) (q : HighLoadQueryId) (until now : ℤ)
    → Shows t a q until
    → ltb_ℤ until now ≡ false
    → get_query_id a now t ≡ (pos q.shift, pos q.bitnumber)
unfolding get_query_id
get-live t a q until now s l = rw (s.row, l)

next_picked :
    (c : Call) (t : Table) (q q' : HighLoadQueryId) (until : ℤ)
    → Shows t c.address q until
    → ltb_ℤ until c.read_at ≡ false
    → chosen c (get_query_id c.address c.read_at t) ≡ ok q'
    → Written c q' t (next c t).1
    → Shows (next c t).1 c.address q' until × (query_id q < query_id q')
unfolding chosen
next_picked c t q q' until s l picked w =
    let (v, g) =
      choose-greater c.force_shift_increase q q' s.valid
        (rw (get-live t c.address q until c.read_at s l) at picked) in
    elim w [
      | inl (z, _) ↦ absurd (omega arith)
      | inr (_, w) ↦ (record { row = rw w (update_self c.address _ _ t _ s.row); valid = v }, g)
    ]

-- While a wallet has a row that has not expired, a call that returns an id returns a valid one with
-- a greater query id, and the row then shows it until the same time.
pub next-greater :
    (c : Call) (t : Table) (q q' : HighLoadQueryId) (until : ℤ)
    → Shows t c.address q until
    → ltb_ℤ until c.read_at ≡ false
    → (next c t).0 ≡ ok q'
    → Shows (next c t).1 c.address q' until × (query_id q < query_id q')
next-greater c t q q' until s l e =
    let (picked, w) = next-ok c t q' e in next_picked c t q q' until s l picked w

next-err :
    (c : Call) (t : Table) (e : HighLoadQueryIdWrapperError)
    → (next c t).0 ≡ err e
    → ((next c t).1 ≡ t)
      ⊎ ((q : HighLoadQueryId) × (chosen c (get_query_id c.address c.read_at t) ≡ ok q)
          × Written c q t (next c t).1)
unfolding next
next-err c t e h = elim (Bool-cases (c.fails get)) [
  | inl down ↦ inl (rw down refl)
  | inr works ↦ rw works (store_chosen-err c _ e t (rw works at h))
]

-- While a wallet has a row that has not expired, a call that returns an error leaves it a row with the
-- same expiry that shows a valid id, the same or one with a greater query id. This holds also for a write
-- that was carried out though it failed.
pub next_err-Shows :
    (c : Call) (t : Table) (q : HighLoadQueryId) (e : HighLoadQueryIdWrapperError) (until : ℤ)
    → Shows t c.address q until
    → ltb_ℤ until c.read_at ≡ false
    → (next c t).0 ≡ err e
    → (q' : HighLoadQueryId) × Shows (next c t).1 c.address q' until × (query_id q ≤ query_id q')
unfolding chosen
next_err-Shows c t q e until s l h = elim (next-err c t e h) [
  | inl same ↦ (q, subst (λ (t : Table). Shows t c.address q until) (sym same) s, omega arith)
  | inr (q', picked, w) ↦
      (let (shown, more) = next_picked c t q q' until s l picked w in
        (q', shown, omega (arith, more)))
]

-- A call that finds no live row and returns an id returns query id 0, whether or not an increase of
-- the shift is forced, and the row then expires three timeouts after the write. The timeout fits
-- the 22 bits that the wallet has for it.
pub next-free :
    (c : Call) (t : Table) (q : HighLoadQueryId)
    → get_query_id c.address c.read_at t ≡ (negsuc 0, negsuc 0)
    → c.timeout < 2 ^ 22
    → (next c t).0 ≡ ok q
    → (query_id q ≡ 0) × Shows (next c t).1 c.address q (c.write_at +ℤ pos (3 * c.timeout))
unfolding chosen
next-free c t q f b e =
    let (picked, w) = next-ok c t q e in
    let p : record { shift = 0; bitnumber = 0 } ≡ q =
      cc (rw f at picked, choose-first c.force_shift_increase) in
    elim w [
      | inl (z, w) ↦ (
        z,
        record {
          row = rw (w, lifetime-pos c.timeout b) (upsert_self c.address _ _ _ _ t);
          valid = subst IsValid p (omega arith);
        },
      )
      | inr (more, _) ↦ absurd (
          subst (λ (x : HighLoadQueryId). 0 < query_id x → ⊥) p
            (λ h. unfold query_id in omega arith) more)
    ]
