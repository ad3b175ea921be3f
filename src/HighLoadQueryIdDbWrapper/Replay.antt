-- ===== src/HighLoadQueryIdDbWrapper/Replay.antt =====
-- The ids that one wallet is given over a history of calls, its own and those of other wallets.
use axelar_relayer_ton.Prelude.{
  ℕ, ◌*◌, ◌^◌, ◌<◌, String, ◌≡◌, refl, inl, inr, false, true, List, [], ◌∷◌, Outcome, ok, err, All,
  Bool-cases, ◌==◌, string_eq, ==_iff, Bool, sym, ◌≢◌, subst, ◌∙◌, ◌≤◌, arith,
}
use axelar_relayer_ton.Prelude.Int.{ℤ, pos, negsuc, ◌+ℤ◌, ltb_ℤ}
use axelar_relayer_ton.HighLoadQueryId.{HighLoadQueryId, query_id}
use axelar_relayer_ton.TonWalletQueryId.{Table, get_query_id}
use axelar_relayer_ton.HighLoadQueryIdDbWrapper.{Call, HighLoadQueryIdWrapperError, next}
use axelar_relayer_ton.HighLoadQueryIdDbWrapper.Storage.{
  Shows, next-elsewhere, next-returns, next_err-Shows, next-greater, next-free,
}

abbrev pub note : Bool → Outcome HighLoadQueryIdWrapperError HighLoadQueryId → List ℕ → List ℕ
note true (ok q) ids = query_id q ∷ ids
note _ _ ids = ids

-- The query ids that the calls of a history return for one wallet, in order.
unfoldable pub ids_of : String → List Call → Table → List ℕ
ids_of a [] t = []
ids_of a (c ∷ cs) t = note (c.address == a) (next c t).0 (ids_of a cs (next c t).1)

-- Each number is greater than the one before it, and the first is greater than `lo`.
abbrev pub Increasing : ℕ → List ℕ → Type 0
Increasing lo [] = Unit
Increasing lo (x ∷ xs) = (lo < x) × Increasing x xs

Increasing-above : (m n : ℕ) (ids : List ℕ) → m ≤ n → Increasing n ids → Increasing m ids
Increasing-above m n [] le h = tt
Increasing-above m n (x ∷ xs) le h = (omega (arith, le, h.0), h.1)

-- The call reads the table while a row that expires at `until` is live.
abbrev pub ReadsBefore : ℤ → Call → Type 0
ReadsBefore until c = ltb_ℤ until c.read_at ≡ false

ids_of-other :
    (a : String) (c : Call) (cs : List Call) (t : Table)
    → (c.address == a) ≡ false
    → ids_of a (c ∷ cs) t ≡ ids_of a cs (next c t).1
unfolding ids_of
ids_of-other a c cs t h = rw h

ne_of_test : (a b : String) → (b == a) ≡ false → a ≢ b
ne_of_test a b h e = absurd (cc ((==_iff b a).1 (sym e), h))

ids_of-ok :
    (c : Call) (cs : List Call) (t : Table) (q : HighLoadQueryId)
    → (next c t).0 ≡ ok q
    → ids_of c.address (c ∷ cs) t ≡ query_id q ∷ ids_of c.address cs (next c t).1
unfolding ids_of
ids_of-ok c cs t q e = rw ((==_iff c.address c.address).1 refl, e)

ids_of-err :
    (c : Call) (cs : List Call) (t : Table) (e : HighLoadQueryIdWrapperError)
    → (next c t).0 ≡ err e
    → ids_of c.address (c ∷ cs) t ≡ ids_of c.address cs (next c t).1
unfolding ids_of
ids_of-err c cs t e h = rw ((==_iff c.address c.address).1 refl, h)

own-call :
    (c : Call) (cs : List Call) (t : Table) (q : HighLoadQueryId) (until : ℤ)
    → Shows t c.address q until
    → All (ReadsBefore until) (c ∷ cs)
    → ((t' : Table) (q' : HighLoadQueryId)
        → Shows t' c.address q' until
        → Increasing (query_id q') (ids_of c.address cs t'))
    → Increasing (query_id q) (ids_of c.address (c ∷ cs) t)
own-call c cs t q until s all rest = elim (next-returns c t) [
  | inl (q', e) ↦
      let (s', g) = next-greater c t q q' until s all.0 e in
      rw (ids_of-ok c cs t q' e) (g, rest (next c t).1 q' s')
  | inr (e, h) ↦
      let (q', s', le) = next_err-Shows c t q e until s all.0 h in
      rw (ids_of-err c cs t e h)
        (Increasing-above (query_id q) (query_id q') _ le (rest (next c t).1 q' s'))
]

-- From a live row on, the ids of the wallet increase, whatever the calls do before it expires.
ids_of-Increasing :
    (cs : List Call) (a : String) (t : Table) (q : HighLoadQueryId) (until : ℤ)
    → Shows t a q until
    → All (ReadsBefore until) cs
    → Increasing (query_id q) (ids_of a cs t)
unfolding ids_of
ids_of-Increasing [] a t q until s all = tt
ids_of-Increasing (c ∷ cs) a t q until s all = elim (Bool-cases (c.address == a)) [
  | inl mine ↦
      let p : c.address ≡ a = (==_iff c.address a).0 mine in
      subst (λ (x : String). Increasing (query_id q) (ids_of x (c ∷ cs) t)) p
        (own-call c cs t q until (subst (λ (x : String). Shows t x q until) (sym p) s) all
          (λ t' q' s'. ids_of-Increasing cs c.address t' q' until s' all.1))
  | inr other ↦ rw (ids_of-other a c cs t other) (
      ids_of-Increasing cs a (next c t).1 q until
        (record {
          row = next-elsewhere c t a (ne_of_test a c.address other) ∙ s.row;
          valid = s.valid;
        })
        all.1)
]

-- A wallet that has no live row, and whose timeout is below 2 ^ 22 seconds, is given query id 0. From
-- then on, until three timeouts after that write, every id that it is given is greater than all before
-- it: no query id is used twice, in any history of calls, with or without forced increases, other
-- wallets or failures of the database, also of a write that is carried out though it is reported as
-- failed.
pub no_replay :
    (c : Call) (cs : List Call) (t : Table) (q : HighLoadQueryId)
    → get_query_id c.address c.read_at t ≡ (negsuc 0, negsuc 0)
    → c.timeout < 2 ^ 22
    → (next c t).0 ≡ ok q
    → All (ReadsBefore (c.write_at +ℤ pos (3 * c.timeout))) cs
    → (query_id q ≡ 0) × Increasing 0 (ids_of c.address cs (next c t).1)
no_replay c cs t q free fits e all =
    let (z, s) = next-free c t q free fits e in
    (
      z,
      subst (λ (k : ℕ). Increasing k (ids_of c.address cs (next c t).1)) z
          (ids_of-Increasing cs c.address (next c t).1 q _ s all),
    )
