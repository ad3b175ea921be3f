-- ===== src/Subscriber/Restart.antt =====
-- src/subscriber.rs: a subscriber that starts again goes on where it was.
use axelar_relayer_ton.Prelude.{
  String, Bool, false, ◌⊎◌, inl, inr, Option, none, some, List, [], ◌∷◌, ◌≡◌, refl, subst, sym, ap,
  ok, All,
}
use axelar_relayer_ton.Prelude.Int.{ℤ}
use axelar_relayer_ton.Types.{Trace, Transaction}
use axelar_relayer_ton.TonTrace.{JsonEq, Table}
use axelar_relayer_ton.Subscriber.{
  State, Poll, unwrap_or_minus_one, max_end_lt, advance, new, poll_account,
}

module _ {A : Type 0} where
  -- The height in the database is the cursor.
  abbrev InSync : State A → Type 0
  InSync s = unwrap_or_minus_one s.height ≡ s.latest_lt

  new-InSync :
      (answer : String ⊎ Option ℤ) (traces : Table (List (Transaction A))) (s : State A)
      → new answer traces ≡ ok s
      → InSync s
  unfolding new
  new-InSync (inl e) traces s h = cc
  new-InSync (inr height) traces s h =
      let started : record {
        latest_lt = unwrap_or_minus_one height;
        height = height;
        traces = traces;
      }
          ≡ s =
        cc in
      subst InSync started refl

  InSync-new : (s : State A) → InSync s → new (inr s.height) s.traces ≡ ok s
  unfolding new
  InSync-new s same =
      ap (λ lt. ok (record { latest_lt = lt; height = s.height; traces = s.traces })) same

module _ {A : Type 0} ⦃e : JsonEq (List (Transaction A))⦄ where
  -- The state after polls of any accounts.
  unfoldable pub polls : List (Poll A) → State A → State A
  unfolding poll_account
  polls [] s = s
  polls (p ∷ ps) s = polls ps (poll_account p s).1

  advance-InSync :
      (p : Poll A) (lt : Option ℤ) (s : State A)
      → p.height_fails ≡ false
      → InSync s
      → InSync (advance p lt s)
  unfolding advance
  advance-InSync p none s works same = same
  advance-InSync p (some lt) s works same = rw works refl

  poll-InSync :
      (answer : String ⊎ List (Trace A)) (upsert_fails : String → Bool) (s : State A)
      → InSync s
      → InSync
          (poll_account
            (record { answer = answer; height_fails = false; upsert_fails = upsert_fails })
            s).1
  unfolding poll_account
  poll-InSync (inl e) upsert_fails s same = same
  poll-InSync (inr traces) upsert_fails s same =
      advance-InSync
        (record { answer = inr traces; height_fails = false; upsert_fails = upsert_fails })
        (max_end_lt traces) s refl same

  polls-InSync :
      (ps : List (Poll A)) (s : State A)
      → All (λ p. p.height_fails ≡ false) ps
      → InSync s
      → InSync (polls ps s)
  unfolding polls
  polls-InSync [] s works same = same
  polls-InSync (p ∷ ps) s works same = polls-InSync ps (poll_account p s).1 works.1 (
      subst
        (λ fails.
          InSync
            (poll_account
              (record { answer = p.answer; height_fails = fails; upsert_fails = p.upsert_fails })
              s).1)
        (sym works.0) (poll-InSync p.answer p.upsert_fails s same))

  -- A subscriber that is stopped after any polls, answered or not, and started again from the database
  -- is in the state that it was in, unless a storing of the height failed at one of the polls.
  pub polls-new :
      (answer : String ⊎ Option ℤ) (traces : Table (List (Transaction A))) (s : State A)
      (ps : List (Poll A))
      → new answer traces ≡ ok s
      → All (λ p. p.height_fails ≡ false) ps
      → new (inr (polls ps s).height) (polls ps s).traces ≡ ok (polls ps s)
  polls-new answer traces s ps started works =
      InSync-new (polls ps s) (polls-InSync ps s works (new-InSync answer traces s started))
