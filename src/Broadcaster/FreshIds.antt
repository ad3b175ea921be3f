-- ===== src/Broadcaster/FreshIds.antt =====
-- src/broadcaster.rs over src/high_load_query_id_db_wrapper.rs: no wallet posts a query id twice.
use mathlib.Core.Option.{some_inj}
use axelar_relayer_ton.Prelude.{
  ℕ, zero, suc, ◌<◌, ◌≤◌, String, ◌⊎◌, inl, inr, Bool, true, false, Option, none, some, List, [],
  ◌∷◌, ◌≡◌, ◌≢◌, refl, sym, subst, ◌∙◌, Outcome, ok, err, panic, Bool-cases, arith, contains,
  if◌then◌else◌, ◌==◌, ==_iff, string_eq,
}
use axelar_relayer_ton.Prelude.Int.{ℤ, ltb_ℤ}
use axelar_relayer_ton.Externals.{Externals, OutAction}
use axelar_relayer_ton.HighLoadQueryId.{HighLoadQueryId, query_id}
use axelar_relayer_ton.HighLoadQueryIdDbWrapper.{next}
use axelar_relayer_ton.HighLoadQueryIdDbWrapper.Storage.{
  Shows, next-greater, next-returns, next_err-Shows, next-elsewhere,
}
use axelar_relayer_ton.TonWalletQueryId.{Table}
use axelar_relayer_ton.TonWalletHighLoadV3.{TonWalletHighLoadV3}
use axelar_relayer_ton.Broadcaster.{
  BroadcasterError, Attempt, Surroundings, State, Post, Act, already_executed, then_act, answered,
  TonBroadcaster, wallet_key, next_call, message_boc, post_boc, post_once, send_again,
  send_to_chain,
}
use axelar_relayer_ton.Client.{V3MessageResponse}

-- The query ids that were posted from a wallet, the last first.
abbrev pub ids_of : String → List Post → List ℕ
ids_of key [] = []
ids_of key (p ∷ ps) = if p.address == key then p.query_id ∷ ids_of key ps else ids_of key ps

-- Each number is less than the one before it, and the first is less than `bound`.
abbrev pub Decreasing : ℕ → List ℕ → Type 0
Decreasing bound [] = Unit
Decreasing bound (n ∷ ns) = (n < bound) × Decreasing n ns

pub Decreasing-below : (m n : ℕ) (ns : List ℕ) → m ≤ n → Decreasing m ns → Decreasing n ns
Decreasing-below m n [] below d = tt
Decreasing-below m n (x ∷ xs) below d = (omega (arith, d.0), d.1)

-- The wallet has a row that expires at `until`, and no id that it posted is greater than the row's.
pub record Fresh (key : String) (until : ℤ) (s : State) : Type 0 where
  pub last : HighLoadQueryId
  pub row : Shows s.table key last until
  pub decreasing : Decreasing (suc (query_id last)) (ids_of key s.posts)

-- Every attempt reads its query id before the row expires.
abbrev pub ReadsBefore : ℤ → Surroundings → Type 0
ReadsBefore until around = (n : ℕ) → ltb_ℤ until (around.attempt n).read_at ≡ false

module _ (key : String) (until : ℤ) where
  -- An act that keeps the ids of the wallet fresh.
  pub data Keeps {R : Type 0} (act : Act R) : Type 0 where
    keeps : ((s : State) → Fresh key until s → Fresh key until (act s).1) → Keeps act

  pub Keeps-at :
      {R : Type 0} {act : Act R}
      → Keeps act
      → (s : State) → Fresh key until s
      → Fresh key until (act s).1
  Keeps-at (keeps h) = h

  pub Keeps-then_act :
      {R Q : Type 0} (o : Outcome BroadcasterError R) (act : R → Act Q)
      → ((r : R) → Keeps (act r))
      → Keeps (then_act o act)
  Keeps-then_act (ok r) act h = keeps (Keeps-at (h r))
  Keeps-then_act (err e) act h = keeps (λ s f. f)
  Keeps-then_act panic act h = keeps (λ s f. f)

  pub Fresh-locks :
      (s s' : State)
      → s'.table ≡ s.table
      → s'.posts ≡ s.posts
      → Fresh key until s
      → Fresh key until s'
  Fresh-locks s s' table posts f = record {
    last = f.last;
    row = subst (λ (t : Table). Shows t key f.last until) (sym table) f.row;
    decreasing =
        subst (λ (ps : List Post). Decreasing (suc (query_id f.last)) (ids_of key ps)) (sym posts)
          f.decreasing;
  }

  module _ (lib : Externals) (b : TonBroadcaster lib) (around : Surroundings)
      (before : ReadsBefore until around) (wallet : TonWalletHighLoadV3 lib.Address)
      (actions : List (OutAction lib.Cell)) where
    -- A post with an id that is greater than all before it, or from another wallet.
    own-post :
        (s : State) (q : HighLoadQueryId) (attempt : Attempt)
        (boc : Outcome BroadcasterError String)
        → wallet_key lib wallet ≡ key
        → Shows s.table key q until
        → Decreasing (query_id q) (ids_of key s.posts)
        → Fresh key until (then_act boc (post_boc lib b around wallet actions q attempt) s).1
    own-post s q attempt (ok boc) mine row d = record {
      last = q;
      row = row;
      decreasing = rw ((==_iff (wallet_key lib wallet) key).1 mine) (omega arith, d);
    }
    own-post s q attempt (err e) mine row d = record {
      last = q;
      row = row;
      decreasing = Decreasing-below _ _ _ (omega arith) d;
    }
    own-post s q attempt panic mine row d = record {
      last = q;
      row = row;
      decreasing = Decreasing-below _ _ _ (omega arith) d;
    }

    other-post :
        (s : State) (q : HighLoadQueryId) (attempt : Attempt)
        (boc : Outcome BroadcasterError String)
        → (wallet_key lib wallet == key) ≡ false
        → Fresh key until s
        → Fresh key until (then_act boc (post_boc lib b around wallet actions q attempt) s).1
    other-post s q attempt (ok boc) other f = record {
      last = f.last;
      row = f.row;
      decreasing = rw other f.decreasing;
    }
    other-post s q attempt (err e) other f = f
    other-post s q attempt panic other f = f

    ne_of_test : (wallet_key lib wallet == key) ≡ false → key ≢ wallet_key lib wallet
    ne_of_test h e = absurd (cc ((==_iff (wallet_key lib wallet) key).1 (sym e), h))

    Keeps-post_once : (retrying : Bool) → Keeps (post_once lib b around wallet actions retrying)
    unfolding post_once
    Keeps-post_once retrying = keeps λ s f.
        let c = next_call lib b around wallet actions retrying s.tried in
        elim (next-returns c s.table) [
          | inr (e, h) ↦ rw h (elim (Bool-cases (wallet_key lib wallet == key)) [
            | inl mine ↦
                (let p : wallet_key lib wallet ≡ key =
                    (==_iff (wallet_key lib wallet) key).0 mine in
                  let (last, row, le) =
                    next_err-Shows c s.table f.last e until
                      (subst (λ (k : String). Shows s.table k f.last until) (sym p) f.row)
                      (before s.tried) h in
                  record {
                    last = last;
                    row = subst (λ (k : String). Shows (next c s.table).1 k last until) p row;
                    decreasing = Decreasing-below _ _ _ (omega (arith, le)) f.decreasing;
                  })
            | inr other ↦ record {
              last = f.last;
              row = record {
                row = next-elsewhere c s.table key (ne_of_test other) ∙ f.row.row;
                valid = f.row.valid;
              };
              decreasing = f.decreasing;
            }
          ])
          | inl (q, e) ↦ rw e (elim (Bool-cases (wallet_key lib wallet == key)) [
            | inl mine ↦
                (let p : wallet_key lib wallet ≡ key =
                    (==_iff (wallet_key lib wallet) key).0 mine in
                  let (row, greater) =
                    next-greater c s.table f.last q until
                      (subst (λ (k : String). Shows s.table k f.last until) (sym p) f.row)
                      (before s.tried) e in
                  own-post (record s { tried = suc s.tried; table = (next c s.table).1 }) q
                    (around.attempt s.tried) (message_boc lib b around wallet actions _ q) p
                    (subst (λ (k : String). Shows (next c s.table).1 k q until) p row)
                    (Decreasing-below _ _ _ (omega (arith, greater)) f.decreasing))
            | inr other ↦
                other-post (record s { tried = suc s.tried; table = (next c s.table).1 }) q
                  (around.attempt s.tried) (message_boc lib b around wallet actions _ q) other
                  (record {
                    last = f.last;
                    row = record {
                      row = next-elsewhere c s.table key (ne_of_test other) ∙ f.row.row;
                      valid = f.row.valid;
                    };
                    decreasing = f.decreasing;
                  })
          ])
        ]

    -- The answer to a post, and the retries.
    answered-Fresh :
        (again : Option (Act V3MessageResponse))
        (r : Outcome BroadcasterError (String ⊎ V3MessageResponse) × State)
        → ((send : Act V3MessageResponse) → again ≡ some send → Keeps send)
        → Fresh key until r.1
        → Fresh key until (answered again r).1
    answered-Fresh again (err e, s) more f = f
    answered-Fresh again (panic, s) more f = f
    answered-Fresh again (ok (inr response), s) more f = f
    answered-Fresh none (ok (inl error), s) more f = f
    answered-Fresh (some send) (ok (inl error), s) more f =
        elim (Bool-cases (contains error already_executed)) [
          | inl executed ↦ rw (executed, answered) (Keeps-at (more send refl) s f)
          | inr other ↦ rw (other, answered) f
        ]

    answered-Keeps :
        (again : Option (Act V3MessageResponse)) (retrying : Bool)
        → ((send : Act V3MessageResponse) → again ≡ some send → Keeps send)
        → Keeps (λ s. answered again (post_once lib b around wallet actions retrying s))
    answered-Keeps again retrying more =
        keeps (λ s f. answered-Fresh again _ more (Keeps-at (Keeps-post_once retrying) s f))

    Keeps-send_again : (r : ℕ) → Keeps (send_again lib b around wallet actions r)
    unfolding send_again
    Keeps-send_again zero = answered-Keeps none true (λ send e. cc)
    Keeps-send_again (suc r) =
        answered-Keeps (some (send_again lib b around wallet actions r)) true
          (λ send e. subst Keeps (some_inj.0 e) (Keeps-send_again r))

    pub Keeps-send_to_chain : Keeps (send_to_chain lib b around wallet actions none)
    unfolding send_to_chain
    Keeps-send_to_chain =
        answered-Keeps (some (send_again lib b around wallet actions 10)) false
          (λ send e. subst Keeps (some_inj.0 e) (Keeps-send_again 10))
