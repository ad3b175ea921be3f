-- ===== src/Workers/FreshIds.antt =====
-- src/high_load_query_id_db_wrapper.rs under workers that run at the same time: the ids that were
-- drawn.
use axelar_relayer_ton.Prelude.{
  ℕ, suc, String, true, false, Option, none, some, List, [], ◌∷◌, ◌++◌, ◌≡◌, ◌≢◌, refl, sym, ap,
  subst, ◌∙◌, inl, inr, All, Bool-cases, arith, ◌==◌, ==_iff, string_eq, if◌then◌else◌,
}
use axelar_relayer_ton.Prelude.Int.{ℤ, ltb_ℤ}
use axelar_relayer_ton.HighLoadQueryId.{HighLoadQueryId, query_id}
use axelar_relayer_ton.TonWalletQueryId.{Table, get_query_id}
use axelar_relayer_ton.HighLoadQueryIdDbWrapper.{Call, get, next}
use axelar_relayer_ton.HighLoadQueryIdDbWrapper.Storage.{
  Shows, next-greater, next-returns, next_err-Shows, next-elsewhere,
}
use axelar_relayer_ton.Broadcaster.FreshIds.{Decreasing, Decreasing-below}
use axelar_relayer_ton.WalletManager.Exclusion.{All-drop, All-at}
use axelar_relayer_ton.Workers.{
  Slot, Worker, Drawn, Site, Move, Reached, start, then_move, acquired, refused, released, waited,
  has_read, has_written, note_drawn, finish,
}
use axelar_relayer_ton.Workers.Drawing.{Reached-others}

-- The query ids that were drawn for a wallet, the last first.
abbrev pub ids_of : String → List Drawn → List ℕ
ids_of key [] = []
ids_of key (d ∷ drawn) = if d.address == key then d.id ∷ ids_of key drawn else ids_of key drawn

module _ (until : String → ℤ) where
  -- What a worker has read is still what the table says.
  abbrev Fits : Table → String → Option Slot → Type 0
  Fits t key none = Unit
  Fits t key (some slot) =
      (slot.pair ≡ get_query_id key slot.at t) × (ltb_ℤ (until key) slot.at ≡ false)

  abbrev Fit : Table → Worker → Type 0
  Fit t w = Fits t w.key w.slot

  Fits-same_row :
      (t t' : Table) (key : String) (slot : Option Slot)
      → t' key ≡ t key
      → Fits t key slot
      → Fits t' key slot
  unfolding get_query_id
  Fits-same_row t t' key none same fits = tt
  Fits-same_row t t' key (some slot) same fits = (rw same fits.0, fits.1)

  Fit-others :
      (t t' : Table) (key : String) (workers : List Worker)
      → ((other : String) → other ≢ key → t' other ≡ t other)
      → All (λ w. w.key ≢ key) workers
      → All (Fit t) workers
      → All (Fit t') workers
  Fit-others t t' key [] same others fits = tt
  Fit-others t t' key (w ∷ workers) same others fits = (
    Fits-same_row t t' w.key w.slot (same w.key others.0) fits.0,
    Fit-others t t' key workers same others.1 fits.1,
  )

  All-insert :
      {A : Type 0} (P : A → Type 0) (front : List A) (x : A) (back : List A)
      → P x
      → All P (front ++ back)
      → All P (front ++ x ∷ back)
  All-insert P [] x back p h = (p, h)
  All-insert P (y ∷ front) x back p h = (h.0, All-insert P front x back p h.1)

  -- The two halves of a call are the call, if the table says what was read.
  finish-next :
      (c : Call) (pair : ℤ × ℤ) (t : Table)
      → c.fails get ≡ false
      → pair ≡ get_query_id c.address c.read_at t
      → finish c pair t ≡ next c t
  unfolding next
  finish-next c pair t works read = rw (works, read)

  written-next :
      (t : Table) (c : Call) (slot : Slot) (w : Worker)
      → Fit t w
      → w.slot ≡ some slot
      → c.address ≡ w.key
      → c.read_at ≡ slot.at
      → c.fails get ≡ false
      → (finish c slot.pair t ≡ next c t) × (ltb_ℤ (until c.address) c.read_at ≡ false)
  written-next t c slot w fit read mine at works =
      let fits : Fits t w.key (some slot) = subst (Fits t w.key) read fit in
      let here : Fits t c.address (some (record slot { at = c.read_at })) = rw (mine, at) fits in
      (finish-next c slot.pair t works here.0, here.1)

  module _ {table : Table} where
    Move-Fit :
        {s s' : Site}
        → Reached until table s
        → Move until s s'
        → All (Fit s.table) s.workers
        → All (Fit s'.table) s'.workers
    Move-Fit reached (acquired fails key got) fits = (tt, fits)
    Move-Fit reached (refused fails key got) fits = fits
    Move-Fit {s} reached (released fails front w back split) fits =
        All-drop (Fit s.table) front w back (subst (All (Fit s.table)) split fits)
    Move-Fit reached (waited seconds lasts) fits = fits
    Move-Fit {s} reached (has_read at front w back split live) fits =
        All-insert (Fit s.table) front _ back (refl, live)
          (All-drop (Fit s.table) front w back (subst (All (Fit s.table)) split fits))
    Move-Fit {s} reached (has_written c slot front w back split read mine at works) fits =
        let all = subst (All (Fit s.table)) split fits in
        let fit = All-at (Fit s.table) front w back all in
        let (is, _) = written-next s.table c slot w fit read mine at works in
        let others = All-drop (Fit s.table) front w back all in
        All-insert (Fit (finish c slot.pair s.table).1) front _ back tt (
          Fit-others s.table (finish c slot.pair s.table).1 w.key (front ++ back)
            (λ other ne.
              ap (λ r. r.1 other) is ∙ next-elsewhere c s.table other (λ e. ne (e ∙ mine)))
            (Reached-others until front w back reached split) others)

    Reached-Fit : {s : Site} → Reached until table s → All (Fit s.table) s.workers
    Reached-Fit (start locks now) = tt
    Reached-Fit (then_move reached move) = Move-Fit reached move (Reached-Fit reached)

  -- The wallet has a row that expires at `until`, and the ids that were drawn for it increase, up to
  -- the row's.
  record Draws (first : ℕ) (key : String) (t : Table) (drawn : List Drawn) : Type 0 where
    last : HighLoadQueryId
    shown : Shows t key last (until key)
    below : Decreasing (suc (query_id last)) (ids_of key drawn ++ first ∷ [])

  own-next :
      (first : ℕ) (c : Call) (t : Table) (drawn : List Drawn)
      → ltb_ℤ (until c.address) c.read_at ≡ false
      → Draws first c.address t drawn
      → Draws first c.address (next c t).1 (note_drawn c.address (next c t).0 drawn)
  own-next first c t drawn live d = elim (next-returns c t) [
    | inl (q, e) ↦
        let (shown, more) = next-greater c t d.last q (until c.address) d.shown live e in
        let ids : Decreasing (query_id q) (ids_of c.address drawn ++ first ∷ []) =
          Decreasing-below (suc (query_id d.last)) (query_id q)
            (ids_of c.address drawn ++ first ∷ []) (omega (arith, more)) d.below in
        record {
          last = q;
          shown = shown;
          below = rw (e, (==_iff c.address c.address).1 refl) (omega arith, ids);
        }
    | inr (e, h) ↦
        let (q, shown, le) = next_err-Shows c t d.last e (until c.address) d.shown live h in
        record {
          last = q;
          shown = shown;
          below = rw h (
              Decreasing-below (suc (query_id d.last)) (suc (query_id q))
                (ids_of c.address drawn ++ first ∷ []) (omega (arith, le)) d.below);
        }
  ]

  other-next :
      (first : ℕ) (key : String) (c : Call) (t : Table) (drawn : List Drawn)
      → (c.address == key) ≡ false
      → Draws first key t drawn
      → Draws first key (next c t).1 (note_drawn c.address (next c t).0 drawn)
  other-next first key c t drawn other d =
      let row =
        next-elsewhere c t key
          (λ e. let same : (c.address == key) ≡ true = (==_iff c.address key).1 (sym e) in cc) in
      elim (next-returns c t) [
        | inl (q, e) ↦ record {
          last = d.last;
          shown = record { row = row ∙ d.shown.row; valid = d.shown.valid };
          below = rw (e, other) d.below;
        }
        | inr (e, h) ↦ record {
          last = d.last;
          shown = record { row = row ∙ d.shown.row; valid = d.shown.valid };
          below = rw h d.below;
        }
      ]

  next-Draws :
      (first : ℕ) (key : String) (c : Call) (t : Table) (drawn : List Drawn)
      → ltb_ℤ (until c.address) c.read_at ≡ false
      → Draws first key t drawn
      → Draws first key (next c t).1 (note_drawn c.address (next c t).0 drawn)
  next-Draws first key c t drawn live d = elim (Bool-cases (c.address == key)) [
    | inr other ↦ other-next first key c t drawn other d
    | inl mine ↦
        let same : c.address ≡ key = (==_iff c.address key).0 mine in
        subst (λ k. Draws first k (next c t).1 (note_drawn c.address (next c t).0 drawn)) same
          (own-next first c t drawn live (subst (λ k. Draws first k t drawn) (sym same) d))
  ]

  module _ {table : Table} (first : ℕ) (key : String) where
    Move-Draws :
        {s s' : Site}
        → Reached until table s
        → Move until s s'
        → Draws first key s.table s.drawn
        → Draws first key s'.table s'.drawn
    Move-Draws reached (acquired fails k got) d = d
    Move-Draws reached (refused fails k got) d = d
    Move-Draws reached (released fails front w back split) d = d
    Move-Draws reached (waited seconds lasts) d = d
    Move-Draws reached (has_read at front w back split live) d = d
    Move-Draws {s} reached (has_written c slot front w back split read mine at works) d =
        let fit =
          All-at (Fit s.table) front w back
            (subst (All (Fit s.table)) split (Reached-Fit reached)) in
        let (is, live) = written-next s.table c slot w fit read mine at works in
        rw (is, sym mine) (next-Draws first key c s.table s.drawn live d)

    Reached-Draws :
        {s : Site}
        → ((q : HighLoadQueryId) × ((query_id q ≡ first) × Shows table key q (until key)))
        → Reached until table s
        → Draws first key s.table s.drawn
    Reached-Draws (q, (is, shown)) (start locks now) = record {
      last = q;
      shown = shown;
      below = (omega (arith, is), tt);
    }
    Reached-Draws shows (then_move reached move) =
        Move-Draws reached move (Reached-Draws shows reached)

-- Each number is less than the one before it.
abbrev pub Falling : List ℕ → Type 0
Falling [] = Unit
Falling (n ∷ ns) = Decreasing n ns

Decreasing-Falling : (bound : ℕ) (ns : List ℕ) → Decreasing bound ns → Falling ns
Decreasing-Falling bound [] d = tt
Decreasing-Falling bound (n ∷ ns) d = d.1

-- Suppose that the row of each wallet lives until a time of its own, that workers read it before, and
-- that each worker is done with a wallet within the 60 seconds of its lock. A worker may draw any
-- number of ids, which it does with a read and a write between which all others go on, and commands and
-- writes may fail. Then the ids that are drawn for a wallet whose row showed a valid id at the start increase, from that
-- id on: none is drawn twice.
pub drawn_once :
    (until : String → ℤ) (table : Table) (key : String) (q : HighLoadQueryId) (s : Site)
    → Shows table key q (until key)
    → Reached until table s
    → Falling (ids_of key s.drawn ++ query_id q ∷ [])
drawn_once until table key q s shown reached =
    let d = Reached-Draws until (query_id q) key (q, (refl, shown)) reached in
    Decreasing-Falling (suc (query_id d.last)) (ids_of key s.drawn ++ query_id q ∷ []) d.below
