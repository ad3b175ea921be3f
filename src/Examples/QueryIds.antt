-- ===== src/Examples/QueryIds.antt =====
-- src/high_load_query_id.rs and src/high_load_query_id_db_wrapper.rs at concrete inputs.
use axelar_relayer_ton.Prelude.{
  ℕ, ◌+◌, ◌*◌, ◌^◌, if◌then◌else◌, ◌==◌, string_eq, ◌≤◌, ◌<◌, String, Bool, true, false, ◌≡◌, refl,
  ◌⊎◌, none, some, List, [], ◌∷◌, ok, err, arith,
}
use axelar_relayer_ton.Prelude.Int.{ℤ, pos, ◌+ℤ◌}
use axelar_relayer_ton.HighLoadQueryId.{
  HighLoadQueryId, emergency_overload, shift_overflow, IsValid, next, has_next, query_id,
}
use axelar_relayer_ton.HighLoadQueryId.Order.{
  rank, successor, next-IsValid, has_next_exact, query_id_injective,
}
use axelar_relayer_ton.HighLoadQueryId.Exhaustion.{first, advance, last_rank, advance-first}
use axelar_relayer_ton.TonWalletQueryId.{Table, get_query_id, upsert_query_id, update_query_id}
use axelar_relayer_ton.HighLoadQueryIdDbWrapper.{
  Call, Statement, get, update, upsert, database_error, HighLoadQueryIdWrapperError, increase_shift,
  choose,
}
use axelar_relayer_ton.HighLoadQueryIdDbWrapper
use axelar_relayer_ton.HighLoadQueryIdDbWrapper.Storage.{
  Shows, next_err-Shows, next-greater, next-free,
}
use axelar_relayer_ton.HighLoadQueryIdDbWrapper.Replay.{Increasing, ids_of, no_replay}

abbrev id : ℕ → ℕ → HighLoadQueryId
id shift bitnumber = record { shift = shift; bitnumber = bitnumber }

next-IsValid_example :
    IsValid (id 8 0)
    × (rank (id 8 0) ≡ rank (id 7 1022) + 1)
    × (query_id (id 7 1022) < query_id (id 8 0))
unfolding next
next-IsValid_example = next-IsValid (id 7 1022) (id 8 0) (omega arith) refl

query_id_injective_example : (id 3 4 ≡ id 3 4) × (query_id (id 3 4) < 2 ^ 23)
query_id_injective_example = query_id_injective (id 3 4) (id 3 4) (omega arith) (omega arith) refl

-- `next` returns the id that `has_next` denies, and denies the one that `has_next` promises.
next_after_has_next :
    (has_next (id 8191 1020) ≡ true) × (next (id 8191 1020) ≡ err emergency_overload)
unfolding has_next next
next_after_has_next = (refl, refl)

has_next_exact_example :
    ((has_next (id 8191 1021) ≡ true) × (next (id 8191 1021) ≡ ok (successor (id 8191 1021))))
    ⊎ ((has_next (id 8191 1021) ≡ false) × (next (id 8191 1021) ≡ err shift_overflow))
    ⊎ ((id 8191 1021 ≡ id 8191 1020)
        × (has_next (id 8191 1021) ≡ true)
        × (next (id 8191 1021) ≡ err emergency_overload))
    ⊎ ((id 8191 1021 ≡ id 8191 1021)
        × (has_next (id 8191 1021) ≡ false)
        × (next (id 8191 1021) ≡ ok (id 8191 1022)))
has_next_exact_example = has_next_exact (id 8191 1021) (omega arith)

advance-first_example :
    ((3 ≤ last_rank)
      × ((q : HighLoadQueryId) × (advance 3 first ≡ ok q) × IsValid q × (rank q ≡ 3)))
    ⊎ ((last_rank < 3) × (advance 3 first ≡ err emergency_overload))
advance-first_example = advance-first 3

-- The wallets at the start, a row of "w1" that expires at 100, and calls of "w1" and "w2".
abbrev no_rows : Table
no_rows _ = none

abbrev one_row : ℤ → ℤ → Table
one_row shift bitnumber a =
    if a == "w1"
    then some (record { shift = shift; bitnumber = bitnumber; expires_at = pos 100 })
    else none

abbrev call_at : String → Bool → ℕ → Call
call_at address force now = record {
  address = address;
  timeout = 60;
  force_shift_increase = force;
  read_at = pos now;
  write_at = pos now;
  fails = λ _. false;
  carried_out = λ _. false;
}

abbrev down_at : ℕ → Call
down_at now = record (call_at "w1" false now) { fails = λ _. true }

-- The update is carried out, and its answer is lost.
abbrev lost_at : ℕ → Call
lost_at now = record (call_at "w1" false now) {
  fails = λ s. elim s [ get ↦ false | update ↦ true | upsert ↦ true ];
  carried_out = λ _. true;
}

next_err-Shows_example :
    (q : HighLoadQueryId) × Shows
      (HighLoadQueryIdDbWrapper.next (lost_at 10) (one_row (pos 2) (pos 3))).1
      "w1"
      q
      (pos 100)
    × (query_id (id 2 3) ≤ query_id q)
unfolding HighLoadQueryIdDbWrapper.next HighLoadQueryIdDbWrapper.chosen
    HighLoadQueryIdDbWrapper.store get_query_id increase_shift choose query_id next has_next
next_err-Shows_example =
    next_err-Shows (lost_at 10) (one_row (pos 2) (pos 3)) (id 2 3) database_error (pos 100)
      (record { row = refl; valid = omega arith }) refl refl

-- The id that the update wrote is not given out, and the next call goes on after it.
after_lost :
    (HighLoadQueryIdDbWrapper.next
      (call_at "w1" false 11)
      (HighLoadQueryIdDbWrapper.next (lost_at 10) (one_row (pos 2) (pos 3))).1).0
    ≡ ok (id 2 5)
unfolding HighLoadQueryIdDbWrapper.next HighLoadQueryIdDbWrapper.chosen
    HighLoadQueryIdDbWrapper.store get_query_id increase_shift choose query_id next has_next
    update_query_id
after_lost = refl

next-greater_example :
    Shows
      (HighLoadQueryIdDbWrapper.next (call_at "w1" false 10) (one_row (pos 2) (pos 3))).1
      "w1"
      (id 2 4)
      (pos 100)
    × (query_id (id 2 3) < query_id (id 2 4))
unfolding HighLoadQueryIdDbWrapper.next HighLoadQueryIdDbWrapper.chosen
    HighLoadQueryIdDbWrapper.store get_query_id increase_shift choose query_id next has_next
next-greater_example =
    next-greater (call_at "w1" false 10) (one_row (pos 2) (pos 3)) (id 2 3) (id 2 4) (pos 100)
      (record { row = refl; valid = omega arith }) refl refl

next-free_example :
    (query_id (id 0 0) ≡ 0)
    × Shows
        (HighLoadQueryIdDbWrapper.next (call_at "w1" true 10) no_rows).1
        "w1"
        (id 0 0)
        (pos 10 +ℤ pos (3 * 60))
unfolding HighLoadQueryIdDbWrapper.next HighLoadQueryIdDbWrapper.chosen
    HighLoadQueryIdDbWrapper.store get_query_id increase_shift choose query_id next has_next
next-free_example = next-free (call_at "w1" true 10) no_rows (id 0 0) refl (omega arith) refl

abbrev history : List Call
history = call_at "w1" false 20 ∷ call_at "w2" false 21 ∷ down_at 22 ∷ call_at "w1" true 30 ∷ []

no_replay_example :
    (query_id (id 0 0) ≡ 0)
    × Increasing 0
        (ids_of "w1" history (HighLoadQueryIdDbWrapper.next (call_at "w1" false 10) no_rows).1)
unfolding HighLoadQueryIdDbWrapper.next HighLoadQueryIdDbWrapper.chosen
    HighLoadQueryIdDbWrapper.store get_query_id increase_shift choose query_id next has_next
no_replay_example =
    no_replay (call_at "w1" false 10) history no_rows (id 0 0) refl (omega arith) refl
      (refl, (refl, (refl, (refl, tt))))

-- The ids of that history.
ids_of-history :
    ids_of "w1" history (HighLoadQueryIdDbWrapper.next (call_at "w1" false 10) no_rows).1
    ≡ 1 ∷ 1026 ∷ []
unfolding ids_of HighLoadQueryIdDbWrapper.next HighLoadQueryIdDbWrapper.chosen
    HighLoadQueryIdDbWrapper.store get_query_id increase_shift choose query_id next has_next
    upsert_query_id update_query_id HighLoadQueryIdDbWrapper.lifetime
ids_of-history = refl
