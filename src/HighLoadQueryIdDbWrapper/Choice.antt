-- ===== src/HighLoadQueryIdDbWrapper/Choice.antt =====
-- Which id is chosen from a stored pair.
use axelar_relayer_ton.Prelude.{Bool, true, false, ◌≡◌, ◌≢◌, panic, refl, ◌<◌, ok, arith}
use axelar_relayer_ton.Prelude.Int.{ℤ, pos, negsuc}
use axelar_relayer_ton.HighLoadQueryId.{HighLoadQueryId, query_id, IsValid}
use axelar_relayer_ton.HighLoadQueryIdDbWrapper.{increase_shift, choose}

-- From a valid stored pair the chosen id is valid and has a greater query id.
pub choose-greater :
    (force : Bool) (q q' : HighLoadQueryId)
    → IsValid q
    → choose (increase_shift force (pos q.shift)) (pos q.bitnumber) ≡ ok q'
    → IsValid q' × (query_id q < query_id q')
unfolding choose increase_shift query_id
choose-greater false q q' v e = ground arith
choose-greater true q q' v e = ground arith

-- With no live row the first id is chosen.
pub choose-first :
    (force : Bool)
    → choose (increase_shift force (negsuc 0)) (negsuc 0) ≡ ok (record { shift = 0; bitnumber = 0 })
unfolding choose increase_shift
choose-first false = refl
choose-first true = refl

pub choose-ne-panic : (shift bitnumber : ℤ) → choose shift bitnumber ≢ panic
unfolding choose
choose-ne-panic shift bitnumber h = ground arith
