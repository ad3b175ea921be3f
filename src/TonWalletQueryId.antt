-- ===== src/TonWalletQueryId.antt =====
-- src/models/ton_wallet_query_id.rs: the table of the last query id of each wallet. The primary key
-- is the address, so the table is a function; `created_at` and `updated_at` are never read.
use axelar_relayer_ton.Prelude.{String, Option, none, some, not, ◌==◌, string_eq, if◌then◌else◌}
use axelar_relayer_ton.Prelude.Int.{ℤ, negsuc, ◌+ℤ◌, ltb_ℤ}

pub record Row : Type 0 where
  pub shift : ℤ  -- INTEGER
  pub bitnumber : ℤ  -- INTEGER
  pub expires_at : ℤ  -- TIMESTAMPTZ, in seconds

abbrev pub Table : Type 0
Table = String → Option Row

-- `expires_at >= CURRENT_TIMESTAMP`
abbrev pub if_live : ℤ → Option Row → ℤ × ℤ
if_live now none = (negsuc 0, negsuc 0)
if_live now (some row) =
    if not (ltb_ℤ row.expires_at now) then (row.shift, row.bitnumber) else (negsuc 0, negsuc 0)

unfoldable pub get_query_id : String → ℤ → Table → ℤ × ℤ
get_query_id address now t = if_live now (t address)

abbrev pub set_ids : ℤ → ℤ → Option Row → Option Row
set_ids shift bitnumber none = none
set_ids shift bitnumber (some row) = some (record row { shift = shift; bitnumber = bitnumber })

-- An UPDATE of an address without a row changes nothing.
unfoldable pub update_query_id : String → ℤ → ℤ → Table → Table
update_query_id address shift bitnumber t =
    λ a. if a == address then set_ids shift bitnumber (t a) else t a

-- `timeout` is a number of seconds.
unfoldable pub upsert_query_id : String → ℤ → ℤ → ℤ → ℤ → Table → Table
upsert_query_id address shift bitnumber timeout now t = λ a.
    if a == address
    then some (record { shift = shift; bitnumber = bitnumber; expires_at = now +ℤ timeout })
    else t a
