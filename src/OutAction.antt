-- ===== src/OutAction.antt =====
-- src/out_action.rs: the action that sends a message with a body from a high load wallet.
use axelar_relayer_ton.Prelude.{ℕ, String, false, true, Outcome, ◌>>=◌, ok}
use axelar_relayer_ton.Externals.{Externals, OutAction, InternalMessage}
use axelar_relayer_ton.Types.{lift_err}

abbrev pub send_mode_ignore_errors : ℕ
send_mode_ignore_errors = 2

module _ (lib : Externals) where
  open lib use {Address, Cell, null_address, cell_from_boc_hex, build_transfer}

  -- A bouncing message from no address, with no fees and no times.
  abbrev pub internal_message : (dest : Address) (value : ℕ) → InternalMessage Address
  internal_message dest value = record {
    ihr_disabled = false;
    bounce = true;
    bounced = false;
    src = null_address;
    dest = dest;
    value = value;
    ihr_fee = 0;
    fwd_fee = 0;
    created_lt = 0;
    created_at = 0;
  }

  -- An error is a `TonMessageError`, which is its text here.
  unfoldable pub out_action :
      (boc_hex : String) (value : ℕ) (destination : Address) → Outcome String (OutAction Cell)
  out_action boc_hex value destination = do
    body ← lift_err (λ e. e) (cell_from_boc_hex boc_hex)
    tm ← lift_err (λ e. e) (build_transfer (internal_message destination value) body)
    ok (record { mode = send_mode_ignore_errors; out_msg = tm })
