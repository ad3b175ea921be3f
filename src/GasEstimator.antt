-- ===== src/GasEstimator.antt =====
-- src/gas_estimator.rs and the estimates of src/config.rs. A `u64` keeps its wrap-around.
use axelar_relayer_ton.Prelude.{ℕ, ◌+◌, ◌*◌, ◌%◌, ◌^◌, ltb, if◌then◌else◌}

abbrev pub u64_mod : ℕ
u64_mod = 2 ^ 64

-- All are `u64`.
pub record GasEstimates : Type 0 where
  pub native_gas_refund : ℕ
  pub native_gas_refund_storage_slippage : ℕ
  pub execute_send_min : ℕ
  pub execute_base : ℕ
  pub execute_payload : ℕ
  pub execute_storage_slippage : ℕ
  pub approve_send : ℕ
  pub highload_wallet_send : ℕ
  pub its_execute_minimum : ℕ

-- `std::cmp::max`
abbrev pub max : ℕ → ℕ → ℕ
max a b = if ltb b a then a else b

unfoldable pub native_gas_refund_estimate : GasEstimates → ℕ
native_gas_refund_estimate config =
    (config.native_gas_refund + config.native_gas_refund_storage_slippage) % u64_mod

unfoldable pub execute_estimate : GasEstimates → (payload : ℕ) → ℕ
execute_estimate config payload =
    max
      (((config.execute_base + (config.execute_payload * payload) % u64_mod) % u64_mod
          + config.execute_storage_slippage)
        % u64_mod)
      config.its_execute_minimum

unfoldable pub execute_send : GasEstimates → (payload : ℕ) → ℕ
execute_send config payload = max config.execute_send_min (execute_estimate config payload)

unfoldable pub highload_wallet_send : GasEstimates → (num_actions : ℕ) → ℕ
highload_wallet_send config num_actions = (config.highload_wallet_send * num_actions) % u64_mod

unfoldable pub approve_send : GasEstimates → (num_messages : ℕ) → ℕ
approve_send config num_messages = config.approve_send
