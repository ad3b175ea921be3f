-- ===== src/Broadcaster/Funded.antt =====
-- src/broadcaster.rs and src/gas_estimator.rs: an execution is paid for by its task.
use axelar_relayer_ton.Prelude.{
  ℕ, ◌+◌, ◌*◌, ◌≤◌, ◌<◌, ◌⊎◌, inl, inr, List, ◌≡◌, refl, ok, Outcome-cases, Bool-cases, length,
  arith,
}
use native.Mathlib.Nat.{mod-eq_of_lt}
use axelar_relayer_ton.Externals.{Externals}
use axelar_relayer_ton.GasEstimator.{GasEstimates, u64_mod, max, execute_estimate}
use axelar_relayer_ton.Broadcaster.{TonBroadcaster, Surroundings, State}
use axelar_relayer_ton.Broadcaster.Handlers.{
  ExecuteTaskFields, decoded, lacks_gas, or_zero, broadcast_execute_message,
}

-- What an execution is estimated to cost, before its minimum.
abbrev pub true_cost : GasEstimates → (payload : ℕ) → ℕ
true_cost config payload =
    config.execute_base + config.execute_payload * payload + config.execute_storage_slippage

le_max : (a b : ℕ) → (a ≤ max a b) × (b ≤ max a b)
le_max a b = ground arith

true_cost_le_execute_estimate :
    (config : GasEstimates) (payload : ℕ)
    → true_cost config payload < u64_mod
    → true_cost config payload ≤ execute_estimate config payload
unfolding execute_estimate
true_cost_le_execute_estimate config payload fits =
    let bytes = mod-eq_of_lt {n = config.execute_payload * payload} {m = u64_mod} (omega arith) in
    let base =
      mod-eq_of_lt {n = config.execute_base + config.execute_payload * payload} {m = u64_mod}
        (omega arith) in
    let all = mod-eq_of_lt {n = true_cost config payload} {m = u64_mod} fits in
    rw (bytes, base, all) (le_max (true_cost config payload) config.its_execute_minimum).0

minimum_le_execute_estimate :
    (config : GasEstimates) (payload : ℕ)
    → config.its_execute_minimum ≤ execute_estimate config payload
unfolding execute_estimate
minimum_le_execute_estimate config payload = (le_max _ config.its_execute_minimum).1

module _ (lib : Externals) (b : TonBroadcaster lib) (around : Surroundings) where
  -- The task is readable, and its gas covers the cost, if that is a number of 64 bits, and the minimum.
  pub record Funded (task : ExecuteTaskFields) : Type 0 where
    pub destination : lib.Address
    pub payload : List ℕ
    pub reads : decoded lib b around task ≡ ok (destination, payload)
    pub minimum :
        b.gas_estimates.its_execute_minimum
        ≤ or_zero (lib.parse_u64 task.available_gas_balance.amount)
    pub covers :
        true_cost b.gas_estimates (length payload) < u64_mod
        → true_cost b.gas_estimates (length payload)
          ≤ or_zero (lib.parse_u64 task.available_gas_balance.amount)

  -- An execution leaves the locks, the query ids and what was posted as they are, unless its task is
  -- readable and has the gas that the execution is estimated to cost and the minimum for it; a cost
  -- past 64 bits, which wraps around, is left out.
  pub broadcast_execute_message-Funded :
      (task : ExecuteTaskFields) (s : State)
      → ((broadcast_execute_message lib b around task s).1 ≡ s) ⊎ Funded task
  unfolding broadcast_execute_message
  broadcast_execute_message-Funded task s = elim (Outcome-cases (decoded lib b around task)) [
    | inr (inl (e, failed)) ↦ inl (rw failed refl)
    | inr (inr panics) ↦ inl (rw panics refl)
    | inl ((destination, payload), reads) ↦
        elim (Bool-cases (lacks_gas lib b around task payload)) [
          | inl lacks ↦ inl (rw (reads, lacks) refl)
          | inr has ↦
              (let enough : execute_estimate b.gas_estimates (length payload)
                    ≤ or_zero (lib.parse_u64 task.available_gas_balance.amount) =
                  ground arith in
                let least = minimum_le_execute_estimate b.gas_estimates (length payload) in
                inr (record {
                  destination = destination;
                  payload = payload;
                  reads = reads;
                  minimum = omega arith;
                  covers = λ fits.
                      let cost =
                        true_cost_le_execute_estimate b.gas_estimates (length payload) fits in
                      omega arith;
                }))
        ]
  ]
