-- ===== src/Examples/Wallets.antt =====
-- src/wallet_manager.rs and src/lock_manager.rs with three wallets, of which the first is locked.
use axelar_relayer_ton.Prelude.{ℕ, All}
use axelar_relayer_ton.TonWalletHighLoadV3.{TonWalletHighLoadV3}
use axelar_relayer_ton.WalletManager.Loading.{WalletConfig, load_wallet, insert_all, new}
use axelar_relayer_ton.WalletManager.Loading.Loaded.{Distinct, IsLoaded, Covered, new-Loaded}
use axelar_relayer_ton.Examples.Library.{library}
use axelar_relayer_ton.Prelude.{
  String, Bool, false, none, some, List, [], ◌∷◌, ◌≡◌, refl, arith, ◌==◌, string_eq, if◌then◌else◌,
  ok,
}
use axelar_relayer_ton.LockManager.{Locks, lock, redis}
use axelar_relayer_ton.WalletManager.{acquire}
use axelar_relayer_ton.WalletManager.Acquire.{Acquired, acquire-Acquired}
use axelar_relayer_ton.WalletManager.Exclusion.{
  World, acquired, refused, waited, Reachable, start, after, Exclusive, Reachable-Exclusive,
}

abbrev wallets : List String
wallets = "w1" ∷ "w2" ∷ "w3" ∷ []

abbrev w1_locked : Locks
w1_locked key = if key == "w1" then some 100 else none

abbrev no_failures : String → Bool
no_failures _ = false

acquire-Acquired_example :
    Acquired {W = String}
      (λ w. w)
      (record { now = 50; fails = no_failures })
      wallets
      w1_locked
      (acquire (λ w. w) (redis (record { now = 50; fails = no_failures })) wallets w1_locked)
acquire-Acquired_example =
    acquire-Acquired (λ w. w) (record { now = 50; fails = no_failures }) wallets w1_locked

acquires_w2 :
    (acquire (λ w. w) (redis (record { now = 50; fails = no_failures })) wallets w1_locked).0
    ≡ ok "w2"
unfolding acquire lock
acquires_w2 = refl

-- A user gets "w2", another is refused it, and ten seconds later one gets "w3".
abbrev world_0 : World
world_0 = record { locks = w1_locked; now = 50; users = [] }

abbrev world_1 : World
world_1 = record {
  locks = (lock (record { now = 50; fails = no_failures }) "w2" w1_locked).1;
  now = 50;
  users = record { key = "w2"; since = 50 } ∷ [];
}

abbrev world_2 : World
world_2 = record world_1 {
  locks = (lock (record { now = 50; fails = no_failures }) "w2" world_1.locks).1;
}

abbrev world_3 : World
world_3 = record world_2 { now = 60 }

abbrev world_4 : World
world_4 = record {
  locks = (lock (record { now = 60; fails = no_failures }) "w3" world_3.locks).1;
  now = 60;
  users = record { key = "w3"; since = 60 } ∷ record { key = "w2"; since = 50 } ∷ [];
}

world_4-Reachable : Reachable world_4
unfolding lock
world_4-Reachable =
    after
      (after
        (after (after (start w1_locked 50) (acquired {w = world_0} no_failures "w2" refl))
          (refused {w = world_1} no_failures "w2" refl))
        (waited {w = world_2} 10 (omega arith, tt)))
      (acquired {w = world_3} no_failures "w3" refl)

Reachable-Exclusive_example : Exclusive world_4.users
Reachable-Exclusive_example = Reachable-Exclusive world_4 world_4-Reachable

abbrev config_of : String → ℕ → WalletConfig
config_of address subwallet_id = record {
  public_key = "01";
  secret_key = "01";
  subwallet_id = subwallet_id;
  timeout = 3600;
  address = address;
}

-- The first and the last have one address.
abbrev three_configs : List WalletConfig
three_configs = config_of "a" 1 ∷ config_of "b" 2 ∷ config_of "a" 3 ∷ []

abbrev wallet_of : ℕ → ℕ → TonWalletHighLoadV3 ℕ
wallet_of address subwallet_id = record {
  address = address;
  key_pair = record { public_key = 1 ∷ []; secret_key = 1 ∷ [] };
  subwallet_id = subwallet_id;
  timeout = 3600;
}

new-Loaded_example :
    All (IsLoaded library three_configs) (wallet_of 1 3 ∷ wallet_of 2 2 ∷ [])
    × (Covered library (wallet_of 1 3 ∷ wallet_of 2 2 ∷ []) three_configs
        × Distinct library (wallet_of 1 3 ∷ wallet_of 2 2 ∷ []))
unfolding new insert_all load_wallet
new-Loaded_example = new-Loaded library three_configs (wallet_of 1 3 ∷ wallet_of 2 2 ∷ []) refl
