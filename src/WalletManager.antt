-- ===== src/WalletManager.antt =====
-- src/wallet_manager.rs: a wallet is used by whoever holds its lock.
pub mod Acquire
pub mod Exclusion
pub mod Loading
use axelar_relayer_ton.Prelude.{String, Bool, List, [], ◌∷◌, Outcome, ok, err, if◌then◌else◌}
use axelar_relayer_ton.LockManager.{LockManager}

pub data WalletManagerError : Type 0 where
  no_available_wallet : WalletManagerError
  lock_error : String → WalletManagerError

-- `W` is a wallet and `address` its address as text. The wallets of the manager are in the order of
-- its hash map, which can be any.
module _ {W S : Type 0} (address : W → String) (lock_manager : LockManager S) where
  unfoldable pub acquire : List W → S → Outcome WalletManagerError W × S
  acquire [] s = (err no_available_wallet, s)
  acquire (wallet ∷ wallets) s =
      let (locked, s') = lock_manager.lock (address wallet) s in
      let rest = acquire wallets s' in if locked then (ok wallet, s') else rest

  unfoldable pub release : W → S → S
  release wallet s = lock_manager.unlock (address wallet) s
