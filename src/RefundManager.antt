-- ===== src/RefundManager.antt =====
-- src/refund_manager.rs: the answers that tell relayer_core that refunds are not managed here. The
-- refunds are the broadcaster's.
use axelar_relayer_ton.Prelude.{String, Bool, false, Option, none, Outcome, ok}

pub record TonRefundManager : Type 0 where

pub record TonWallet : Type 0 where

-- relayer_core::error::RefundManagerError is not made, and a `Task` not read.
module _ (RefundManagerError Task : Type 0) where
  abbrev pub new : Outcome RefundManagerError TonRefundManager
  new = ok (record {})

  abbrev pub is_refund_manager_managed : TonRefundManager → Bool
  is_refund_manager_managed self = false

  abbrev pub build_refund_tx :
      TonRefundManager
      → (recipient amount refund_id : String) → TonWallet
      → Outcome RefundManagerError (Option (String × (String × String)))
  build_refund_tx self recipient amount refund_id wallet = ok none

  abbrev pub is_refund_processed :
      TonRefundManager → Task → (refund_id : String) → Outcome RefundManagerError Bool
  is_refund_processed self refund_task refund_id = ok false

  abbrev pub get_wallet_lock : TonRefundManager → Outcome RefundManagerError TonWallet
  get_wallet_lock self = ok (record {})

  abbrev pub release_wallet_lock :
      TonRefundManager → TonWallet → Outcome RefundManagerError (Unit {0})
  release_wallet_lock self wallet = ok tt
