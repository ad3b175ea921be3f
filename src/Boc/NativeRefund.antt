-- ===== src/Boc/NativeRefund.antt =====
-- src/boc/native_refund.rs
use axelar_relayer_ton.Prelude.{ℕ, List, Outcome, ◌>>=◌}
use axelar_relayer_ton.Externals.{Externals}
use axelar_relayer_ton.Types.{BocError, boc_encoding_error, lift_err, op_native_refund}

module _ (lib : Externals) where
  open lib use {
    Address, Cell, new_builder, store_uint, store_tonhash, store_address, store_coins, build,
  }

  pub record NativeRefundMessage : Type 0 where
    pub tx_hash : List ℕ
    pub address : Address
    pub amount : ℕ

  unfoldable pub to_cell : NativeRefundMessage → Outcome BocError Cell
  to_cell m = do
    op ← lift_err boc_encoding_error (store_uint 32 op_native_refund new_builder)
    hash ← lift_err boc_encoding_error (store_tonhash m.tx_hash op)
    address ← lift_err boc_encoding_error (store_address m.address hash)
    coins ← lift_err boc_encoding_error (store_coins m.amount address)
    lift_err boc_encoding_error (build coins)
