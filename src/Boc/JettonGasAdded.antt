-- ===== src/Boc/JettonGasAdded.antt =====
-- src/boc/jetton_gas_added.rs
use axelar_relayer_ton.Prelude.{ℕ, String, List, Outcome, string_eq}
use axelar_relayer_ton.Externals.{Externals}
use axelar_relayer_ton.Types.{BocError}
use axelar_relayer_ton.Boc.{◌>>=◌, pure, load, read_boc, inside, load_bytes32}

pub record JettonGasAddedMessage (A : Type 0) : Type 0 where
  pub minter : A
  pub sender : A
  pub tx_hash : List ℕ
  pub amount : ℕ
  pub refund_address : A

module _ (lib : Externals) where
  open lib use {Address, load_address, load_coins, next_reference}

  unfoldable pub from_boc_b64 : String → Outcome BocError (JettonGasAddedMessage Address)
  from_boc_b64 = read_boc lib do
    minter ← load load_address
    sender ← load load_address
    amount ← load load_coins
    tx_hash ← load_bytes32 lib "Invalid tx_hash hash length"
    refund_cell ← load next_reference
    refund_address ← inside lib refund_cell (load load_address)
    pure (record {
      minter = minter;
      sender = sender;
      tx_hash = tx_hash;
      amount = amount;
      refund_address = refund_address;
    })
