-- ===== src/Boc/JettonGasPaid.antt =====
-- src/boc/jetton_gas_paid.rs
use axelar_relayer_ton.Prelude.{ℕ, String, List, Outcome, string_eq}
use axelar_relayer_ton.Externals.{Externals}
use axelar_relayer_ton.Types.{BocError}
use axelar_relayer_ton.Boc.{◌>>=◌, pure, load, read_boc, inside, next_string, load_bytes32}

pub record JettonGasPaidMessage (A : Type 0) : Type 0 where
  pub minter : A
  pub payload_hash : List ℕ
  pub amount : ℕ
  pub refund_address : A
  pub destination_chain : String
  pub destination_address : String

module _ (lib : Externals) where
  open lib use {Address, load_address, load_coins, next_reference}

  unfoldable pub from_boc_b64 : String → Outcome BocError (JettonGasPaidMessage Address)
  from_boc_b64 = read_boc lib do
    minter ← load load_address
    amount ← load load_coins
    payload_hash ← load_bytes32 lib "Invalid payload hash length"
    refund_cell ← load next_reference
    refund_address ← inside lib refund_cell (load load_address)
    destination_chain ← next_string lib
    destination_address ← next_string lib
    pure (record {
      minter = minter;
      payload_hash = payload_hash;
      amount = amount;
      refund_address = refund_address;
      destination_chain = destination_chain;
      destination_address = destination_address;
    })
