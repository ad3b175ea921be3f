-- ===== src/Boc/ItsTokenMetadataRegistered.antt =====
-- src/boc/its_token_metadata_registered.rs
use axelar_relayer_ton.Prelude.{ℕ, ◌%◌, ◌-◌, String, Outcome, string_eq}
use axelar_relayer_ton.Prelude.Int.{ℤ, pos, negsuc}
use axelar_relayer_ton.Externals.{Externals}
use axelar_relayer_ton.Types.{BocError, op_token_metadata_registered_log}
use axelar_relayer_ton.Boc.{◌>>=◌, ◌>>◌, pure, load, read_boc, expect_op_code}

pub record LogTokenMetadataRegisteredMessage (A : Type 0) : Type 0 where
  pub address : A
  pub decimals : ℕ  -- u8

-- `as u8`
abbrev pub as_u8 : ℤ → ℕ
as_u8 (pos n) = n % 256
as_u8 (negsuc n) = 255 - n % 256

module _ (lib : Externals) where
  open lib use {Address, load_address, load_i16}

  unfoldable pub from_boc_b64 :
      String → Outcome BocError (LogTokenMetadataRegisteredMessage Address)
  from_boc_b64 = read_boc lib do
    expect_op_code lib op_token_metadata_registered_log "00000104"
    address ← load load_address
    decimals ← load (load_i16 8)
    pure (record { address = address; decimals = as_u8 decimals })
