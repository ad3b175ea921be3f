-- ===== src/Boc/SignersRotated.antt =====
-- src/boc/signers_rotated.rs
use axelar_relayer_ton.Prelude.{ℕ, ◌^◌, String, Outcome, ok, err, ltb, if◌then◌else◌, string_eq}
use axelar_relayer_ton.Externals.{Externals}
use axelar_relayer_ton.Types.{BocError, boc_parsing_error, append, op_signers_rotated_log}
use axelar_relayer_ton.Boc.{◌>>=◌, ◌>>◌, pure, lift, load, read_boc, expect_op_code}

pub record LogSignersRotatedMessage : Type 0 where
  pub signers_hash : String
  pub epoch : ℕ  -- u64

-- `u64::try_from`
abbrev pub to_u64 : ℕ → Outcome BocError ℕ
to_u64 n =
    if ltb n (2 ^ 64)
    then ok n
    else err (boc_parsing_error "out of range integral type conversion attempted")

module _ (lib : Externals) where
  open lib use {load_uint, next_reference, hex_encode, bytes_be}

  unfoldable pub from_boc_b64 : String → Outcome BocError LogSignersRotatedMessage
  from_boc_b64 = read_boc lib do
    expect_op_code lib op_signers_rotated_log "0000002A"
    load next_reference
    signers_hash ← load (load_uint 256)
    big_epoch ← load (load_uint 256)
    epoch ← lift (to_u64 big_epoch)
    pure (record { signers_hash = append "0x" (hex_encode (bytes_be signers_hash)); epoch = epoch })
