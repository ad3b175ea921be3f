-- ===== src/TonWalletHighLoadV3.antt =====
-- src/ton_wallet_high_load_v3.rs: the message that a high load wallet receives from outside.
use axelar_relayer_ton.Prelude.{
  ℕ, ◌+◌, ◌-◌, ◌/◌, ◌%◌, String, List, Outcome, panic, map_err, ◌>>=◌, ltb, length, if◌then◌else◌,
}
use axelar_relayer_ton.Externals.{Externals, OutAction}
use axelar_relayer_ton.Types.{BocError, boc_encoding_error, lift_err, append}
use axelar_relayer_ton.GasEstimator.{u64_mod}
use axelar_relayer_ton.OutAction.{internal_message, send_mode_ignore_errors}

pub record KeyPair : Type 0 where
  pub public_key : List ℕ
  pub secret_key : List ℕ

pub record TonWalletHighLoadV3 (A : Type 0) : Type 0 where
  pub address : A
  pub key_pair : KeyPair
  pub subwallet_id : ℕ  -- u32
  pub timeout : ℕ  -- u64

abbrev pub new : {A : Type 0} → A → KeyPair → (subwallet_id timeout : ℕ) → TonWalletHighLoadV3 A
new address key_pair subwallet_id timeout = record {
  address = address;
  key_pair = key_pair;
  subwallet_id = subwallet_id;
  timeout = timeout;
}

-- The time that the wallet's `TimeProvider` gives, less a sixtieth of the timeout, as a `u64`.
unfoldable pub created_at : (now timeout : ℕ) → ℕ
created_at now timeout = (now + u64_mod - timeout / 60) % u64_mod

module _ (lib : Externals) where
  open lib use {
    Address, Cell, new_builder, store_uint, store_int, store_number, store_slice, store_reference,
    build, build_transfer, write_out_list, ext_in_message, cell_hash, signature,
  }

  -- The errors of these are the library's, which are their texts here.
  unfoldable pub internal_transfer_body :
      List (OutAction Cell) → (query_id : ℕ) → Outcome String Cell
  internal_transfer_body actions query_id =
      if ltb 254 (length actions)
      then panic
      else (lift_err (λ e. e) (write_out_list actions new_builder) >>= λ out_list.
          lift_err (λ e. e) (build out_list) >>= λ actions_cell.
          lift_err (λ e. e) (store_uint 32 0xae42e5a4 new_builder) >>= λ op.
          lift_err (λ e. e) (store_uint 64 query_id op) >>= λ id.
          lift_err (λ e. e) (store_reference actions_cell id) >>= λ full.
          lift_err (λ e. e) (build full))

  unfoldable pub internal_transfer_message_cell :
      TonWalletHighLoadV3 Address
      → (internal_transfer_body : Cell) (internal_message_value : ℕ) → Outcome String Cell
  internal_transfer_message_cell wallet body value =
      lift_err (λ e. e) (build_transfer (internal_message lib wallet.address value) body)

  unfoldable pub message_inner :
      TonWalletHighLoadV3 Address
      → (message : Cell) (mode query_id created_at timeout : ℕ) → Outcome String Cell
  message_inner wallet message mode query_id created_at timeout = do
    id ← lift_err (λ e. e) (store_uint 32 wallet.subwallet_id new_builder)
    b ← lift_err (λ e. e) (store_reference message id)
    b' ← lift_err (λ e. e) (store_uint 8 mode b)
    b'' ← lift_err (λ e. e) (store_int 23 query_id b')
    created ← lift_err (λ e. e) (store_uint 64 created_at b'')
    full ← lift_err (λ e. e) (store_number 22 timeout created)
    lift_err (λ e. e) (build full)

  unfoldable pub sign_external_body :
      TonWalletHighLoadV3 Address → (external_body : Cell) → Outcome String Cell
  sign_external_body wallet external_body = do
    sign ← lift_err (λ e. e) (signature (cell_hash external_body) wallet.key_pair.secret_key)
    b ← lift_err (λ e. e) (store_slice sign new_builder)
    full ← lift_err (λ e. e) (store_reference external_body b)
    lift_err (λ e. e) (build full)

  unfoldable pub wrap_signed_body :
      TonWalletHighLoadV3 Address → (signed_body : Cell) → Outcome String Cell
  wrap_signed_body wallet signed_body =
      lift_err (λ e. e) (ext_in_message wallet.address signed_body)

  abbrev pub failed : {A : Type 0} → String → Outcome String A → Outcome BocError A
  failed what = map_err (λ e. boc_encoding_error (append what e))

  -- The root of the bag of cells, at a time of the wallet's clock.
  unfoldable pub outgoing_message :
      (now : ℕ)
      → TonWalletHighLoadV3 Address
      → (actions : List (OutAction Cell)) (query_id internal_message_value : ℕ)
      → Outcome BocError Cell
  unfolding internal_transfer_body internal_transfer_message_cell created_at message_inner
      sign_external_body wrap_signed_body
  outgoing_message now wallet actions query_id internal_message_value = do
    body ←
        failed "Failed constructing internal transfer body: "
          (internal_transfer_body actions query_id)
    internal_transfer ←
        failed "Failed constructing internal transfer message: "
          (internal_transfer_message_cell wallet body internal_message_value)
    inner ← failed "Failed constructing inner message: " (
        message_inner wallet internal_transfer send_mode_ignore_errors query_id
          (created_at now wallet.timeout) wallet.timeout)
    signed_body ← failed "Failed signing external body: " (sign_external_body wallet inner)
    failed "Failed wrapping signed body: " (wrap_signed_body wallet signed_body)
