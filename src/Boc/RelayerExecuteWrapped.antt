-- ===== src/Boc/RelayerExecuteWrapped.antt =====
-- src/boc/relayer_execute_wrapped.rs
use axelar_relayer_ton.Prelude.{String, Outcome, map_err, string_eq}
use axelar_relayer_ton.Externals.{Externals}
use axelar_relayer_ton.Types.{BocError, boc_error_text, boc_parsing_error}
use axelar_relayer_ton.Boc.CellTo.{cell_to_string}
use axelar_relayer_ton.Boc.{Reader, ◌>>=◌, ◌>>◌, pure, lift, load, read_boc, inside}

pub record RelayerExecuteWrappedMessage : Type 0 where
  pub message_id : String
  pub source_chain : String

module _ (lib : Externals) where
  open lib use {CellParser, next_reference}

  -- `err.to_string()` of a `BocError`, wrapped once more
  abbrev pub rewrapped : {A : Type 0} → Reader CellParser A → Reader CellParser A
  rewrapped m p = map_err (λ e. boc_parsing_error (boc_error_text e)) (m p)

  abbrev pub next_string_rewrapped : Reader CellParser String
  next_string_rewrapped = do cell ← load next_reference; rewrapped (lift (cell_to_string lib cell))

  abbrev pub message : Reader CellParser RelayerExecuteWrappedMessage
  message = do
    message_id ← next_string_rewrapped
    source_chain ← next_string_rewrapped
    pure (record { message_id = message_id; source_chain = source_chain })

  -- The first reference of a cell, and what is read inside it.
  abbrev pub first_reference : {A : Type 0} → Reader CellParser A → Reader CellParser A
  first_reference m = do cell ← load next_reference; inside lib cell m

  abbrev pub second_reference : {A : Type 0} → Reader CellParser A → Reader CellParser A
  second_reference m = do load next_reference; cell ← load next_reference; inside lib cell m

  unfoldable pub from_boc_b64 : String → Outcome BocError RelayerExecuteWrappedMessage
  from_boc_b64 =
      read_boc lib (first_reference (second_reference (first_reference (first_reference message))))
