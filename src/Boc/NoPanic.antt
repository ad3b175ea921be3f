-- ===== src/Boc/NoPanic.antt =====
-- src/boc/: reading a message ends with a value or an error, whatever the cell holds.
use axelar_relayer_ton.Prelude.{
  ℕ, zero, suc, String, ◌⊎◌, inl, inr, Bool, true, false, List, Outcome, ok, err, panic, Ensures,
  returns, fails, Ensures-panic, Ensures-map_err, if◌then◌else◌, eqb, length,
}
use axelar_relayer_ton.Externals.{Externals}
use axelar_relayer_ton.Types.{BocError, boc_parsing_error, lift_err}
use axelar_relayer_ton.Boc.{
  Reader, ◌>>=◌, pure, lift, load, run, bytes32, read_boc, inside, next_string, next_buffer,
  load_bytes32, expect_op_code,
}
use axelar_relayer_ton.Boc.CellTo.{cell_to_string, cell_to_buffer}
use axelar_relayer_ton.Boc.CallContract
use axelar_relayer_ton.Boc.NativeGasPaid
use axelar_relayer_ton.Boc.NativeGasAdded
use axelar_relayer_ton.Boc.NativeGasRefunded
use axelar_relayer_ton.Boc.JettonGasPaid
use axelar_relayer_ton.Boc.JettonGasAdded
use axelar_relayer_ton.Boc.CcMessage
use axelar_relayer_ton.Boc.NullifiedMessage
use axelar_relayer_ton.Boc.RelayerExecuteWrapped
use axelar_relayer_ton.Boc.SignersRotated
use axelar_relayer_ton.Boc.ItsInterchainTransfer
use axelar_relayer_ton.Boc.ItsLinkTokenStarted
use axelar_relayer_ton.Boc.ItsInterchainTokenDeploymentStarted
use axelar_relayer_ton.Boc.ItsTokenMetadataRegistered

-- No panic.
abbrev pub Returns : {E A : Type 0} → Outcome E A → Type 0
Returns m = Ensures (λ _. Unit {0}) m

pub Returns-lift_err : {E A : Type 0} (f : String → E) (o : String ⊎ A) → Returns (lift_err f o)
Returns-lift_err f (inl s) = fails
Returns-lift_err f (inr a) = returns tt

pub data Total {P A : Type 0} (m : Reader P A) : Type 0 where
  total : ((p : P) → Returns (m p)) → Total m

pub Total-at : {P A : Type 0} {m : Reader P A} → Total m → (p : P) → Returns (m p)
Total-at (total h) = h

module _ {P A : Type 0} where
  pub Total->>= :
      {B : Type 0} (m : Reader P A) (f : A → Reader P B)
      → Total m
      → ((a : A) → Total (f a))
      → Total (m >>= f)
  Total->>= {B = B} m f h k = total (λ p. bind (m p) (Total-at h p))
    where
      bind :
          (o : Outcome BocError (A × P))
          → Returns o
          → Returns (elim o [ ok (a, p') ↦ f a p' | err e ↦ err e | panic ↦ panic ])
      bind (ok (a, p')) r = Total-at (k a) p'
      bind (err e) r = fails
      bind panic r = absurd (Ensures-panic r)

  pub Total-lift : (m : Outcome BocError A) → Returns m → Total {P = P} (lift m)
  Total-lift (ok a) h = total (λ p. returns tt)
  Total-lift (err e) h = total (λ p. fails)
  Total-lift panic h = absurd (Ensures-panic h)

  pub Total-load : (f : P → String ⊎ (A × P)) → Total (load f)
  Total-load f = total (λ p. Returns-lift_err _ (f p))

  pub Returns-run : (m : Reader P A) → Total m → (p : P) → Returns (run m p)
  Returns-run m h p = value (m p) (Total-at h p)
    where
      value :
          (o : Outcome BocError (A × P))
          → Returns o
          → Returns (elim o [ ok (a, _) ↦ ok a | err e ↦ err e | panic ↦ panic ])
      value (ok (a, p')) r = returns tt
      value (err e) r = fails
      value panic r = absurd (Ensures-panic r)

  pub Total-if : (b : Bool) (m n : Reader P A) → Total m → Total n → Total (if b then m else n)
  Total-if true m n h k = h
  Total-if false m n h k = k

  pub Total-pure : (a : A) → Total {P = P} (pure a)
  Total-pure a = total (λ p. returns tt)

pub Returns-if :
    {E A : Type 0} (b : Bool) (m n : Outcome E A)
    → Returns m
    → Returns n
    → Returns (if b then m else n)
Returns-if true m n h k = h
Returns-if false m n h k = k

pub Returns-bytes32 : (text : String) (bytes : List ℕ) → Returns (bytes32 text bytes)
Returns-bytes32 text bytes = Returns-if (eqb (length bytes) 32) _ _ (returns tt) fails

module _ (lib : Externals) where
  open lib use {next_reference, load_bits, parser, CellParser, Cell, load_address}

  pub Total-next_string : Total (next_string lib)
  unfolding cell_to_string
  Total-next_string = search (Total->>=, Total-load, Total-lift, Returns-lift_err)

  pub Total-next_buffer : Total (next_buffer lib)
  unfolding cell_to_buffer
  Total-next_buffer = search (Total->>=, Total-load, Total-lift, returns)

  pub Total-inside :
      {A : Type 0} (cell : Cell) (m : Reader CellParser A) → Total m → Total (inside lib cell m)
  Total-inside cell m h = Total-lift _ (Returns-run m h _)

  pub Total-load_bytes32 : (text : String) → Total (load_bytes32 lib text)
  Total-load_bytes32 text = search (Total->>=, Total-load, Total-lift, Returns-bytes32)

  pub Total-expect_op_code :
      (expected : ℕ) (shown : String) → Total (expect_op_code lib expected shown)
  Total-expect_op_code expected shown =
      search (Total->>=, Total-load, Total-if, Total-pure, Total-lift, fails)

  pub Returns-read_boc :
      {A : Type 0} (m : Reader CellParser A)
      → Total m
      → (boc : String) → Returns (read_boc lib m boc)
  Returns-read_boc m h boc = read (lib.cell_from_boc_b64 boc)
    where
      read :
          (o : String ⊎ Cell)
          → Returns
              (elim o [ inl text ↦ err (boc_parsing_error text) | inr cell ↦ run m (parser cell) ])
      read (inl text) = fails
      read (inr cell) = Returns-run m h (parser cell)

  pub ruleset reads = (
    Total-next_string, Total-next_buffer, Total-inside, Total-load_bytes32, Total-expect_op_code,
    Returns-read_boc, Total->>=, Total-lift, Total-load, Total-pure, Total-if, Returns-if,
    Returns-bytes32, Returns-lift_err, returns, fails,
  )

  -- Two readers that only these messages have.
  Total-rewrapped :
      {A : Type 0} (m : Reader CellParser A)
      → Total m
      → Total (RelayerExecuteWrapped.rewrapped lib m)
  Total-rewrapped m h = total (λ p. Ensures-map_err _ (m p) (Total-at h p))

  Total-next_string_rewrapped : Total (RelayerExecuteWrapped.next_string_rewrapped lib)
  unfolding cell_to_string
  Total-next_string_rewrapped =
      Total->>= (load next_reference) _ (Total-load next_reference) (λ cell.
        Total-rewrapped (lift (cell_to_string lib cell)) (search (Total-lift, Returns-lift_err)))

  Returns-token_manager : (n : ℕ) → Returns (ItsLinkTokenStarted.token_manager lib n)
  Returns-token_manager zero = returns tt
  Returns-token_manager (suc zero) = returns tt
  Returns-token_manager (suc (suc zero)) = returns tt
  Returns-token_manager (suc (suc (suc zero))) = returns tt
  Returns-token_manager (suc (suc (suc (suc zero)))) = returns tt
  Returns-token_manager (suc (suc (suc (suc (suc n))))) = fails

  ruleset reads_all = (reads, Total-next_string_rewrapped, Returns-token_manager)

  pub call_contract-Returns : (boc : String) → Returns (CallContract.from_boc_b64 lib boc)
  unfolding CallContract.from_boc_b64
  call_contract-Returns boc = search (reads_all) depth 24

  pub native_gas_paid-Returns : (boc : String) → Returns (NativeGasPaid.from_boc_b64 lib boc)
  unfolding NativeGasPaid.from_boc_b64
  native_gas_paid-Returns boc = search (reads_all) depth 24

  pub native_gas_added-Returns : (boc : String) → Returns (NativeGasAdded.from_boc_b64 lib boc)
  unfolding NativeGasAdded.from_boc_b64
  native_gas_added-Returns boc = search (reads_all) depth 24

  pub native_gas_refunded-Returns :
      (boc : String) → Returns (NativeGasRefunded.from_boc_b64 lib boc)
  unfolding NativeGasRefunded.from_boc_b64
  native_gas_refunded-Returns boc = search (reads_all) depth 24

  pub jetton_gas_paid-Returns : (boc : String) → Returns (JettonGasPaid.from_boc_b64 lib boc)
  unfolding JettonGasPaid.from_boc_b64
  jetton_gas_paid-Returns boc = search (reads_all) depth 24

  pub jetton_gas_added-Returns : (boc : String) → Returns (JettonGasAdded.from_boc_b64 lib boc)
  unfolding JettonGasAdded.from_boc_b64
  jetton_gas_added-Returns boc = search (reads_all) depth 24

  pub cc_message-Returns : (boc : String) → Returns (CcMessage.from_boc_b64 lib boc)
  unfolding CcMessage.from_boc_b64
  cc_message-Returns boc = search (reads_all) depth 24

  pub nullified_message-Returns : (boc : String) → Returns (NullifiedMessage.from_boc_b64 lib boc)
  unfolding NullifiedMessage.from_boc_b64
  nullified_message-Returns boc = search (reads_all) depth 24

  pub relayer_execute_wrapped-Returns :
      (boc : String) → Returns (RelayerExecuteWrapped.from_boc_b64 lib boc)
  unfolding RelayerExecuteWrapped.from_boc_b64
  relayer_execute_wrapped-Returns boc = search (reads_all) depth 24

  pub signers_rotated-Returns : (boc : String) → Returns (SignersRotated.from_boc_b64 lib boc)
  unfolding SignersRotated.from_boc_b64
  signers_rotated-Returns boc = search (reads_all) depth 24

  pub its_interchain_transfer-Returns :
      (boc : String) → Returns (ItsInterchainTransfer.from_boc_b64 lib boc)
  unfolding ItsInterchainTransfer.from_boc_b64
  its_interchain_transfer-Returns boc = search (reads_all) depth 24

  pub its_link_token_started-Returns :
      (boc : String) → Returns (ItsLinkTokenStarted.from_boc_b64 lib boc)
  unfolding ItsLinkTokenStarted.from_boc_b64
  its_link_token_started-Returns boc = search (reads_all) depth 24

  pub its_interchain_token_deployment_started-Returns :
      (boc : String) → Returns (ItsInterchainTokenDeploymentStarted.from_boc_b64 lib boc)
  unfolding ItsInterchainTokenDeploymentStarted.from_boc_b64
  its_interchain_token_deployment_started-Returns boc = search (reads_all) depth 24

  pub its_token_metadata_registered-Returns :
      (boc : String) → Returns (ItsTokenMetadataRegistered.from_boc_b64 lib boc)
  unfolding ItsTokenMetadataRegistered.from_boc_b64
  its_token_metadata_registered-Returns boc = search (reads_all) depth 24
