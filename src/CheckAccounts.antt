-- ===== src/CheckAccounts.antt =====
-- src/check_accounts.rs: whether the accounts are active and have the balance that is wanted.
use axelar_relayer_ton.Prelude.{
  ℕ, ◌≤◌, ◌<◌, String, Bool, true, false, not, Option, none, some, List, [], ◌∷◌, ◌++◌, map, ◌≡◌,
  ◌≢◌, refl, ap, ◌∙◌, ◌↔◌, Outcome, ok, err, panic, Bool-cases, ==_iff, ◌==◌, string_eq, ltb,
  if◌then◌else◌, arith,
}
use axelar_relayer_ton.Client.{AccountState, ClientError, TonRpcClient, get_account_states}
pub mod Statuses

pub data AccountCheckStatus : Type 0 where
  valid : AccountCheckStatus
  inactive : AccountCheckStatus
  insufficient_balance : (balance required : ℕ) → AccountCheckStatus
  invalid_balance_format : AccountCheckStatus

-- What is logged: the outcome for an account, or the error of the request.
pub data Line (A : Type 0) : Type 0 where
  account : AccountState A → AccountCheckStatus → Line A
  failed : Line A

abbrev pub status_with : Option ℕ → (status : String) → (min_balance : ℕ) → AccountCheckStatus
status_with none status min_balance = invalid_balance_format
status_with (some balance) status min_balance =
    if not (status == "active")
    then inactive
    else if ltb balance min_balance
    then insufficient_balance balance min_balance
    else valid

-- `parse_u64` is `str::parse::<u64>`.
module _ (parse_u64 : String → Option ℕ) {A : Type 0} where
  unfoldable pub check_account_status : AccountState A → (min_balance : ℕ) → AccountCheckStatus
  check_account_status a min_balance = status_with (parse_u64 a.balance) a.status min_balance

  abbrev pub lines_of :
      (min_balance : ℕ) → Outcome ClientError (List (AccountState A)) → List (Line A)
  unfolding check_account_status
  lines_of min_balance (ok accounts) =
      map (λ a. account a (check_account_status a min_balance)) accounts
  lines_of min_balance (err e) = failed ∷ []
  lines_of min_balance panic = []

  -- The rounds of the loop, each with the client as the network is then; the last of them is not over.
  unfoldable pub check_accounts :
      (rounds : List (TonRpcClient A))
      → (addresses : List A) → (min_balance : ℕ) → (forever : Bool) → List (Line A)
  unfolding get_account_states check_account_status
  check_accounts [] addresses min_balance forever = []
  check_accounts (client ∷ rounds) addresses min_balance forever =
      let again = check_accounts rounds addresses min_balance forever in
      lines_of min_balance (get_account_states client addresses)
      ++ (if not forever then [] else again)
