-- ===== src/CheckAccounts/Statuses.antt =====
-- src/check_accounts.rs: what the status of an account says of it.
use axelar_relayer_ton.Prelude.{
  ℕ, subst, ◌≤◌, ◌<◌, String, true, false, Option, none, some, inl, inr, ◌≡◌, ◌≢◌, refl, ◌↔◌,
  Bool-cases, ==_iff, ◌==◌, string_eq, ltb, arith,
}
use axelar_relayer_ton.Client.{AccountState}
use axelar_relayer_ton.CheckAccounts.{
  AccountCheckStatus, valid, inactive, insufficient_balance, invalid_balance_format, status_with,
  check_account_status,
}

-- What each status says of the balance, if it is a number, of the account's state and of what is
-- required.
abbrev pub Says : Option ℕ → (status : String) → (min_balance : ℕ) → AccountCheckStatus → Type 0
Says parsed status min_balance valid =
    (balance : ℕ) × ((parsed ≡ some balance) × ((status ≡ "active") × min_balance ≤ balance))
Says parsed status min_balance inactive =
    (balance : ℕ) × ((parsed ≡ some balance) × (status ≢ "active"))
Says parsed status min_balance (insufficient_balance balance required) =
    (parsed ≡ some balance)
    × ((status ≡ "active") × ((balance < min_balance) × (required ≡ min_balance)))
Says parsed status min_balance invalid_balance_format = parsed ≡ none

status_with-Says :
    (parsed : Option ℕ) (status : String) (min_balance : ℕ)
    → Says parsed status min_balance (status_with parsed status min_balance)
status_with-Says none status min_balance = refl
status_with-Says (some balance) status min_balance = elim (Bool-cases (status == "active")) [
  | inr other ↦
      rw other
        (balance, (refl, λ is_active. let fails = (==_iff status "active").1 is_active in cc))
  | inl active ↦ elim (Bool-cases (ltb balance min_balance)) [
    | inl lacks ↦
        rw (active, lacks) (refl, ((==_iff status "active").0 active, (ground arith, refl)))
    | inr has ↦
        rw (active, has) (balance, (refl, ((==_iff status "active").0 active, ground arith)))
  ]
]

Says-status_with :
    (parsed : Option ℕ) (status : String) (min_balance : ℕ) (s : AccountCheckStatus)
    → Says parsed status min_balance s
    → status_with parsed status min_balance ≡ s
Says-status_with parsed status min_balance valid (balance, (is, (active, has))) =
    let enough : ltb balance min_balance ≡ false = ground arith in
    rw (is, (==_iff status "active").1 active, enough)
Says-status_with parsed status min_balance inactive (balance, (is, other)) =
    elim (Bool-cases (status == "active")) [
      | inl active ↦ absurd (other ((==_iff status "active").0 active))
      | inr differs ↦ rw (is, differs)
    ]
Says-status_with parsed status min_balance (insufficient_balance balance required)
      (is, (active, (lacks, same))) =
    let less : ltb balance min_balance ≡ true = ground arith in
    rw (is, (==_iff status "active").1 active, less, same)
Says-status_with parsed status min_balance invalid_balance_format is = rw is

-- Each of the four statuses is the result of `check_account_status` if and only if it is true of the
-- account: the balance is no number; it is one, and the account is not active; the account is active,
-- and the balance is below what is required, both of which the status names; or it is active and the
-- balance suffices.
pub check_account_status-Says :
    (parse_u64 : String → Option ℕ) {A : Type 0} (a : AccountState A) (min_balance : ℕ)
    (s : AccountCheckStatus)
    → (check_account_status parse_u64 a min_balance ≡ s)
      ↔ Says (parse_u64 a.balance) a.status min_balance s
unfolding check_account_status
check_account_status-Says parse_u64 a min_balance s = (
  λ is.
      subst (Says (parse_u64 a.balance) a.status min_balance) is
        (status_with-Says (parse_u64 a.balance) a.status min_balance),
  Says-status_with (parse_u64 a.balance) a.status min_balance s,
)
