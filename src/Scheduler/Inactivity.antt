-- ===== src/Scheduler/Inactivity.antt =====
-- src/plugins/scheduler/tasks/disable-inactive-accounts.js, and the conditions of its queries in
-- src/plugins/accounts/services/account-service.js. The cut-off dates are arguments; whether an
-- e-mail is sent is a parameter, and the rows that a query finds are an argument.
pub mod Warnings
mod Tests
use pafs_backend_api.Prelude.{
  ℕ, ◌+◌, String, Bool, true, false, not, ◌&&◌, List, [], ◌∷◌, Option, none, some, ltb, leb,
  is_some, if◌then◌else◌, map, take,
}
use pafs_backend_api.Auth.User.{AccountStatus, pending, approved, active, other_status}

-- The columns that the queries read, and the address of the e-mail.
pub record Account : Type 0 where
  pub id : ℕ
  pub email : String
  pub status : AccountStatus
  pub disabled : Bool
  pub inactivity_warning_sent_at : Option ℕ
  pub last_sign_in_at : Option ℕ
  pub created_at : ℕ

-- status in (active, approved)
abbrev pub is_open : AccountStatus → Bool
is_open pending = false
is_open approved = true
is_open active = true
is_open (other_status s) = false

unfoldable pub inactive_before : ℕ → Option ℕ → ℕ → Bool
inactive_before cutoff none created_at = ltb created_at cutoff
inactive_before cutoff (some last_sign_in_at) created_at = ltb last_sign_in_at cutoff

unfoldable pub inactive_between : ℕ → ℕ → Option ℕ → ℕ → Bool
inactive_between warning disable none created_at = ltb created_at warning && leb disable created_at
inactive_between warning disable (some last_sign_in_at) created_at =
    ltb last_sign_in_at warning && leb disable last_sign_in_at

-- findInactiveAccounts
unfoldable pub is_inactive : ℕ → Account → Bool
unfolding inactive_before
is_inactive cutoff a =
    is_open a.status && not a.disabled && inactive_before cutoff a.last_sign_in_at a.created_at

-- findAccountsNeedingWarning
unfoldable pub needs_warning : ℕ → ℕ → Account → Bool
unfolding inactive_between
needs_warning warning disable a =
    is_open a.status
    && not a.disabled
    && not (is_some a.inactivity_warning_sent_at)
    && inactive_between warning disable a.last_sign_in_at a.created_at

pub record EmailStats : Type 0 where
  pub sent : ℕ
  pub failed : ℕ

-- The loop over the accounts.
abbrev pub send_all : (Account → Bool) → List Account → EmailStats → EmailStats
send_all send [] stats = stats
send_all send (a ∷ accounts) stats = send_all send accounts (
    if send a
    then record stats { sent = stats.sent + 1 }
    else record stats { failed = stats.failed + 1 })

unfoldable pub send_warning_emails : (Account → Bool) → Bool → List Account → EmailStats
send_warning_emails send has_service accounts =
    if has_service
    then send_all send accounts (record { sent = 0; failed = 0 })
    else record { sent = 0; failed = 0 }

-- with the ids that markWarningEmailsSent is called on; with none it is not called
unfoldable pub process_warning_emails : (Account → Bool) → Bool → List Account → EmailStats × List ℕ
unfolding send_warning_emails
process_warning_emails send has_service accounts =
    let stats = send_warning_emails send has_service accounts in
    (stats, if ltb 0 stats.sent then map (λ a. a.id) (take stats.sent accounts) else [])
