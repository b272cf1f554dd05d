-- ===== src/Scheduler/Inactivity/Tests.antt =====
-- The warnings of the inactivity task at concrete accounts.
use pafs_backend_api.Prelude.{
  ℕ, ◌≡◌, refl, Bool, true, false, ◌&&◌, ◌||◌, [], ◌∷◌, none, some, ◌==◌, not, arith,
}
use pafs_backend_api.Auth.User.{active}
use pafs_backend_api.Scheduler.Inactivity.{
  Account, is_inactive, needs_warning, send_warning_emails, process_warning_emails,
}
use pafs_backend_api.Scheduler.Inactivity.Warnings.{
  warned_or_disabled, first_accounts_marked, failed_warning_marked,
}

abbrev account : ℕ → ℕ → Account
account id last = record {
  id = id;
  email = "user@example.org";
  status = active;
  disabled = false;
  inactivity_warning_sent_at = none;
  last_sign_in_at = some last;
  created_at = 0;
}

-- The e-mail to account 1 fails.
abbrev reaches : Account → Bool
reaches a = not (a.id == 1)

marked_after_failure :
    (process_warning_emails reaches true (account 1 50 ∷ account 2 50 ∷ account 3 50 ∷ [])).1
    ≡ 1 ∷ 2 ∷ []
unfolding process_warning_emails send_warning_emails
marked_after_failure = refl

no_service : (process_warning_emails reaches false (account 2 50 ∷ [])).1 ≡ []
unfolding process_warning_emails send_warning_emails
no_service = refl

account_one_overdue :
    (is_inactive 100 (account 1 50)
      ≡ (needs_warning 100 40 (account 1 50) || is_inactive 40 (account 1 50)))
    × ((needs_warning 100 40 (account 1 50) && is_inactive 40 (account 1 50)) ≡ false)
account_one_overdue = warned_or_disabled 100 40 (account 1 50) (omega arith) refl

first_account_marked :
    (process_warning_emails reaches true (account 2 50 ∷ account 1 50 ∷ [])).1 ≡ 2 ∷ []
first_account_marked = first_accounts_marked reaches (account 2 50 ∷ account 1 50 ∷ [])

second_account_marked :
    (process_warning_emails reaches true (account 1 50 ∷ account 2 50 ∷ account 3 50 ∷ [])).1
    ≡ 1 ∷ 2 ∷ []
second_account_marked =
    failed_warning_marked reaches (account 1 50) (account 2 50) (account 3 50 ∷ []) refl
      (refl, (refl, tt))
