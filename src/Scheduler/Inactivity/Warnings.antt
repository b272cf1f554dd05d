-- ===== src/Scheduler/Inactivity/Warnings.antt =====
-- Which accounts the inactivity task warns, marks as warned, and disables.
use pafs_backend_api.Prelude.{
  ℕ, ◌+◌, ◌≤◌, ◌≡◌, refl, Bool, true, false, ◌&&◌, ◌||◌, List, [], ◌∷◌, none, ltb, map, take,
  length, filter, All, ap, ◌∙◌, Bool-cases, inl, inr, arith,
}
use pafs_backend_api.Scheduler.Inactivity.{
  Account, EmailStats, inactive_before, inactive_between, is_inactive, needs_warning, send_all,
  send_warning_emails, process_warning_emails,
}

-- An account that has not been warned and that was last active before the warning date is either
-- warned or disabled, never both; the warning date is not before the disabling date.
pub warned_or_disabled :
    (warning disable : ℕ) (a : Account)
    → disable ≤ warning
    → a.inactivity_warning_sent_at ≡ none
    → (is_inactive warning a ≡ (needs_warning warning disable a || is_inactive disable a))
      × ((needs_warning warning disable a && is_inactive disable a) ≡ false)
unfolding is_inactive needs_warning inactive_before inactive_between
warned_or_disabled warning disable a h fresh = (ground (arith, fresh), ground (arith, fresh))

send_all-sent :
    (send : Account → Bool) (accounts : List Account) (stats : EmailStats)
    → (send_all send accounts stats).sent ≡ stats.sent + length (filter send accounts)
send_all-sent send [] stats = omega arith
send_all-sent send (a ∷ accounts) stats = elim (Bool-cases (send a)) [
  | inl e ↦
      let next : EmailStats = record stats { sent = stats.sent + 1 } in
      ground (arith, e, send_all-sent send accounts next)
  | inr e ↦
      let next : EmailStats = record stats { failed = stats.failed + 1 } in
      ground (arith, e, send_all-sent send accounts next)
]

-- The accounts that are marked as warned are the first ones of the list, as many as e-mails were
-- sent, whichever they were sent to.
pub first_accounts_marked :
    (send : Account → Bool) (accounts : List Account)
    → (process_warning_emails send true accounts).1
      ≡ map (λ a. a.id) (take (length (filter send accounts)) accounts)
unfolding process_warning_emails send_warning_emails
first_accounts_marked send accounts =
    let none_yet : EmailStats = record { sent = 0; failed = 0 } in
    let n : (send_all send accounts none_yet).sent ≡ length (filter send accounts) =
      omega (arith, send_all-sent send accounts none_yet) in
    elim (Bool-cases (ltb 0 (length (filter send accounts)))) [
      | inl e ↦ rw (n, e) refl
      | inr e ↦
          let zero : length (filter send accounts) ≡ 0 = ground (arith, e) in rw (n, zero) refl
    ]

filter-All :
    (send : Account → Bool) (accounts : List Account)
    → All (λ b. send b ≡ true) accounts
    → filter send accounts ≡ accounts
filter-All send [] h = refl
filter-All send (a ∷ accounts) h = ground (arith, h.0, filter-All send accounts h.1)

-- Where the e-mail to the first account fails and the others are sent, the first account is marked
-- as warned all the same, and of the others, which were warned, the last is not.
pub failed_warning_marked :
    (send : Account → Bool) (a b : Account) (accounts : List Account)
    → send a ≡ false
    → All (λ c. send c ≡ true) (b ∷ accounts)
    → (process_warning_emails send true (a ∷ b ∷ accounts)).1
      ≡ a.id ∷ map (λ c. c.id) (take (length accounts) (b ∷ accounts))
failed_warning_marked send a b accounts failed sent =
    let some_sent = filter-All send (b ∷ accounts) sent in
    let sent_to : filter send (a ∷ b ∷ accounts) ≡ b ∷ accounts =
      ground (arith, failed, some_sent) in
    first_accounts_marked send (a ∷ b ∷ accounts)
    ∙ ap (λ xs. map (λ c. c.id) (take (length xs) (a ∷ b ∷ accounts))) sent_to
