-- ===== src/Projects/Submission/Tests.antt =====
-- The theorems of the validation at concrete proposals.
use pafs_backend_api.Prelude.{none, ◌≡◌, ◌↔◌, All, pos, true, false}
use pafs_backend_api.Projects.Submission.ImportantDates.{date_sequence, are_dates_chronological}
use pafs_backend_api.Projects.Submission.Funding.{
  is_not_positive, contributor_key, validate_funding_contributors,
}
use pafs_backend_api.Projects.Submission.Chronology.{
  dates_of, IsAscending, are_dates_chronological_iff,
}
use pafs_backend_api.Projects.Submission.Contributors.{
  total_for, counted, validate_funding_contributors_iff,
}
use pafs_backend_api.Projects.Submission.Complete.{validate_submission-IsReady}
use pafs_backend_api.Projects.Submission.Ready.{IsReady}
use pafs_backend_api.Projects.Submission.Fixtures.{defence}
use pafs_backend_api.Projects.Submission.Fixtures.Passes.{digest, no_errors}

are_dates_chronological_iff_example :
    (are_dates_chronological defence.field date_sequence ≡ true)
    ↔ IsAscending (dates_of defence.field date_sequence)
are_dates_chronological_iff_example = are_dates_chronological_iff defence.field date_sequence

validate_funding_contributors_iff_example :
    (validate_funding_contributors defence ≡ none)
    ↔ All
        (λ c. is_not_positive (total_for (contributor_key c) (counted defence)) ≡ false)
        (counted defence)
validate_funding_contributors_iff_example = validate_funding_contributors_iff defence

validate_submission-IsReady_example : IsReady defence
validate_submission-IsReady_example =
    validate_submission-IsReady digest digest 5 (pos 2025) defence no_errors
