-- ===== src/Jobs/Tests.antt =====
-- Runs of the jobs, and the theorems about them there.
use coupi.Prelude.{
  ◌+◌, ◌<◌, ◌≡◌, refl, ◌⊎◌, none, some, List, [], ◌∷◌, map, length, Text, units, text_eq,
  if◌then◌else◌,
}
use coupi.Domain.{MailIngestMessage}
use coupi.Instants.{epoch}
use coupi.Effects.{Exec, ok, thrown, other_error}
use coupi.Accounts.{MailAccount, object, text_field, other_field, save_cursor, accounts}
use coupi.Accounts.Updates.{updated}
use coupi.Accounts.Tests.{row, Rows, world, renewing, rows, one, world-IsAccountTable}
use coupi.Jobs.Renewal.{
  RenewalCalls, RenewalRow, Renewal, WatchRenewalResult, renewed, failed, reauth_required,
  renew_failed, renewal,
}
use coupi.Jobs.Renewal
use coupi.Jobs.Renewal.Counts.{due, number, Renews, run-Renews}
use coupi.Jobs.Renewal.Failures.{IsReplaced, renew_failed-forgets}
use coupi.Jobs.Poll
use coupi.Jobs.Poll.{poll_error, polls}
use coupi.Jobs.Poll.Sends.{failures, after_all, run_lem}

-- The watch of the first account expires at an unknown time, that of the second exactly three days
-- after the run, and that of the third a millisecond later.
abbrev renewal_rows : List RenewalRow
renewal_rows =
    (record {
      id = units "a";
      cursor = object (text_field (units "7")) other_field;
      consecutive_failures = some 2;
    })
    ∷ (record {
      id = units "b";
      cursor = object (text_field (units "7")) (text_field (units "three days"));
      consecutive_failures = none;
    })
    ∷ (record {
      id = units "c";
      cursor = object (text_field (units "7")) (text_field (units "later"));
      consecutive_failures = none;
    })
    ∷ []

-- A Gmail that refuses every watch.
abbrev calls : RenewalCalls Rows
calls = record {
  find_active = λ w. (ok renewal_rows, w);
  register_watch = λ token w. (thrown (other_error (some 503) []), w);
  iso_string = λ at. [];
  time_of = λ s. some (if text_eq s (units "later") then epoch + 259200001 else epoch + 259200000);
}

abbrev two_reauth : WatchRenewalResult
two_reauth = record { checked = 2; renewed = 0; failed = 0; reauth_required = 2 }

-- The third account waits.
due_test :
    map (λ (row : RenewalRow). row.id) (due renewing calls epoch renewal_rows)
    ≡ units "a" ∷ units "b" ∷ []
unfolding text_eq
due_test = refl

abbrev after_renewal : Rows
after_renewal = (Renewal.run renewing calls epoch one).1

run-Renews_example :
    (found : List RenewalRow) × (w1 : Rows) × (calls.find_active one ≡ (ok found, w1))
    × (os : List Renewal) × Renews renewing calls
        (due renewing calls epoch found)
        os
        w1
        after_renewal
    × (two_reauth.checked ≡ length (due renewing calls epoch found))
    × (two_reauth.renewed ≡ number renewed os)
    × (two_reauth.failed ≡ number failed os)
    × (two_reauth.reauth_required ≡ number reauth_required os)
unfolding renewal text_eq
run-Renews_example = run-Renews renewing calls epoch two_reauth one after_renewal refl

abbrev after_ingest : Rows
after_ingest = (save_cursor world (units "a") (units "9") one).1

abbrev forgiven : MailAccount
forgiven = record row {
  cursor = object (text_field (units "9")) other_field;
  consecutive_failures = some 0;
}

renew_failed-forgets_example :
    (failed ≡ failed)
    × IsReplaced world calls rows world-IsAccountTable
        (units "a")
        (record forgiven { consecutive_failures = some 1 })
        after_ingest
        (renew_failed world calls (units "a") 0 (other_error none []) after_ingest).1
unfolding renewal text_eq accounts updated
renew_failed-forgets_example =
    renew_failed-forgets world calls rows world-IsAccountTable (units "a") (units "9") [] none
      failed row forgiven one after_ingest _ refl refl refl refl

-- A publisher that refuses the second account, and notes the others.
abbrev publish : MailIngestMessage → Text → Exec (List Text) (Unit {0})
publish payload id q =
    if text_eq id (units "b") then (thrown (other_error none []), q) else (ok tt, id ∷ q)

abbrev find_three : Exec (List Text) (List Text)
find_three q = (ok (units "a" ∷ units "b" ∷ units "c" ∷ []), q)

run_lem_example :
    ((failures find_three publish (units "a" ∷ units "b" ∷ units "c" ∷ []) [] ≡ 0)
      × (Poll.run find_three publish [] ≡ (
        ok (record { accounts = 3; enqueued = 3 }),
        after_all find_three publish (units "a" ∷ units "b" ∷ units "c" ∷ []) [],
      )))
    ⊎ ((0 < failures find_three publish (units "a" ∷ units "b" ∷ units "c" ∷ []) [])
        × (Poll.run find_three publish [] ≡ (
          thrown (
              poll_error
                (failures find_three publish (units "a" ∷ units "b" ∷ units "c" ∷ []) [])
                3),
          after_all find_three publish (units "a" ∷ units "b" ∷ units "c" ∷ []) [],
        )))
run_lem_example = run_lem find_three publish (units "a" ∷ units "b" ∷ units "c" ∷ []) [] [] refl

poll_test : Poll.run find_three publish [] ≡ (thrown (poll_error 1 3), units "c" ∷ units "a" ∷ [])
unfolding polls text_eq
poll_test = refl
