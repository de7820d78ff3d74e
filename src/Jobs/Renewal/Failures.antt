-- ===== src/Jobs/Renewal/Failures.antt =====
-- Failures to renew a watch, in the table of the accounts.
use coupi.Prelude.{
  ℕ, ◌+◌, ◌≡◌, sym, ap, ◌∙◌, false, Option, some, leb, if◌then◌else◌, Text, text_eq, Bool-cases,
  inl, inr,
}
use coupi.Domain.{reauth_required}
use coupi.Effects.{ok, pure, other_error, ◌>>=◌}
use coupi.Effects.Calls.{bind-ok, pure-ok}
use coupi.Accounts.{AccountWorld, MailAccount, MailAccountUpdate, mark_reauth_required, save_cursor}
use coupi.Accounts.Updates.{updated, IsAccountTable, update_self, update_other, save_cursor_sound}
use coupi.Jobs.Renewal.{
  RenewalCalls, Renewal, failed, max_consecutive_failures, or_zero, count_failure, renew_failed,
}

-- The row of an account after so many failures to renew its watch, and what the job answers.
unfoldable pub after_failure : ℕ → MailAccount → MailAccount
after_failure failures row =
    if leb max_consecutive_failures failures
    then record row { status = some reauth_required }
    else record row { consecutive_failures = some failures }

unfoldable pub answer_to_failure : ℕ → Renewal
answer_to_failure failures =
    if leb max_consecutive_failures failures then Renewal.reauth_required else failed

module _ {W : Type 0} (world : AccountWorld W) (calls : RenewalCalls W)
    (rows : W → Text → Option MailAccount) (table : IsAccountTable world rows) where
  -- A table in which an account's row is replaced.
  abbrev pub IsReplaced : Text → MailAccount → W → W → Type 0
  IsReplaced id new w w' =
      (rows w' id ≡ some new) × ((j : Text) → text_eq j id ≡ false → rows w' j ≡ rows w j)

  update-IsReplaced :
      (id : Text) (u : MailAccountUpdate) (o : Renewal) (r : Renewal) (row : MailAccount) (w w' : W)
      → rows w id ≡ some row
      → (world.update_account id u >>= λ _. pure o) w ≡ (ok r, w')
      → (r ≡ o) × IsReplaced id (updated u row) w w'
  update-IsReplaced id u o r row w w' at e =
      let (x, w1, done, e1) = bind-ok _ _ _ _ _ e in
      let (same, end) = pure-ok _ _ _ _ e1 in
      (
        sym same,
        (
          ap (λ v. rows v id) (sym end) ∙ update_self world rows table id u w w1 row at done,
          λ j other.
              ap (λ v. rows v j) (sym end) ∙ update_other world rows table id u w w1 done j other,
        ),
      )

  count_failure_lem :
      (id : Text) (failures : ℕ) (r : Renewal) (row : MailAccount) (w w' : W)
      → rows w id ≡ some row
      → count_failure world calls id failures w ≡ (ok r, w')
      → (r ≡ answer_to_failure failures) × IsReplaced id (after_failure failures row) w w'
  unfolding count_failure answer_to_failure after_failure mark_reauth_required updated
  count_failure_lem id failures r row w w' at e =
      elim (Bool-cases (leb max_consecutive_failures failures)) [
        | inl over ↦ rw over (update-IsReplaced id _ _ r row w w' at (rw over at e))
        | inr under ↦ rw under (update-IsReplaced id _ _ r row w w' at (rw under at e))
      ]

  -- A failure to renew a watch, other than a refused authorization, raises the account's failures by
  -- one, or at the third marks it for a new authorization; nothing else of the account and no other
  -- account changes.
  pub renew_failed-IsReplaced :
      (id : Text) (status : Option ℕ) (m : Text) (r : Renewal) (row : MailAccount) (w w' : W)
      → rows w id ≡ some row
      → renew_failed world calls id (or_zero row.consecutive_failures) (other_error status m) w
        ≡ (ok r, w')
      → let failures = or_zero row.consecutive_failures + 1 in
        (r ≡ answer_to_failure failures) × IsReplaced id (after_failure failures row) w w'
  unfolding renew_failed
  renew_failed-IsReplaced id status m r row w w' at e =
      count_failure_lem id (or_zero row.consecutive_failures + 1) r row w w' at e

  -- An ingest that saves its cursor clears the failures of the watch renewals too, so that the next
  -- failure to renew the watch counts as the first, however many there were before.
  pub renew_failed-forgets :
      (id history_id m : Text) (status : Option ℕ) (r : Renewal) (row new : MailAccount)
      (w w1 w' : W)
      → rows w id ≡ some row
      → save_cursor world id history_id w ≡ (ok tt, w1)
      → rows w1 id ≡ some new
      → renew_failed world calls id (or_zero new.consecutive_failures) (other_error status m) w1
        ≡ (ok r, w')
      → (r ≡ failed) × IsReplaced id (record new { consecutive_failures = some 1 }) w1 w'
  unfolding answer_to_failure after_failure
  renew_failed-forgets id history_id m status r row new w w1 w' at saved now e =
      let (found, is, _, zero_failures, _, _, _) =
        save_cursor_sound world rows table id history_id w w1 row at saved in
      let same : found ≡ new = cc in
      let cleared : new.consecutive_failures ≡ some 0 =
        ap (λ (a : MailAccount). a.consecutive_failures) (sym same) ∙ zero_failures in
      rw cleared at (renew_failed-IsReplaced id status m r new w1 w' now e)
