-- ===== src/MailIngest/Counts.antt =====
-- The counts of an ingest.
use coupi.Prelude.{
  ℕ, ◌+◌, ◌≤◌, ◌≡◌, refl, sym, Bool, true, false, Option, none, some, List, [], ◌∷◌, length, arith,
  Text, inl, inr,
}
use coupi.Domain.{MailIngestMessage}
use coupi.Effects.{
  Exec, Thrown, ok, reauth_required_error, history_expired_error, unique_violation, out_of_fuel,
  other_error, throw,
}
use coupi.Effects.Calls.{bind-ok, pure-ok, bind-on_left, bind-on_right, catch-ok}
use coupi.Gmail.{RawMailMessage}
use coupi.Accounts.{MailAccountWithToken}
use coupi.MailIngest.{
  IngestWorld, IngestOutcome, inactive_outcome, Tally, publish_new, record_passed, record_messages,
  ingest, ingest_failed, handle_account, handle,
}

-- The counts of a tally, and of an outcome, are in order.
abbrev IsWithin : ℕ → Tally → Tally → Type 0
IsWithin n t u =
    (u.recorded + t.passed_filter ≤ u.passed_filter + t.recorded)
    × (u.passed_filter ≤ t.passed_filter + n)

abbrev pub IsOrdered : IngestOutcome → Type 0
IsOrdered o = (o.recorded ≤ o.passed_filter) × (o.passed_filter ≤ o.fetched)

IsOrdered-inactive : IsOrdered inactive_outcome
IsOrdered-inactive = omega arith

module _ {W Q : Type 0} (world : IngestWorld W) (publish : Text → Exec Q (Unit {0})) where
  publish_new-ok :
      (id : Option Text) (t u : Tally) (w w' : W) (q q' : Q)
      → publish_new world publish id t (w, q) ≡ (ok u, (w', q'))
      → (u.passed_filter ≡ t.passed_filter) × (u.recorded ≤ t.recorded + 1)
  unfolding publish_new
  publish_new-ok none t u w w' q q' e =
      let (same, _) = pure-ok _ _ _ _ e in rw (sym same) (refl, omega arith)
  publish_new-ok (some id) t u w w' q q' e =
      let (x, q1, sent, e1) = bind-on_right _ _ _ _ _ _ e in
      let (same, _) = pure-ok _ _ _ _ e1 in rw (sym same) (refl, omega arith)

  record_passed-IsWithin :
      (passed : Bool) (id : Text) (m : RawMailMessage) (t u : Tally) (w w' : W) (q q' : Q)
      → record_passed world publish passed id m t (w, q) ≡ (ok u, (w', q'))
      → IsWithin 1 t u
  unfolding record_passed
  record_passed-IsWithin false id m t u w w' q q' e =
      let (same, _) = pure-ok _ _ _ _ e in rw (sym same) (omega arith, omega arith)
  record_passed-IsWithin true id m t u w w' q q' e =
      let (row, w1, inserted, e1) = bind-on_left _ _ _ _ _ _ e in
      let (a, b) = publish_new-ok row _ u w1 w' q q' e1 in (omega arith, omega arith)

  record_messages-IsWithin :
      (account : MailAccountWithToken) (messages : List RawMailMessage) (t u : Tally) (w w' : W)
      (q q' : Q)
      → record_messages world publish account messages t (w, q) ≡ (ok u, (w', q'))
      → IsWithin (length messages) t u
  unfolding record_messages
  record_messages-IsWithin account [] t u w w' q q' e =
      let (same, _) = pure-ok _ _ _ _ e in rw (sym same) (omega arith, omega arith)
  record_messages-IsWithin account (m ∷ messages) t u w w' q q' e =
      let (passed, w1, filtered, e1) = bind-on_left _ _ _ _ _ _ e in
      let (next, (w2, q2), one, e2) = bind-ok _ _ _ _ _ e1 in
      let (a, b) = record_passed-IsWithin passed account.id m t next w1 w2 q q2 one in
      let (c, d) = record_messages-IsWithin account messages next u w2 w' q2 q' e2 in
      (omega arith, omega arith)

  ingest-IsOrdered :
      (account : MailAccountWithToken) (o : IngestOutcome) (w w' : W) (q q' : Q)
      → ingest world publish account (w, q) ≡ (ok o, (w', q'))
      → IsOrdered o
  unfolding ingest
  ingest-IsOrdered account o w w' q q' e =
      let (result, w1, fetched, e1) = bind-on_left _ _ _ _ _ _ e in
      let (t, (w2, q2), counted, e2) = bind-ok _ _ _ _ _ e1 in
      let (a, b) =
        record_messages-IsWithin account result.0.messages
          (record { passed_filter = 0; recorded = 0 }) t w1 w2 q q2 counted in
      let (x, (w3, q3), saved, e3) = bind-ok _ _ _ _ _ e2 in
      let (same, _) = pure-ok _ _ _ _ e3 in rw (sym same) (omega arith, omega arith)

  failed-IsOrdered :
      (id : Text) (x : Thrown) (o : IngestOutcome) (w w' : W) (q q' : Q)
      → ingest_failed world publish id x (w, q) ≡ (ok o, (w', q'))
      → IsOrdered o
  unfolding ingest_failed throw
  failed-IsOrdered id (reauth_required_error reason) o w w' q q' e =
      let (y, w1, marked, e1) = bind-on_left _ _ _ _ _ _ e in
      let (same, _) = pure-ok _ _ _ _ e1 in rw (sym same) IsOrdered-inactive
  failed-IsOrdered id (history_expired_error cursor) o w w' q q' e = cc
  failed-IsOrdered id unique_violation o w w' q q' e = cc
  failed-IsOrdered id out_of_fuel o w w' q q' e = cc
  failed-IsOrdered id (other_error status m) o w w' q q' e = cc

  account-IsOrdered :
      (account : Option MailAccountWithToken) (o : IngestOutcome) (w w' : W) (q q' : Q)
      → handle_account world publish account (w, q) ≡ (ok o, (w', q'))
      → IsOrdered o
  unfolding handle_account
  account-IsOrdered none o w w' q q' e =
      let (same, _) = pure-ok _ _ _ _ e in rw (sym same) IsOrdered-inactive
  account-IsOrdered (some account) o w w' q q' e = elim (catch-ok _ _ _ _ _ e) [
    | inl done ↦ ingest-IsOrdered account o w w' q q' done
    | inr (x, (w1, q1), first, second) ↦ failed-IsOrdered account.id x o w1 w' q1 q' second
  ]

  -- However an ingest that returns has gone, it has recorded at most the mails that passed the filter,
  -- and these are at most the mails that it fetched.
  pub handle-IsOrdered :
      (message : MailIngestMessage) (o : IngestOutcome) (w w' : W) (q q' : Q)
      → handle world publish message (w, q) ≡ (ok o, (w', q'))
      → IsOrdered o
  unfolding handle
  handle-IsOrdered message o w w' q q' e =
      let (account, w1, loaded, e1) = bind-on_left _ _ _ _ _ _ e in
      account-IsOrdered account o w1 w' q q' e1
