-- ===== src/Jobs/Renewal/Counts.antt =====
-- Which watches a renewal renews, and what it counts.
use coupi.Prelude.{
  ℕ, ◌+◌, ◌≡◌, refl, sym, ap, ◌∙◌, Bool, true, false, not, Option, none, some, List, [], ◌∷◌, arith,
  truthy, if◌then◌else◌, keep, length, leb, Bool-cases, inl, inr,
}
use coupi.Effects.{ok}
use coupi.Effects.Calls.{bind-ok, pure-ok}
use coupi.Accounts.{
  AccountWorld, CursorJson, no_object, object, text_field, other_field, parse_cursor, parse_field,
}
use coupi.Jobs.Renewal.{
  RenewalCalls, RenewalRow, Renewal, renewed, failed, reauth_required, WatchRenewalResult, count,
  nothing_checked, deadline_of, can_wait, renew, renew_or_wait, renew_all, run, or_zero,
}

abbrev same : Renewal → Renewal → Bool
same renewed renewed = true
same failed failed = true
same reauth_required reauth_required = true
same _ _ = false

-- How many of the outcomes are of a kind.
abbrev pub number : Renewal → List Renewal → ℕ
number o [] = 0
number o (p ∷ ps) = (if same o p then 1 else 0) + number o ps

-- The result after so many more rows, and after their outcomes.
abbrev IsTally : WatchRenewalResult → List RenewalRow → List Renewal → WatchRenewalResult → Type 0
IsTally r rows os s =
    (s.checked ≡ r.checked + length rows)
    × (s.renewed ≡ r.renewed + number renewed os)
    × (s.failed ≡ r.failed + number failed os)
    × (s.reauth_required ≡ r.reauth_required + number reauth_required os)

count-IsTally :
    (o : Renewal) (row : RenewalRow) (rows : List RenewalRow) (os : List Renewal)
    (r s : WatchRenewalResult)
    → IsTally (count o r) rows os s
    → IsTally r (row ∷ rows) (o ∷ os) s
count-IsTally renewed row rows os r s (a, b, c, d) =
    (omega arith, omega arith, omega arith, omega arith)
count-IsTally failed row rows os r s (a, b, c, d) =
    (omega arith, omega arith, omega arith, omega arith)
count-IsTally reauth_required row rows os r s (a, b, c, d) =
    (omega arith, omega arith, omega arith, omega arith)

module _ {W : Type 0} (world : AccountWorld W) (calls : RenewalCalls W) where
  -- The time when the watch of an account expires by its stored cursor, if the cursor has one that is
  -- not empty and is a date.
  abbrev pub expiry_of : CursorJson → Option ℕ
  expiry_of (object history_id (text_field (c ∷ s))) = calls.time_of (c ∷ s)
  expiry_of _ = none

  -- Unknown, or not more than three days, in milliseconds, ahead.
  abbrev pub is_due : ℕ → Option ℕ → Bool
  is_due now none = true
  is_due now (some at) = leb at (now + 259200000)

  abbrev pub due : ℕ → List RenewalRow → List RenewalRow
  due now rows = keep (λ (row : RenewalRow). is_due now (expiry_of row.cursor)) rows

  -- `renew` is run for the rows one after the other, each with its own row's count of failures, and
  -- with these outcomes.
  abbrev pub Renews : List RenewalRow → List Renewal → W → W → Type 0
  Renews [] [] w w' = w ≡ w'
  Renews [] (o ∷ os) w w' = ⊥
  Renews (row ∷ rows) [] w w' = ⊥
  Renews (row ∷ rows) (o ∷ os) w w' =
      (u : W) × (renew world calls row.id (or_zero row.consecutive_failures) w ≡ (ok o, u))
      × Renews rows os u w'

  can_wait-is_due :
      (now : ℕ) (cursor : CursorJson)
      → can_wait world calls (deadline_of now) (truthy (parse_cursor cursor).watch_expires_at)
        ≡ not (is_due now (expiry_of cursor))
  unfolding can_wait parse_cursor parse_field
  can_wait-is_due now no_object = refl
  can_wait-is_due now (object history_id other_field) = refl
  can_wait-is_due now (object history_id (text_field [])) = refl
  can_wait-is_due now (object history_id (text_field (c ∷ s))) = ground arith

  -- How a renewal of the rows ends that returns the result `s`.
  abbrev Ends : ℕ → List RenewalRow → WatchRenewalResult → WatchRenewalResult → W → W → Type 0
  Ends now rows r s w w' =
      (os : List Renewal) × Renews (due now rows) os w w' × IsTally r (due now rows) os s

  renew_or_wait-Ends :
      (now : ℕ) (row : RenewalRow) (rows : List RenewalRow) (r next s : WatchRenewalResult)
      (w w1 w' : W)
      → renew_or_wait world calls (not (is_due now (expiry_of row.cursor))) row r w ≡ (ok next, w1)
      → Ends now rows next s w1 w'
      → Ends now (row ∷ rows) r s w w'
  unfolding renew_or_wait
  renew_or_wait-Ends now row rows r next s w w1 w' e (os, done, tally) =
      elim (Bool-cases (is_due now (expiry_of row.cursor))) [
        | inl now_due ↦
            let (o, u, one, e1) = bind-ok _ _ _ _ _ (rw now_due at e) in
            let (counted, end) = pure-ok _ _ _ _ e1 in
            rw now_due (
              o ∷ os,
              (w1, one ∙ ap (λ v. (ok o, v)) end, done),
              count-IsTally o row (due now rows) os r s (rw counted tally),
            )
        | inr later ↦
            let (unchanged, end) = pure-ok _ _ _ _ (rw later at e) in
            rw (later, unchanged, end) (os, done, tally)
      ]

  renew_all-Ends :
      (now : ℕ) (rows : List RenewalRow) (r s : WatchRenewalResult) (w w' : W)
      → renew_all world calls (deadline_of now) rows r w ≡ (ok s, w')
      → Ends now rows r s w w'
  unfolding renew_all
  renew_all-Ends now [] r s w w' e =
      let (unchanged, end) = pure-ok _ _ _ _ e in
      ([], end, rw (sym unchanged) (omega arith, omega arith, omega arith, omega arith))
  renew_all-Ends now (row ∷ rows) r s w w' e =
      let (next, w1, one, e1) = bind-ok _ _ _ _ _ e in
      renew_or_wait-Ends now row rows r next s w w1 w' (rw (can_wait-is_due now row.cursor) at one)
        (renew_all-Ends now rows next s w1 w' e1)

  -- A renewal that returns has tried to renew, one by one, the watches of exactly those accounts
  -- that the query answered whose watch expires at an unknown time or at most three days (259200000
  -- milliseconds) after now; it answers how many these are, and how many of them were renewed, failed
  -- and are to be authorized again.
  pub run-Renews :
      (now : ℕ) (s : WatchRenewalResult) (w w' : W)
      → run world calls now w ≡ (ok s, w')
      → (rows : List RenewalRow) × (w1 : W) × (calls.find_active w ≡ (ok rows, w1))
        × (os : List Renewal) × Renews (due now rows) os w1 w'
        × (s.checked ≡ length (due now rows))
        × (s.renewed ≡ number renewed os)
        × (s.failed ≡ number failed os)
        × (s.reauth_required ≡ number reauth_required os)
  unfolding run
  run-Renews now s w w' e =
      let (rows, w1, found, e1) = bind-ok _ _ _ _ _ e in
      let (os, done, tally) = renew_all-Ends now rows nothing_checked s w1 w' e1 in
      let (a, b, c, d) = tally in
      (rows, w1, found, os, done, omega arith, omega arith, omega arith, omega arith)
