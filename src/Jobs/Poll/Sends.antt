-- ===== src/Jobs/Poll/Sends.antt =====
-- What a poll sends, and how it ends.
use coupi.Prelude.{
  ℕ, ◌+◌, ◌-◌, ◌≤◌, ◌<◌, ◌⊎◌, Bool-cases, ◌≡◌, refl, ap, ◌∙◌, true, false, List, [], ◌∷◌, length,
  ltb, arith, Text, inl, inr,
}
use coupi.Domain.{MailIngestMessage}
use coupi.Effects.{Exec, Result, ok, thrown, pure, throw, catch, recover, resume, ◌>>=◌}
use coupi.Effects.Calls.{Result-cases, bind-go}
use coupi.Jobs.Poll.{payload_of, poll_error, enqueue_one, enqueue_all, report, run}

abbrev is_failure : Result (Unit {0}) → ℕ
is_failure (ok x) = 0
is_failure (thrown x) = 1

is_failure_bound : (r : Result (Unit {0})) → is_failure r ≤ 1
is_failure_bound (ok x) = omega arith
is_failure_bound (thrown x) = omega arith

module _ {W : Type 0} (find_active : Exec W (List Text))
    (publish : MailIngestMessage → Text → Exec W (Unit {0})) where
  -- The state after a publication to every account of a list, whichever of them fail, and how many
  -- fail.
  unfoldable pub after_all : List Text → W → W
  after_all [] w = w
  after_all (id ∷ ids) w = after_all ids (publish (payload_of id) id w).1

  unfoldable pub failures : List Text → W → ℕ
  failures [] w = 0
  failures (id ∷ ids) w =
      is_failure (publish (payload_of id) id w).0 + failures ids (publish (payload_of id) id w).1

  failures_bound : (ids : List Text) (w : W) → failures ids w ≤ length ids
  unfolding failures
  failures_bound [] w = omega arith
  failures_bound (id ∷ ids) w = omega (
    arith,
    failures_bound ids (publish (payload_of id) id w).1,
    is_failure_bound (publish (payload_of id) id w).0,
  )

  enqueue_one_lem :
      (id : Text) (n : ℕ) (w : W)
      → enqueue_one find_active publish id n w ≡ (
        ok (n + (1 - is_failure (publish (payload_of id) id w).0)),
        (publish (payload_of id) id w).1,
      )
  unfolding enqueue_one ◌>>=◌ resume catch recover pure
  enqueue_one_lem id n w = elim (Result-cases (publish (payload_of id) id w)) [
    | inl (x, u, e) ↦ rw e refl
    | inr (x, u, e) ↦ rw e (ap (λ k. (ok k, u)) (omega arith))
  ]

  enqueue_all_lem :
      (ids : List Text) (n : ℕ) (w : W)
      → enqueue_all find_active publish ids n w
        ≡ (ok (n + (length ids - failures ids w)), after_all ids w)
  unfolding enqueue_all after_all failures pure
  enqueue_all_lem [] n w = ap (λ k. (ok k, w)) (omega arith)
  enqueue_all_lem (id ∷ ids) n w =
      bind-go _ _ w _ _ (enqueue_one_lem id n w)
      ∙ enqueue_all_lem ids _ (publish (payload_of id) id w).1
      ∙ ap (λ k. (ok k, after_all ids (publish (payload_of id) id w).1))
          (omega (
            arith,
            failures_bound ids (publish (payload_of id) id w).1,
            is_failure_bound (publish (payload_of id) id w).0,
          ))

  run-report :
      (ids : List Text) (w w1 : W)
      → find_active w ≡ (ok ids, w1)
      → run find_active publish w
        ≡ report find_active publish
            (length ids)
            (0 + (length ids - failures ids w1))
            (after_all ids w1)
  unfolding run
  run-report ids w w1 found =
      bind-go find_active _ w w1 ids found ∙ bind-go _ _ w1 _ _ (enqueue_all_lem ids 0 w1)

  report-done :
      (n f : ℕ) (w : W)
      → f ≡ 0
      → report find_active publish n (0 + (n - f)) w
        ≡ (ok (record { accounts = n; enqueued = n }), w)
  unfolding report pure
  report-done n f w none_failed =
      let all_sent : 0 + (n - f) ≡ n = omega arith in
      let nothing : ltb 0 (n - n) ≡ false = ground arith in rw (all_sent, nothing) refl

  report-failed :
      (n f : ℕ) (w : W)
      → 0 < f
      → f ≤ n
      → report find_active publish n (0 + (n - f)) w ≡ (thrown (poll_error f n), w)
  unfolding report throw
  report-failed n f w some_failed bound =
      let back : n - (0 + (n - f)) ≡ f = omega arith in
      let positive : ltb 0 f ≡ true = ground arith in rw (back, positive) refl

  -- The poll publishes every account that the query finds, in order and whichever of them fail; it
  -- returns exactly if none has failed, and then with the number of all of them, and otherwise throws.
  pub run_lem :
      (ids : List Text) (w w1 : W)
      → find_active w ≡ (ok ids, w1)
      → ((failures ids w1 ≡ 0)
          × (run find_active publish w
              ≡ (ok (record { accounts = length ids; enqueued = length ids }), after_all ids w1)))
        ⊎ ((0 < failures ids w1)
            × (run find_active publish w
                ≡ (thrown (poll_error (failures ids w1) (length ids)), after_all ids w1)))
  run_lem ids w w1 found = elim (Bool-cases (ltb 0 (failures ids w1))) [
    | inl some_failed ↦ inr (
      ground arith,
      run-report ids w w1 found
          ∙ report-failed (length ids) (failures ids w1) _ (ground arith) (failures_bound ids w1),
    )
    | inr none_failed ↦ inl (
      ground arith,
      run-report ids w w1 found ∙ report-done (length ids) (failures ids w1) _ (ground arith),
    )
  ]
