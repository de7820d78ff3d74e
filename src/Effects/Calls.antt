-- ===== src/Effects/Calls.antt =====
-- How a call that has returned went on, and which calls of a service were made.
use coupi.Prelude.{◌≡◌, refl, ◌⊎◌, inl, inr, ◌∙◌}
use coupi.Effects.{Thrown, Result, ok, thrown, Exec, pure, catch, recover, ◌>>=◌, on_left, on_right}

module _ {S A : Type 0} where
  pub Result-cases :
      (r : Result A × S)
      → ((a : A) × (s : S) × (r ≡ (ok a, s))) ⊎ ((e : Thrown) × (s : S) × (r ≡ (thrown e, s)))
  Result-cases (ok a, s) = inl (a, s, refl)
  Result-cases (thrown e, s) = inr (e, s, refl)

  pub pure-ok : (a b : A) (s t : S) → pure a s ≡ (ok b, t) → (a ≡ b) × (s ≡ t)
  unfolding pure
  pure-ok a b s t e = (cc, cc)

module _ {S A B : Type 0} where
  -- A sequence that returns has returned in both of its parts.
  pub bind-ok :
      (m : Exec S A) (f : A → Exec S B) (s t : S) (b : B)
      → (m >>= f) s ≡ (ok b, t)
      → (a : A) × (u : S) × (m s ≡ (ok a, u)) × (f a u ≡ (ok b, t))
  unfolding ◌>>=◌
  bind-ok m f s t b e = elim (Result-cases (m s)) [
    | inl (a, u, first) ↦ (a, u, first, rw first at e)
    | inr (x, u, first) ↦ cc (rw first at e)
  ]

  -- A sequence whose first part returns goes on with the second.
  pub bind-go :
      (m : Exec S A) (f : A → Exec S B) (s u : S) (a : A) → m s ≡ (ok a, u) → (m >>= f) s ≡ f a u
  unfolding ◌>>=◌
  bind-go m f s u a e = rw e

module _ {D F A B : Type 0} where
  -- A sequence that returns, and whose first part is a call of the one service.
  pub bind-on_left :
      (m : Exec D A) (g : A → Exec (D × F) B) (d : D) (f : F) (t : D × F) (b : B)
      → (on_left m >>= g) (d, f) ≡ (ok b, t)
      → (a : A) × (d' : D) × (m d ≡ (ok a, d')) × (g a (d', f) ≡ (ok b, t))
  unfolding on_left ◌>>=◌
  bind-on_left m g d f t b e = elim (Result-cases (m d)) [
    | inl (a, d', first) ↦ (a, d', first, rw first at e)
    | inr (x, d', first) ↦ cc (rw first at e)
  ]

  pub bind-on_right :
      (m : Exec F A) (g : A → Exec (D × F) B) (d : D) (f : F) (t : D × F) (b : B)
      → (on_right m >>= g) (d, f) ≡ (ok b, t)
      → (a : A) × (f' : F) × (m f ≡ (ok a, f')) × (g a (d, f') ≡ (ok b, t))
  unfolding on_right ◌>>=◌
  bind-on_right m g d f t b e = elim (Result-cases (m f)) [
    | inl (a, f', first) ↦ (a, f', first, rw first at e)
    | inr (x, f', first) ↦ cc (rw first at e)
  ]

  -- A call of the second service that returns, and what follows it.
  pub bind-go_right :
      (m : Exec F A) (g : A → Exec (D × F) B) (d : D) (f f' : F) (a : A)
      → m f ≡ (ok a, f')
      → (on_right m >>= g) (d, f) ≡ g a (d, f')
  unfolding on_right ◌>>=◌
  bind-go_right m g d f f' a e = rw e refl

module _ {S A : Type 0} where
  -- A `try` that returns has returned from its block, or from its handler after a throw.
  pub catch-ok :
      (m : Exec S A) (handler : Thrown → Exec S A) (s t : S) (a : A)
      → catch m handler s ≡ (ok a, t)
      → (m s ≡ (ok a, t))
        ⊎ ((x : Thrown) × (u : S) × (m s ≡ (thrown x, u)) × (handler x u ≡ (ok a, t)))
  unfolding catch recover
  catch-ok m handler s t a e = elim (Result-cases (m s)) [
    | inl (b, u, first) ↦ inl (first ∙ (rw first at e))
    | inr (x, u, first) ↦ inr (x, u, first, rw first at e)
  ]
