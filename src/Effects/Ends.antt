-- ===== src/Effects/Ends.antt =====
-- Loops on fuel that are given enough of it.
use coupi.Prelude.{◌≡◌, ◌≢◌, ap, ◌∙◌, inl, inr}
use coupi.Effects.{
  Result, Thrown, Exec, ok, thrown, out_of_fuel, pure, throw, catch, recover, ◌>>=◌,
}
use coupi.Effects.Calls.{Result-cases}

module _ {S A : Type 0} where
  -- The call comes to an end, by a value or an error, in every state.
  abbrev pub Ends : Exec S A → Type 0
  Ends m = (s : S) → (m s).0 ≢ thrown out_of_fuel

  pub Ends-pure : (a : A) → Ends (pure a)
  unfolding pure
  Ends-pure a s e = cc

  pub Ends-throw : (x : Thrown) → x ≢ out_of_fuel → Ends (throw {S = S} {A = A} x)
  unfolding throw
  Ends-throw x ne s e = ne (cc)

  pub Ends-catch :
      (m : Exec S A) (handler : Thrown → Exec S A)
      → Ends m
      → ((x : Thrown) → x ≢ out_of_fuel → Ends (handler x))
      → Ends (catch m handler)
  unfolding catch recover
  Ends-catch m handler h k s e = elim (Result-cases (m s)) [
    | inl (a, t, first) ↦ cc (rw first at e)
    | inr (x, t, first) ↦ k x (λ same. h s (ap (λ r. r.0) first ∙ ap thrown same)) t (rw first at e)
  ]

module _ {S A B : Type 0} where
  pub Ends-bind :
      (m : Exec S A) (f : A → Exec S B)
      → Ends m
      → ((a : A) (s t : S) → m s ≡ (ok a, t) → Ends (f a))
      → Ends (m >>= f)
  unfolding ◌>>=◌
  Ends-bind m f h k s e = elim (Result-cases (m s)) [
    | inl (a, t, first) ↦ k a s t first t (rw first at e)
    | inr (x, t, first) ↦
        let g : ◌≡◌ {A = Result B} (thrown x) (thrown out_of_fuel) = rw first at e in
        let same : x ≡ out_of_fuel = cc in h s (ap (λ r. r.0) first ∙ ap thrown same)
  ]
