-- ===== src/Effects/Leads.antt =====
-- Which requests a service was sent, however the method that calls it ends.
use coupi.Prelude.{◌≡◌, refl, List, [], ◌∷◌, ◌++◌, All, All-append, sym, ap, ◌∙◌, inl, inr}
use coupi.Effects.{Exec, ok, pure, on_left, on_right, ◌>>=◌}
use coupi.Effects.Calls.{Result-cases}

-- The states of the second service that calls of a kind can lead to, whether they return or throw.
module _ {F R : Type 0} (call : R → F → F) where
  pub after : List R → F → F
  after [] f = f
  after (r ∷ rs) f = after rs (call r f)

  after-append : (xs ys : List R) (f : F) → after (xs ++ ys) f ≡ after ys (after xs f)
  unfolding after
  after-append [] ys f = refl
  after-append (x ∷ xs) ys f = after-append xs ys (call x f)

module _ {F R : Type 0} (call : R → F → F) (P : R → Type 0) where
  -- From a state on, the second service is only called by requests of the kind.
  abbrev pub Leads : F → F → Type 0
  Leads f g = (rs : List R) × (g ≡ after call rs f) × All P rs

  pub Leads-none : (f : F) → Leads f f
  unfolding after
  Leads-none f = ([], refl, tt)

  pub Leads-one : (r : R) (f : F) → P r → Leads f (call r f)
  unfolding after
  Leads-one r f p = (r ∷ [], refl, (p, tt))

  pub Leads-trans : (f g h : F) → Leads f g → Leads g h → Leads f h
  Leads-trans f g h (rs, e, p) (ss, e', q) = (
    rs ++ ss,
    e' ∙ ap (after call ss) e ∙ sym (after-append call rs ss f),
    All-append P rs ss p q,
  )

  module _ {D A : Type 0} where
    abbrev pub LeadsAt : Exec (D × F) A → D × F → Type 0
    LeadsAt m (d, f) = Leads f (m (d, f)).1.1

    pub LeadsAt-pure : (a : A) (w : D × F) → LeadsAt (pure a) w
    unfolding pure
    LeadsAt-pure a (d, f) = Leads-none f

    pub LeadsAt-on_left : (m : Exec D A) (w : D × F) → LeadsAt (on_left m) w
    unfolding on_left
    LeadsAt-on_left m (d, f) = Leads-none f

  module _ {D A B : Type 0} where
    pub LeadsAt-bind :
        (m : Exec (D × F) A) (k : A → Exec (D × F) B) (w : D × F)
        → LeadsAt m w
        → ((a : A) (v : D × F) → m w ≡ (ok a, v) → LeadsAt (k a) v)
        → LeadsAt (m >>= k) w
    unfolding ◌>>=◌
    LeadsAt-bind m k (d, f) h rest = elim (Result-cases (m (d, f))) [
      | inl (a, (d', f'), e) ↦ rw e (Leads-trans f f' _ (rw e at h) (rest a (d', f') e))
      | inr (x, (d', f'), e) ↦ rw e (rw e at h)
    ]

    pub LeadsAt-bind_left :
        (m : Exec D A) (k : A → Exec (D × F) B) (d : D) (f : F)
        → ((a : A) (d' : D) → m d ≡ (ok a, d') → LeadsAt (k a) (d', f))
        → LeadsAt (on_left m >>= k) (d, f)
    unfolding on_left ◌>>=◌
    LeadsAt-bind_left m k d f rest = elim (Result-cases (m d)) [
      | inl (a, d', e) ↦ rw e (rest a d' e)
      | inr (x, d', e) ↦ rw e (Leads-none f)
    ]

  module _ {D A : Type 0} where
    pub LeadsAt-on_right :
        (m : Exec F A) (r : R) (w : D × F)
        → ((f : F) → (m f).1 ≡ call r f)
        → P r
        → LeadsAt (on_right m) w
    unfolding on_right
    LeadsAt-on_right m r (d, f) same p = rw (same f) (Leads-one r f p)
