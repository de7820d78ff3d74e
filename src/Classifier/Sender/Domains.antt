-- ===== src/Classifier/Sender/Domains.antt =====
-- What the domain of a sender is, and which domains match a listed one.
use coupi.Prelude.{
  ℕ, ◌≡◌, ◌≢◌, ◌↔◌, ◌⊎◌, inl, inr, refl, sym, ap, true, none, some, [], ◌∷◌, ◌++◌, arith, Text,
  text_eq, text_eq_iff, to_lower_case, to_lower_case_idem, lower_unit, after_last, ends_with, All,
  Option-cases, Bool-cases,
}
use mathlib.Core.Path.{subst}
use coupi.Classifier.Sender.{sender_address, non_empty_lower, extract_sender_domain, matches_domain}

after_last-none : (c : ℕ) (s : Text) → after_last c s ≡ none → All (λ x. x ≢ c) s
unfolding after_last
after_last-none c [] e = tt
after_last-none c (x ∷ s) e = elim (Option-cases (after_last c s)) [
  | inl missed ↦ (ground arith, after_last-none c s missed)
  | inr (u, found) ↦ cc (rw (found, after_last) at e)
]

after_last-split :
    (c : ℕ) (s t : Text)
    → after_last c s ≡ some t
    → All (λ x. x ≢ c) t × ((front : Text) × (s ≡ front ++ c ∷ t))
unfolding after_last
after_last-split c [] t e = cc
after_last-split c (x ∷ s) t e = elim (Option-cases (after_last c s)) [
  | inl missed ↦
      let same : s ≡ t = ground arith in
      let here : x ≡ c = ground arith in
      (subst (All (λ x. x ≢ c)) same (after_last-none c s missed), ([], λ i. here i ∷ same i))
  | inr (u, found) ↦
      let (free, (front, split)) = after_last-split c s t (ground arith) in
      (free, (x ∷ front, ap (λ (r : Text). x ∷ r) split))
]

to_lower_case-ne : (t : Text) → All (λ x. x ≢ b'@') t → All (λ x. x ≢ b'@') (to_lower_case t)
unfolding to_lower_case lower_unit
to_lower_case-ne [] h = tt
to_lower_case-ne (c ∷ t) (p, h) = (ground arith, to_lower_case-ne t h)

-- A sender's domain, if one is found, is what stands behind the last `@` of the address, in lower
-- case: it is not empty, and holds no `@` itself.
pub extract_sender_domain_sound :
    (sender d : Text)
    → extract_sender_domain sender ≡ some d
    → (d ≢ [])
      × All (λ x. x ≢ b'@') d
      × (to_lower_case d ≡ d)
      × ((front : Text) × (t : Text) × (sender_address sender ≡ front ++ b'@' ∷ t)
          × (d ≡ to_lower_case t))
unfolding extract_sender_domain
extract_sender_domain_sound sender d e =
    elim (Option-cases (after_last b'@' (sender_address sender))) [
      | inl missed ↦ cc (rw (missed, extract_sender_domain) at e)
      | inr (t, found) ↦
          found_domain t d (after_last-split b'@' _ t found)
            (rw (found, extract_sender_domain) at e)
    ]
  where
    found_domain :
        (t d : Text)
        → All (λ x. x ≢ b'@') t × ((front : Text) × (sender_address sender ≡ front ++ b'@' ∷ t))
        → non_empty_lower (some t) ≡ some d
        → (d ≢ [])
          × All (λ x. x ≢ b'@') d
          × (to_lower_case d ≡ d)
          × ((front : Text) × (t : Text) × (sender_address sender ≡ front ++ b'@' ∷ t)
              × (d ≡ to_lower_case t))
    found_domain [] d h e = cc
    found_domain (c ∷ t) d (free, (front, split)) e =
        let same : to_lower_case (c ∷ t) ≡ d = ground arith in
        subst
          (λ d.
            (d ≢ [])
            × All (λ x. x ≢ b'@') d
            × (to_lower_case d ≡ d)
            × ((front : Text) × (t : Text) × (sender_address sender ≡ front ++ b'@' ∷ t)
                × (d ≡ to_lower_case t)))
          same
          (
            (unfold to_lower_case in cc),
            to_lower_case-ne (c ∷ t) free,
            to_lower_case_idem (c ∷ t),
            (front, c ∷ t, split, refl),
          )

ends_with_sound : (s t : Text) → ends_with s t ≡ true → (p : Text) × (s ≡ p ++ t)
unfolding ends_with
ends_with_sound [] t h = ([], (text_eq_iff [] t).0 h)
ends_with_sound (c ∷ s) t h = elim (Bool-cases (text_eq (c ∷ s) t)) [
  | inl same ↦ ([], (text_eq_iff (c ∷ s) t).0 same)
  | inr other ↦
      let (p, split) = ends_with_sound s t (ground arith) in (c ∷ p, ap (λ (r : Text). c ∷ r) split)
]

ends_with_complete : (p t : Text) → ends_with (p ++ t) t ≡ true
unfolding ends_with
ends_with_complete [] [] = (unfold text_eq in refl)
ends_with_complete [] (c ∷ t) = ground (arith, text_eq_iff (c ∷ t) (c ∷ t))
ends_with_complete (c ∷ p) t = ground (arith, ends_with_complete p t)

-- A sender's domain matches a listed domain exactly if it is that domain in lower case, or one of
-- its subdomains, set off by a dot.
pub matches_domain_iff :
    (s w : Text)
    → (matches_domain s w ≡ true)
      ↔ ((s ≡ to_lower_case w) ⊎ ((p : Text) × (s ≡ p ++ b'.' ∷ to_lower_case w)))
unfolding matches_domain
matches_domain_iff s w = (to, from)
  where
    to :
        matches_domain s w ≡ true
        → (s ≡ to_lower_case w) ⊎ ((p : Text) × (s ≡ p ++ b'.' ∷ to_lower_case w))
    to h = elim (Bool-cases (text_eq s (to_lower_case w))) [
      | inl same ↦ inl ((text_eq_iff s _).0 same)
      | inr other ↦ inr (ends_with_sound s (b'.' ∷ to_lower_case w) (ground arith))
    ]

    from :
        ((s ≡ to_lower_case w) ⊎ ((p : Text) × (s ≡ p ++ b'.' ∷ to_lower_case w)))
        → matches_domain s w ≡ true
    from (inl same) = ground (arith, text_eq_iff s (to_lower_case w))
    from (inr (p, split)) = ground (
      arith,
      subst (λ r. ends_with r (b'.' ∷ to_lower_case w) ≡ true) (sym split)
          (ends_with_complete p (b'.' ∷ to_lower_case w)),
    )
