-- ===== src/Classifier/RuleFilter/Passing.antt =====
-- Which mails pass the rule filter.
use coupi.Prelude.{
  ◌≡◌, ◌≢◌, ◌⊎◌, ◌↔◌, inl, inr, refl, sym, ◌∙◌, true, none, some, List, [], ◌∷◌, arith,
  if◌then◌else◌, Text, find, find-eq-some, find-In, In, Option-cases, All,
}
use coupi.Prelude.Int.{ℤ, pos, ◌+ℤ◌, leb_ℤ, +ℤ_assoc, zero-+ℤ, +ℤ-zero}
use coupi.Classifier.Sender.{extract_sender_domain, matches_domain}
use coupi.Classifier.RuleFilter.{
  RuleFilterInput, domain_whitelist, Keyword, RuleCache, hits, add_keyword, score_keywords,
  KeywordScore, match_keywords, searched_text, candidates, by_domain, find_domain, apply_rules,
  min_keyword_score,
}

-- The sum of the weights of the keywords that the text hits.
unfoldable pub total_weight : Text → List Keyword → ℤ
total_weight text [] = pos 0
total_weight text (k ∷ ks) =
    let rest = total_weight text ks in if hits text k.keyword then k.weight +ℤ rest else rest

add_keyword-score :
    (text : Text) (k : Keyword) (s : KeywordScore) (r : ℤ)
    → (add_keyword text k s).score +ℤ r
      ≡ s.score +ℤ (if hits text k.keyword then k.weight +ℤ r else r)
unfolding add_keyword
add_keyword-score text k s r = ground (arith, +ℤ_assoc s.score k.weight r)

score_keywords-total :
    (text : Text) (ks : List Keyword) (s : KeywordScore)
    → (score_keywords text ks s).score ≡ s.score +ℤ total_weight text ks
unfolding score_keywords total_weight
score_keywords-total text [] s = sym (+ℤ-zero s.score)
score_keywords-total text (k ∷ ks) s =
    score_keywords-total text ks (add_keyword text k s)
    ∙ add_keyword-score text k s (total_weight text ks)

match_keywords-passed :
    (rules : RuleCache) (input : RuleFilterInput)
    → (match_keywords rules input).passed
      ≡ leb_ℤ min_keyword_score (total_weight (searched_text input) rules.keywords)
unfolding match_keywords
match_keywords-passed rules input =
    let start : KeywordScore = record { matched_keywords = []; score = pos 0 } in
    let t = score_keywords-total (searched_text input) rules.keywords start in
    let z = zero-+ℤ (total_weight (searched_text input) rules.keywords) in rw (t, z) (ground arith)

In-ne : (d : Text) (xs : List Text) → All (λ x. x ≢ []) xs → In d xs → d ≢ []
In-ne d [] h i = absurd i
In-ne d (x ∷ xs) (p, h) (inl e) = λ n. p (e ∙ n)
In-ne d (x ∷ xs) (p, h) (inr i) = In-ne d xs h i

by_domain-found :
    (rules : RuleCache) (input : RuleFilterInput) (d : Text)
    → d ≢ []
    → ((by_domain rules input (some d)).passed ≡ true)
      × ((by_domain rules input (some d)).reason ≡ domain_whitelist)
unfolding by_domain
by_domain-found rules input [] h = absurd (h refl)
by_domain-found rules input (c ∷ d) h = (refl, refl)

module _ (rules : RuleCache) (input : RuleFilterInput) where
  -- The sender's domain, if there is one, matches a domain that is listed for the user.
  abbrev pub IsListed : Type 0
  IsListed =
      (s : Text) × (d : Text) × (extract_sender_domain input.sender ≡ some s)
      × In d (candidates rules input.user_id)
      × (matches_domain s d ≡ true)

  listed-cases :
      (find_domain rules input.user_id (extract_sender_domain input.sender) ≡ none) ⊎ IsListed
  listed-cases = elim (Option-cases (extract_sender_domain input.sender)) [
    | inl anonymous ↦ inl (rw anonymous (unfold find_domain in refl))
    | inr (s, sender) ↦
        elim (Option-cases (find (λ d. matches_domain s d) (candidates rules input.user_id))) [
          | inl missed ↦ inl (rw sender (unfold find_domain in missed))
          | inr (d, found) ↦
              let (there, matches) =
                find-eq-some (λ d. matches_domain s d) (candidates rules input.user_id) d found in
              inr (s, d, sender, there, matches)
        ]
  ]

  by_keywords :
      find_domain rules input.user_id (extract_sender_domain input.sender) ≡ none
      → (apply_rules rules input).passed
        ≡ leb_ℤ min_keyword_score (total_weight (searched_text input) rules.keywords)
  unfolding apply_rules by_domain
  by_keywords missed = rw missed (match_keywords-passed rules input)

  module _ (named : All (λ (d : Text). d ≢ []) (candidates rules input.user_id)) where
    -- A mail of a listed sender passes, whatever its subject and its text are.
    pub apply_rules-IsListed :
        IsListed
        → ((apply_rules rules input).passed ≡ true)
          × ((apply_rules rules input).reason ≡ domain_whitelist)
    unfolding apply_rules find_domain
    apply_rules-IsListed (s, d, sender, listed, matches) =
        let (e, found, there, _) =
          find-In (λ d. matches_domain s d) (candidates rules input.user_id) d listed matches in
        rw (sender, find_domain, found) (by_domain-found rules input e (In-ne e _ named there))

    -- With no empty domain listed, a mail passes exactly if its sender is listed or the weights of the
    -- keywords that its subject and its text hold, with or without white space, add up to one at least.
    pub apply_rules-passed_iff :
        ((apply_rules rules input).passed ≡ true)
        ↔ (IsListed ⊎ (leb_ℤ (pos 1) (total_weight (searched_text input) rules.keywords) ≡ true))
    apply_rules-passed_iff = elim listed-cases [
      | inl missed ↦ (
        λ h. inr (sym (by_keywords missed) ∙ h),
        elim [
          | inl listed ↦ (apply_rules-IsListed listed).0
          | inr heavy ↦ by_keywords missed ∙ heavy
        ],
      )
      | inr listed ↦ (λ h. inl listed, λ h. (apply_rules-IsListed listed).0)
    ]
