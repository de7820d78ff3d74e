-- ===== src/Classifier/Pipeline/Outcomes.antt =====
-- What the fields of an outcome say together.
use coupi.Prelude.{
  ℕ, ◌≡◌, ◌≢◌, ◌↔◌, ◌⊎◌, sym, ◌∙◌, All, [], inl, inr, refl, true, false, Option, none, some, List,
  arith, Text, truthy, text_lt, Option-cases, Bool-cases,
}
use coupi.Domain.{ExtractorType, passed, filtered_out, extraction_failed}
use coupi.Classifier.Validity.{ExtractedCoupon, check, check_expiry, to_kst_date_string}
use coupi.Prelude.Int.{pos, leb_ℤ}
use coupi.Classifier.Sender.{extract_sender_domain}
use coupi.Classifier.RuleFilter.{RuleCache, apply_rules, candidates, searched_text}
use coupi.Classifier.RuleFilter.Passing.{total_weight, IsListed, apply_rules-passed_iff}
use coupi.Classifier.Extractors.{CouponExtractor, resolve}
use coupi.Classifier.Pipeline.{
  ExtractInput, ClassifyInput, ExtractOutcome, filter_result_of, judge, extract_and_judge, classify,
  domain_or_empty, filter_input,
}

-- What a coupon is that is worth a notification.
pub record IsNotifiable (now : ℕ) (o : ExtractOutcome) : Type 0 where
  pub coupon : ExtractedCoupon
  pub extractor : ExtractorType
  pub expiry_date : Text
  pub extracted : o.extracted ≡ some coupon
  pub extractor_type : o.extractor_type ≡ some extractor
  pub filter_result : o.filter_result ≡ passed
  pub not_spammy : coupon.is_spammy ≡ false
  pub dated : truthy coupon.expiry_date ≡ some expiry_date
  pub not_expired : text_lt expiry_date (to_kst_date_string now) ≡ false

judge-IsNotifiable :
    (t : ExtractorType) (now : ℕ) (extracted : Option ExtractedCoupon)
    → (judge t now extracted).should_notify ≡ true
    → IsNotifiable now (judge t now extracted)
unfolding judge check check_expiry filter_result_of
judge-IsNotifiable t now none e = cc
judge-IsNotifiable t now (some c) e = elim (Bool-cases c.is_spammy) [
  | inl s ↦ absurd (ground arith)
  | inr s ↦ elim (Option-cases (truthy c.expiry_date)) [
    | inl n ↦ absurd (ground arith)
    | inr (d, dated) ↦ record {
      coupon = c;
      extractor = t;
      expiry_date = d;
      extracted = refl;
      extractor_type = refl;
      filter_result = ground arith;
      not_spammy = s;
      dated = dated;
      not_expired = ground arith;
    }
  ]
]

extracted-judge :
    (t : ExtractorType) (now : ℕ) (extracted : Option ExtractedCoupon)
    → (judge t now extracted).extracted ≡ extracted
unfolding judge
extracted-judge t now none = refl
extracted-judge t now (some c) = refl

-- A coupon that is no spam, has an expiry date and has not expired by the date in Korea.
abbrev pub IsWorth : ℕ → Option ExtractedCoupon → Type 0
IsWorth now none = ⊥
IsWorth now (some c) =
    (c.is_spammy ≡ false)
    × ((d : Text) × (truthy c.expiry_date ≡ some d) × (text_lt d (to_kst_date_string now) ≡ false))

judge-should_notify :
    (t : ExtractorType) (now : ℕ) (extracted : Option ExtractedCoupon)
    → ((judge t now extracted).should_notify ≡ true) ↔ IsWorth now extracted
unfolding judge check check_expiry
judge-should_notify t now none = (cc, λ h. absurd h)
judge-should_notify t now (some c) = (
  (λ e.
      let n = judge-IsNotifiable t now (some c) e in
      let same : some c ≡ some n.coupon = sym (extracted-judge t now (some c)) ∙ n.extracted in
      let same : c ≡ n.coupon = cc in
      rw same (n.not_spammy, (n.expiry_date, n.dated, n.not_expired))),
  λ (clean, (d, dated, later)). rw (clean, dated, later) refl,
)

-- Why a mail is held back: nothing was extracted, or a coupon that is no spam has no expiry date.
abbrev pub IsHeld : Option ExtractedCoupon → Type 0
IsHeld none = Unit {0}
IsHeld (some c) = (c.is_spammy ≡ false) × (truthy c.expiry_date ≡ none)

judge-IsHeld :
    (t : ExtractorType) (now : ℕ) (extracted : Option ExtractedCoupon)
    → ((judge t now extracted).filter_result ≡ extraction_failed) ↔ IsHeld extracted
unfolding judge check check_expiry filter_result_of
judge-IsHeld t now none = (λ e. tt, λ h. refl)
judge-IsHeld t now (some c) = ground arith

filter_result-judge-ne :
    (t : ExtractorType) (now : ℕ) (extracted : Option ExtractedCoupon)
    → (judge t now extracted).filter_result ≢ filtered_out
unfolding judge filter_result_of
filter_result-judge-ne t now none = cc
filter_result-judge-ne t now (some c) = ground arith

-- Why the rule filter passes a mail: its sender is listed for the user, or the weights of the keywords
-- that it holds add up to one at least.
abbrev pub IsOfInterest : RuleCache → ClassifyInput → Type 0
IsOfInterest rules c =
    IsListed rules (filter_input c)
    ⊎ (leb_ℤ (pos 1) (total_weight (searched_text (filter_input c)) rules.keywords) ≡ true)

module _ (sender_extractors : List CouponExtractor) (generic : CouponExtractor) where
  -- A mail is notified only if an extractor found a coupon in it that is no spam, has an expiry date
  -- and has not expired by the date in Korea; the outcome then carries the coupon and the kind of its
  -- extractor, and is recorded as passed.
  pub extract_and_judge-IsNotifiable :
      (input : ExtractInput) (now : ℕ)
      → (extract_and_judge sender_extractors generic input now).should_notify ≡ true
      → IsNotifiable now (extract_and_judge sender_extractors generic input now)
  unfolding extract_and_judge
  extract_and_judge-IsNotifiable input now e = judge-IsNotifiable _ now _ e

  -- The outcome is recorded as a failed extraction exactly if the extractor of the sender found no
  -- coupon, or one that is no spam and has no expiry date.
  pub extract_and_judge-IsHeld :
      (input : ExtractInput) (now : ℕ)
      → ((extract_and_judge sender_extractors generic input now).filter_result ≡ extraction_failed)
        ↔ IsHeld (extract_and_judge sender_extractors generic input now).extracted
  unfolding extract_and_judge
  extract_and_judge-IsHeld input now = rw (extracted-judge _ now _) (judge-IsHeld _ now _)

  never_filtered_out :
      (input : ExtractInput) (now : ℕ)
      → (extract_and_judge sender_extractors generic input now).filter_result ≢ filtered_out
  unfolding extract_and_judge
  never_filtered_out input now = filter_result-judge-ne _ now _

  -- What the extractor of the sender finds in a mail.
  abbrev pub coupon_in : ExtractInput → Option ExtractedCoupon
  coupon_in input =
      let extractor =
        resolve sender_extractors generic (domain_or_empty (extract_sender_domain input.sender)) in
      extractor.extract input.subject input.body_text (some input.received_at)

  extract_and_judge-should_notify :
      (input : ExtractInput) (now : ℕ)
      → ((extract_and_judge sender_extractors generic input now).should_notify ≡ true)
        ↔ IsWorth now (coupon_in input)
  unfolding extract_and_judge
  extract_and_judge-should_notify input now = judge-should_notify _ now _

  classify-extract_and_judge :
      (rules : RuleCache) (c : ClassifyInput) (now : ℕ)
      → ((classify sender_extractors generic rules c now).outcome.should_notify ≡ true) ↔ (
          ((apply_rules rules (filter_input c)).passed ≡ true)
          × ((extract_and_judge sender_extractors generic c.input now).should_notify ≡ true))
  unfolding classify
  classify-extract_and_judge rules c now = ground arith

  classify-filtered_out :
      (rules : RuleCache) (c : ClassifyInput) (now : ℕ)
      → ((classify sender_extractors generic rules c now).outcome.filter_result ≡ filtered_out)
        ↔ ((apply_rules rules (filter_input c)).passed ≢ true)
  unfolding classify
  classify-filtered_out rules c now = ground (arith, never_filtered_out c.input now)

  -- With no empty domain listed, the whole pipeline notifies a mail exactly if its sender is listed for
  -- the user or the weights of the keywords that it holds add up to one at least, and the extractor of
  -- its sender finds a coupon in it that is no spam, has an expiry date and has not expired by the date
  -- in Korea. The outcome says that the mail was filtered out exactly if the first of the two fails.
  pub classify-should_notify :
      (rules : RuleCache) (c : ClassifyInput) (now : ℕ)
      → All (λ (d : Text). d ≢ []) (candidates rules c.user_id)
      → (((classify sender_extractors generic rules c now).outcome.should_notify ≡ true)
          ↔ (IsOfInterest rules c × IsWorth now (coupon_in c.input)))
        × (((classify sender_extractors generic rules c now).outcome.filter_result ≡ filtered_out)
            ↔ ¬ IsOfInterest rules c)
  classify-should_notify rules c now named =
      let passes = apply_rules-passed_iff rules (filter_input c) named in
      let both = classify-extract_and_judge rules c now in
      let worth = extract_and_judge-should_notify c.input now in
      let out = classify-filtered_out rules c now in
      (
        (
          (λ e. let (p, n) = both.0 e in (passes.0 p, worth.0 n)),
          λ h. both.1 (passes.1 h.0, worth.1 h.1),
        ),
        ((λ e i. out.0 e (passes.1 i)), λ h. out.1 (λ p. h (passes.0 p))),
      )
