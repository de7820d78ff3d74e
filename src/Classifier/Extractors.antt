-- ===== src/Classifier/Extractors.antt =====
-- backend/src/coupon-classifier/extractors: the generic extractor, and the choice of an extractor for
-- a sender.
pub mod Patterns
use coupi.Prelude.{
  ℕ, Bool, true, false, not, ◌&&◌, Option, none, some, List, [], ◌∷◌, ◌++◌, if◌then◌else◌, Text,
  units, any, find,
}
use coupi.Domain.{ExtractorType, generic_regex}
use coupi.Regex.{Pattern, exec, test}
use Patterns.{SpamPattern, discount_patterns, condition_patterns, spam_patterns, patterns}
use coupi.Classifier.Validity.{ExtractedCoupon}
use coupi.Classifier.DateParser.{parse_expiry_date, date_parser}

-- CouponExtractor; the context is the instant of receipt.
pub record CouponExtractor : Type 0 where
  pub extractor_type : ExtractorType
  pub can_handle : Text → Bool
  pub extract : Text → Text → Option ℕ → Option ExtractedCoupon

unfoldable pub match_first : Text → List (Pattern Text) → Option Text
match_first text [] = none
match_first text (p ∷ ps) = elim (exec p text) [ none ↦ match_first text ps | some s ↦ some s ]

abbrev is_null : Option Text → Bool
is_null none = true
is_null (some s) = false

-- What one entry of SPAM_PATTERNS says of a text.
unfoldable pub is_spam_phrase : Text → Option Text → SpamPattern → Bool
is_spam_phrase text discount p =
    test p.pattern text && (if p.standalone then is_null discount else true)

unfoldable pub is_spammy : Text → Option Text → Bool
is_spammy text discount = any (is_spam_phrase text discount) spam_patterns

-- `context?.receivedAt ?? new Date()`
abbrev or_now : Option ℕ → ℕ → ℕ
or_now none now = now
or_now (some at) now = at

-- GenericRegexExtractor, at a time `now` in the time zone of the process.
module _ (local_day : ℕ → ℕ) (now : ℕ) where
  unfoldable pub extract_generic : Text → Text → Option ℕ → ExtractedCoupon
  extract_generic subject body_text context =
      let text : Text = subject ++ 10 ∷ body_text in
      let discount = match_first text discount_patterns in
      record {
        discount = discount;
        expiry_date = parse_expiry_date local_day text (or_now context now);
        conditions = match_first text condition_patterns;
        is_spammy = is_spammy text discount;
        extractor_id = units "generic_v1";
      }

  unfoldable pub generic_extractor : CouponExtractor
  generic_extractor = record {
    extractor_type = generic_regex;
    can_handle = λ domain. true;
    extract = λ subject body_text context. some (extract_generic subject body_text context);
  }

-- ExtractorRegistry.resolve: the first sender's extractor that takes the domain, else the generic one.
unfoldable pub resolve : List CouponExtractor → CouponExtractor → Text → CouponExtractor
resolve sender_extractors generic sender_domain =
    elim (find (λ (e : CouponExtractor). e.can_handle sender_domain) sender_extractors) [
      | none ↦ generic
      | some specific ↦ specific
    ]

-- For a test that extracts a coupon.
unfoldable pub extractors : Unit {0}
unfolding patterns date_parser match_first is_spam_phrase is_spammy extract_generic
    generic_extractor resolve
extractors = tt
