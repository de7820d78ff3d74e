-- ===== src/Classifier/Pipeline.antt =====
-- backend/src/coupon-classifier/coupon-classifier.service.ts: the three stages of the classifier.
pub mod Outcomes
use coupi.Prelude.{ℕ, Bool, true, false, Option, none, some, List, [], if◌then◌else◌, Text}
use coupi.Domain.{ExtractorType, FilterResult, passed, filtered_out, extraction_failed}
use coupi.Classifier.Validity
use coupi.Classifier.Validity.{ExtractedCoupon, ValidityVerdict, ValidityResult, check, validity}
use coupi.Classifier.Sender.{extract_sender_domain}
use coupi.Classifier.RuleFilter.{
  RuleFilterInput, RuleFilterResult, RuleCache, apply_rules, rule_filter,
}
use coupi.Classifier.Extractors.{CouponExtractor, resolve, extractors}

pub record ExtractInput : Type 0 where
  pub sender : Text
  pub subject : Text
  pub body_text : Text
  pub received_at : ℕ

pub record ClassifyInput : Type 0 where
  pub input : ExtractInput
  pub user_id : Text

pub record ExtractOutcome : Type 0 where
  pub filter_result : FilterResult
  pub extracted : Option ExtractedCoupon
  pub extractor_type : Option ExtractorType
  pub validity : Option ValidityResult
  pub should_notify : Bool

pub record ClassifyOutput : Type 0 where
  pub outcome : ExtractOutcome
  pub rule_filter : RuleFilterResult

-- `extractSenderDomain(...) ?? ''`
abbrev pub domain_or_empty : Option Text → Text
domain_or_empty none = []
domain_or_empty (some d) = d

-- `verdict === 'extraction_failed' ? 'extraction_failed' : 'passed'`
unfoldable pub filter_result_of : ValidityVerdict → FilterResult
filter_result_of ValidityVerdict.extraction_failed = extraction_failed
filter_result_of _ = passed

unfoldable pub judge : ExtractorType → ℕ → Option ExtractedCoupon → ExtractOutcome
judge extractor_type now none = record {
  filter_result = extraction_failed;
  extracted = none;
  extractor_type = some extractor_type;
  validity = none;
  should_notify = false;
}
judge extractor_type now (some extracted) =
    let validity = check extracted now in
    record {
      filter_result = filter_result_of validity.verdict;
      extracted = some extracted;
      extractor_type = some extractor_type;
      validity = some validity;
      should_notify = validity.usable_now;
    }

-- The argument of `apply`.
abbrev pub filter_input : ClassifyInput → RuleFilterInput
filter_input c = record {
  user_id = c.user_id;
  sender = c.input.sender;
  subject = c.input.subject;
  body_text = some c.input.body_text;
}

-- The extractors that are registered for senders, and the generic one.
module _ (sender_extractors : List CouponExtractor) (generic : CouponExtractor) where
  unfoldable pub extract_and_judge : ExtractInput → ℕ → ExtractOutcome
  extract_and_judge input now =
      let extractor =
        resolve sender_extractors generic (domain_or_empty (extract_sender_domain input.sender)) in
      judge extractor.extractor_type now
        (extractor.extract input.subject input.body_text (some input.received_at))

  -- `classify`, with the rules that the filter has loaded.
  unfoldable pub classify : RuleCache → ClassifyInput → ℕ → ClassifyOutput
  classify rules c now =
      let rule_filter = apply_rules rules (filter_input c) in
      if rule_filter.passed
      then record { outcome = extract_and_judge c.input now; rule_filter = rule_filter }
      else record {
        outcome = record {
          filter_result = filtered_out;
          extracted = none;
          extractor_type = none;
          validity = none;
          should_notify = false;
        };
        rule_filter = rule_filter;
      }

-- For a test that classifies a mail.
unfoldable pub pipeline : Unit {0}
unfolding validity rule_filter extractors filter_result_of judge extract_and_judge classify
pipeline = tt
