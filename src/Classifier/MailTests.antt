-- ===== src/Classifier/MailTests.antt =====
-- Runs of the sender's domain, the rule filter, the generic extractor and the pipeline, and the
-- theorems about them at these inputs.
use coupi.Prelude.{
  ℕ, ◌+◌, ◌*◌, ◌/◌, ◌<◌, ◌≡◌, ◌≢◌, ◌↔◌, ◌⊎◌, inl, refl, true, false, none, some, [], ◌∷◌, ◌++◌,
  List, ltb, if◌then◌else◌, arith, Text, units, All, to_lower_case,
}
use coupi.Prelude.Int.{pos, leb_ℤ}
use coupi.Domain.{filtered_out, extraction_failed}
use coupi.Classifier.Validity.{ExtractedCoupon}
use coupi.Classifier.Sender.{sender_address, extract_sender_domain, matches_domain, sender}
use coupi.Classifier.Sender.Domains.{extract_sender_domain_sound, matches_domain_iff}
use coupi.Classifier.RuleFilter.{
  RuleFilterInput, FilterTables, RuleCache, load_rules, candidates, get_rules, searched_text,
  apply_rules, invalidate_cache, rule_filter,
}
use coupi.Classifier.RuleFilter.Rules.{global_rows, own_rows, candidates-load_rules}
use coupi.Classifier.RuleFilter.Passing.{total_weight, IsListed, apply_rules-passed_iff}
use coupi.Classifier.RuleFilter.Freshness.{
  Call, IsOrdered, answers, IsLoaded, get, load, invalidate, step, run, get_rules-run-fresh,
}
use coupi.Classifier.Extractors.{extract_generic, generic_extractor, extractors}
use coupi.Classifier.Pipeline.{ExtractInput, ClassifyInput, extract_and_judge, classify, pipeline}
use coupi.Classifier.Pipeline.Outcomes.{
  IsNotifiable, IsHeld, IsWorth, coupon_in, IsOfInterest, extract_and_judge-IsNotifiable,
  extract_and_judge-IsHeld, classify-should_notify,
}

abbrev coupang : Text
coupang = units "쿠팡 <no-reply@Mail.Coupang.com>"

coupang_domain : extract_sender_domain coupang ≡ some (units "mail.coupang.com")
unfolding sender
coupang_domain = refl

no_domain : extract_sender_domain (units "nobody@") ≡ none
unfolding sender
no_domain = refl

extract_sender_domain_sound_example :
    (units "mail.coupang.com" ≢ [])
    × All (λ x. x ≢ b'@') (units "mail.coupang.com")
    × (to_lower_case (units "mail.coupang.com") ≡ units "mail.coupang.com")
    × ((front : Text) × (t : Text) × (sender_address coupang ≡ front ++ b'@' ∷ t)
        × (units "mail.coupang.com" ≡ to_lower_case t))
extract_sender_domain_sound_example =
    extract_sender_domain_sound coupang (units "mail.coupang.com") coupang_domain

matches_domain_iff_example :
    (matches_domain (units "evilcoupang.com") (units "coupang.com") ≡ true) ↔ (
      (units "evilcoupang.com" ≡ to_lower_case (units "coupang.com"))
      ⊎ ((p : Text) × (units "evilcoupang.com" ≡ p ++ b'.' ∷ to_lower_case (units "coupang.com"))))
matches_domain_iff_example = matches_domain_iff (units "evilcoupang.com") (units "coupang.com")

look_alike : matches_domain (units "evilcoupang.com") (units "coupang.com") ≡ false
unfolding sender
look_alike = refl

abbrev tables : FilterTables
tables = record {
  filter_domain =
      record { domain = units "coupang.com"; is_global = none; user_id = none }
      ∷ record { domain = units "mine.kr"; is_global = some false; user_id = some (units "u1") }
      ∷ record { domain = units "other.kr"; is_global = some false; user_id = some (units "u2") }
      ∷ [];
  filter_keyword =
      record { keyword = units "쿠폰"; weight = none }
      ∷ record { keyword = units "% off"; weight = some (pos 2) }
      ∷ [];
}

abbrev rules : RuleCache
rules = load_rules tables 0

candidates-load_rules_example :
    candidates (load_rules tables 0) (units "u1")
    ≡ global_rows tables.filter_domain ++ own_rows (units "u1") tables.filter_domain
candidates-load_rules_example = candidates-load_rules tables 0 (units "u1") cc

u1_candidates : candidates rules (units "u1") ≡ units "coupang.com" ∷ units "mine.kr" ∷ []
unfolding rule_filter
u1_candidates = refl

abbrev from_coupang : RuleFilterInput
from_coupang = record {
  user_id = units "u1";
  sender = coupang;
  subject = units "hello";
  body_text = none;
}

rules-named : All (λ (d : Text). d ≢ []) (candidates rules from_coupang.user_id)
rules-named = rw u1_candidates (cc, (cc, tt))

coupang-IsListed : IsListed rules from_coupang
unfolding rule_filter
coupang-IsListed = (units "mail.coupang.com", units "coupang.com", refl, inl refl, refl)

apply_rules-passed_iff_example : ((apply_rules rules from_coupang).passed ≡ true) ↔ (
    IsListed rules from_coupang
    ⊎ (leb_ℤ (pos 1) (total_weight (searched_text from_coupang) rules.keywords) ≡ true))
apply_rules-passed_iff_example = apply_rules-passed_iff rules from_coupang rules-named

abbrev by_keyword : RuleFilterInput
by_keyword = record from_coupang { sender = units "a@b.c"; subject = units "15%OFF" }

keyword_test : (apply_rules rules by_keyword).keyword_score ≡ some (pos 2)
unfolding rule_filter
keyword_test = refl

-- The keywords are emptied at the instant 7.
abbrev changing : ℕ → FilterTables
changing at = if ltb at 7 then tables else record tables { filter_keyword = [] }

-- The overlapping call that ends has read the domains before the change and the keywords after it.
abbrev calls : List Call
calls = get 0 1 2 5 ∷ invalidate ∷ load 6 7 8 ∷ get 300000 300001 300002 300003 ∷ []

calls-IsOrdered : All IsOrdered calls
calls-IsOrdered = (omega arith, (tt, (omega arith, (omega arith, tt))))

-- A millisecond before the rules are five minutes old they are still used, and then no more.
young_test :
    (get_rules (answers changing 300008 300009) 300007 300010 (run changing calls none)).loaded_at
    ≡ 8
unfolding rule_filter run step invalidate_cache
young_test = refl

old_test :
    (get_rules (answers changing 300009 300009) 300008 300010 (run changing calls none)).loaded_at
    ≡ 300010
unfolding rule_filter run step invalidate_cache
old_test = refl

get_rules-run-fresh_example :
    let used = get_rules (answers changing 300008 300009) 300007 300010 (run changing calls none) in
    IsLoaded changing used × (300007 < used.loaded_at + 300000)
get_rules-run-fresh_example =
    get_rules-run-fresh changing calls 300007 300008 300009 300010 calls-IsOrdered
      (omega arith, omega arith, omega arith, omega arith)

abbrev utc : ℕ → ℕ
utc at = at / 86400000

-- 22 September 2026.
abbrev received : ℕ
received = 740246 * 86400000

abbrev mail : ExtractInput
mail = record {
  sender = coupang;
  subject = units "[쿠팡] 15% 할인 쿠폰이 도착했어요";
  body_text = units "30,000원 이상 구매 시 사용 가능합니다. 10/15까지 사용하세요.";
  received_at = received;
}

abbrev found : ExtractedCoupon
found = record {
  discount = some (units "15%");
  expiry_date = some (units "2026-10-15");
  conditions = some (units "30,000원 이상 구매 시");
  is_spammy = false;
  extractor_id = units "generic_v1";
}

extract_test : extract_generic utc received mail.subject mail.body_text (some received) ≡ found
unfolding extractors
extract_test = refl

mail_notified :
    (extract_and_judge [] (generic_extractor utc received) mail received).should_notify ≡ true
unfolding pipeline
mail_notified = refl

extract_and_judge-IsNotifiable_example :
    IsNotifiable received (extract_and_judge [] (generic_extractor utc received) mail received)
extract_and_judge-IsNotifiable_example =
    extract_and_judge-IsNotifiable [] (generic_extractor utc received) mail received mail_notified

extract_and_judge-IsHeld_example :
    ((extract_and_judge [] (generic_extractor utc received) mail received).filter_result
      ≡ extraction_failed)
    ↔ IsHeld (extract_and_judge [] (generic_extractor utc received) mail received).extracted
extract_and_judge-IsHeld_example =
    extract_and_judge-IsHeld [] (generic_extractor utc received) mail received

abbrev whole : ClassifyInput
whole = record { input = mail; user_id = units "u1" }

classify-should_notify_example :
    let out = classify [] (generic_extractor utc received) rules whole received in
    ((out.outcome.should_notify ≡ true) ↔ (
      IsOfInterest rules whole
      × IsWorth received (coupon_in [] (generic_extractor utc received) mail)))
    × ((out.outcome.filter_result ≡ filtered_out) ↔ ¬ IsOfInterest rules whole)
classify-should_notify_example =
    classify-should_notify [] (generic_extractor utc received) rules whole received rules-named

whole_notified :
    (classify [] (generic_extractor utc received) rules whole received).outcome.should_notify ≡ true
unfolding pipeline
whole_notified = refl
