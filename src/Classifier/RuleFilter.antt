-- ===== src/Classifier/RuleFilter.antt =====
-- backend/src/coupon-classifier/rule-filter.service.ts: stage one, the listed domains and keywords.
pub mod Rules
pub mod Passing
pub mod Freshness
use coupi.Prelude.{
  ℕ, ◌+◌, ◌-◌, ◌*◌, Bool, true, false, ◌||◌, Option, none, some, List, [], ◌∷◌, ◌++◌, ltb,
  if◌then◌else◌, Text, units, text_eq, to_lower_case, includes, starts_with, without_class, find,
}
use coupi.Prelude.Int.{ℤ, pos, ◌+ℤ◌, leb_ℤ}
use coupi.Regex.{space_class}
use coupi.Classifier.Sender.{extract_sender_domain, matches_domain, sender as sender_bundle}

abbrev pub min_keyword_score : ℤ
min_keyword_score = pos 1

abbrev pub cache_ttl_ms : ℕ
cache_ttl_ms = 5 * 60 * 1000

pub record RuleFilterInput : Type 0 where
  pub user_id : Text
  pub sender : Text
  pub subject : Text
  pub body_text : Option Text

pub data RuleFilterReason : Type 0 where
  domain_whitelist keyword_match no_match : RuleFilterReason

pub record RuleFilterResult : Type 0 where
  pub passed : Bool
  pub reason : RuleFilterReason
  pub matched_domain : Option Text
  pub matched_keywords : Option (List Text)
  pub keyword_score : Option ℤ

pub record Keyword : Type 0 where
  pub keyword : Text
  pub weight : ℤ

-- The map of `userDomains` holds each key once; a list of pairs, read from the front.
pub record RuleCache : Type 0 where
  pub loaded_at : ℕ
  pub global_domains : List Text
  pub user_domains : List (Text × List Text)
  pub keywords : List Keyword

-- The columns that are read of filter_domains and filter_keywords.
pub record FilterDomain : Type 0 where
  pub domain : Text
  pub is_global : Option Bool
  pub user_id : Option Text

pub record FilterKeyword : Type 0 where
  pub keyword : Text
  pub weight : Option ℤ

-- The answers of the queries of the two tables.
pub record FilterTables : Type 0 where
  pub filter_domain : List FilterDomain
  pub filter_keyword : List FilterKeyword

unfoldable pub strip_whitespace : Text → Text
strip_whitespace value = without_class space_class value

-- `userDomains.get(userId) ?? []`
unfoldable pub domains_of : Text → List (Text × List Text) → List Text
domains_of user [] = []
domains_of user ((k, list) ∷ m) = if text_eq k user then list else domains_of user m

-- `userDomains.set(userId, list)`
unfoldable pub set_domains : Text → List Text → List (Text × List Text) → List (Text × List Text)
set_domains user list [] = (user, list) ∷ []
set_domains user list ((k, old) ∷ m) =
    if text_eq k user then (k, list) ∷ m else (k, old) ∷ set_domains user list m

-- What the loop has collected.
pub record DomainLists : Type 0 where
  pub global_domains : List Text
  pub user_domains : List (Text × List Text)

unfoldable pub add_user_domain : Text → Option Text → DomainLists → DomainLists
add_user_domain domain none s = s
add_user_domain domain (some []) s = s
add_user_domain domain (some (c ∷ id)) s =
    let list = domains_of (c ∷ id) s.user_domains in
    record s { user_domains = set_domains (c ∷ id) (list ++ domain ∷ []) s.user_domains }

-- `row.isGlobal !== false`
abbrev is_global_row : Option Bool → Bool
is_global_row none = true
is_global_row (some b) = b

unfoldable pub add_domain : FilterDomain → DomainLists → DomainLists
add_domain row s =
    if is_global_row row.is_global
    then record s { global_domains = s.global_domains ++ row.domain ∷ [] }
    else add_user_domain row.domain row.user_id s

-- The loop over the rows of filter_domains.
unfoldable pub collect_domains : List FilterDomain → DomainLists → DomainLists
collect_domains [] s = s
collect_domains (row ∷ rows) s = collect_domains rows (add_domain row s)

-- `k.weight ?? 1`
abbrev pub weight_or_1 : Option ℤ → ℤ
weight_or_1 none = pos 1
weight_or_1 (some w) = w

unfoldable pub to_keywords : List FilterKeyword → List Keyword
to_keywords [] = []
to_keywords (k ∷ ks) =
    record { keyword = k.keyword; weight = weight_or_1 k.weight } ∷ to_keywords ks

unfoldable pub load_rules : FilterTables → ℕ → RuleCache
load_rules tables at =
    let s =
      collect_domains tables.filter_domain (record { global_domains = []; user_domains = [] }) in
    record {
      loaded_at = at;
      global_domains = s.global_domains;
      user_domains = s.user_domains;
      keywords = to_keywords tables.filter_keyword;
    }

-- `getRules`: the rules that are used, which are in the cache afterwards. `now` is the time of the
-- test, the tables are the rows that the two queries have answered, each at a time of its own, and
-- `later` is the time when both have answered.
unfoldable pub get_rules : FilterTables → ℕ → ℕ → Option RuleCache → RuleCache
get_rules tables now later none = load_rules tables later
get_rules tables now later (some cache) =
    if ltb now (cache.loaded_at + cache_ttl_ms) then cache else load_rules tables later

unfoldable pub invalidate_cache : Option RuleCache → Option RuleCache
invalidate_cache cache = none

-- `text.includes(needle) || compact.includes(stripWhitespace(needle))`
unfoldable pub hits : Text → Text → Bool
hits text keyword =
    let needle = to_lower_case keyword in
    includes text needle || includes (strip_whitespace text) (strip_whitespace needle)

pub record KeywordScore : Type 0 where
  pub matched_keywords : List Text
  pub score : ℤ

-- One round of the loop over the keywords.
unfoldable pub add_keyword : Text → Keyword → KeywordScore → KeywordScore
add_keyword text k s =
    if hits text k.keyword
    then record {
      matched_keywords = s.matched_keywords ++ k.keyword ∷ [];
      score = s.score +ℤ k.weight;
    }
    else s

unfoldable pub score_keywords : Text → List Keyword → KeywordScore → KeywordScore
score_keywords text [] s = s
score_keywords text (k ∷ ks) s = score_keywords text ks (add_keyword text k s)

-- `input.bodyText ?? ''`
abbrev pub body_or_empty : Option Text → Text
body_or_empty none = []
body_or_empty (some t) = t

unfoldable pub searched_text : RuleFilterInput → Text
searched_text input = to_lower_case (input.subject ++ 10 ∷ body_or_empty input.body_text)

unfoldable pub match_keywords : RuleCache → RuleFilterInput → RuleFilterResult
match_keywords rules input =
    let s =
      score_keywords (searched_text input) rules.keywords
        (record { matched_keywords = []; score = pos 0 }) in
    if leb_ℤ min_keyword_score s.score
    then record {
      passed = true;
      reason = keyword_match;
      matched_domain = none;
      matched_keywords = some s.matched_keywords;
      keyword_score = some s.score;
    }
    else record {
      passed = false;
      reason = no_match;
      matched_domain = none;
      matched_keywords = none;
      keyword_score = some s.score;
    }

unfoldable pub candidates : RuleCache → Text → List Text
candidates rules user = rules.global_domains ++ domains_of user rules.user_domains

-- `if (matched)`: the empty domain is not taken.
unfoldable pub by_domain : RuleCache → RuleFilterInput → Option Text → RuleFilterResult
by_domain rules input none = match_keywords rules input
by_domain rules input (some []) = match_keywords rules input
by_domain rules input (some (c ∷ d)) = record {
  passed = true;
  reason = domain_whitelist;
  matched_domain = some (c ∷ d);
  matched_keywords = none;
  keyword_score = none;
}

unfoldable pub find_domain : RuleCache → Text → Option Text → Option Text
find_domain rules user none = none
find_domain rules user (some sender_domain) =
    find (λ d. matches_domain sender_domain d) (candidates rules user)

-- `apply`, with the rules that `getRules` has given.
unfoldable pub apply_rules : RuleCache → RuleFilterInput → RuleFilterResult
apply_rules rules input =
    by_domain rules input (find_domain rules input.user_id (extract_sender_domain input.sender))

-- For a test that filters a mail.
unfoldable pub rule_filter : Unit {0}
unfolding sender_bundle includes starts_with without_class strip_whitespace ◌+ℤ◌ domains_of
    set_domains add_user_domain add_domain collect_domains to_keywords load_rules get_rules hits
    add_keyword score_keywords searched_text match_keywords candidates by_domain find_domain
    apply_rules
rule_filter = tt
