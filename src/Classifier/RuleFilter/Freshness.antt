-- ===== src/Classifier/RuleFilter/Freshness.antt =====
-- How old the cached rules can be.
use coupi.Prelude.{
  ℕ, ◌+◌, ◌≤◌, ◌<◌, ◌≡◌, refl, Option, none, some, List, [], ◌∷◌, arith, ltb, Bool-cases, inl, inr,
  All,
}
use coupi.Classifier.RuleFilter.{
  RuleCache, FilterTables, cache_ttl_ms, load_rules, get_rules, invalidate_cache,
}

-- What happens to the cache. A `getRules` tests it at `now`, and reads the domains, the keywords and
-- the clock afterwards if need be; one that overlaps others and has found the cache too old comes to
-- its end; the cache is invalidated.
pub data Call : Type 0 where
  get : (now domains_at keywords_at later : ℕ) → Call
  load : (domains_at keywords_at later : ℕ) → Call
  invalidate : Call

-- The clock runs on during a call.
abbrev pub IsOrdered : Call → Type 0
IsOrdered (get now domains_at keywords_at later) =
    (now ≤ domains_at) × (now ≤ keywords_at) × (domains_at ≤ later) × (keywords_at ≤ later)
IsOrdered (load domains_at keywords_at later) = (domains_at ≤ later) × (keywords_at ≤ later)
IsOrdered invalidate = Unit {0}

-- The two tables at every instant.
module _ (tables : ℕ → FilterTables) where
  -- What two queries answer at instants of their own.
  abbrev pub answers : ℕ → ℕ → FilterTables
  answers domains_at keywords_at = record {
    filter_domain = (tables domains_at).filter_domain;
    filter_keyword = (tables keywords_at).filter_keyword;
  }

  -- The rules are those of the domains at an instant and of the keywords at an instant, neither later
  -- than the time that the rules carry.
  abbrev pub IsLoaded : RuleCache → Type 0
  IsLoaded rules =
      (domains_at : ℕ) × (keywords_at : ℕ) × (domains_at ≤ rules.loaded_at)
      × (keywords_at ≤ rules.loaded_at)
      × (rules ≡ load_rules (answers domains_at keywords_at) rules.loaded_at)

  abbrev IsLoadedCache : Option RuleCache → Type 0
  IsLoadedCache none = Unit {0}
  IsLoadedCache (some rules) = IsLoaded rules

  unfoldable pub step : Call → Option RuleCache → Option RuleCache
  step (get now domains_at keywords_at later) cache =
      some (get_rules (answers domains_at keywords_at) now later cache)
  step (load domains_at keywords_at later) cache =
      some (load_rules (answers domains_at keywords_at) later)
  step invalidate cache = invalidate_cache cache

  unfoldable pub run : List Call → Option RuleCache → Option RuleCache
  run [] cache = cache
  run (c ∷ cs) cache = run cs (step c cache)

  IsLoaded-load_rules :
      (d k later : ℕ) → d ≤ later → k ≤ later → IsLoaded (load_rules (answers d k) later)
  IsLoaded-load_rules d k later a b = unfold load_rules in (d, k, a, b, refl)

  get_rules-IsLoaded :
      (now d k later : ℕ) (cache : Option RuleCache)
      → d ≤ later
      → k ≤ later
      → IsLoadedCache cache
      → IsLoaded (get_rules (answers d k) now later cache)
  unfolding get_rules
  get_rules-IsLoaded now d k later none a b h = IsLoaded-load_rules d k later a b
  get_rules-IsLoaded now d k later (some rules) a b h =
      elim (Bool-cases (ltb now (rules.loaded_at + cache_ttl_ms))) [
        | inl young ↦ rw young h
        | inr old ↦ rw old (IsLoaded-load_rules d k later a b)
      ]

  get_rules-lt :
      (now later : ℕ) (answered : FilterTables) (cache : Option RuleCache)
      → now ≤ later
      → now < (get_rules answered now later cache).loaded_at + 300000
  unfolding get_rules load_rules
  get_rules-lt now later answered none le = omega arith
  get_rules-lt now later answered (some rules) le = ground arith

  run-IsLoadedCache :
      (cs : List Call) (cache : Option RuleCache)
      → All IsOrdered cs
      → IsLoadedCache cache
      → IsLoadedCache (run cs cache)
  unfolding run step invalidate_cache
  run-IsLoadedCache [] cache ordered h = h
  run-IsLoadedCache (get now d k later ∷ cs) cache ((a, b, c, e), ordered) h =
      run-IsLoadedCache cs _ ordered (get_rules-IsLoaded now d k later cache c e h)
  run-IsLoadedCache (load d k later ∷ cs) cache ((a, b), ordered) h =
      run-IsLoadedCache cs _ ordered (IsLoaded-load_rules d k later a b)
  run-IsLoadedCache (invalidate ∷ cs) cache (a, ordered) h = run-IsLoadedCache cs none ordered tt

  -- Whatever has happened to the cache, overlapping calls included, if the clock does not run back
  -- during a call, the rules that a mail is filtered by were stamped less than 300000 milliseconds, five
  -- minutes, before the test of the cache, or after it; and they are those of the rows that the two
  -- queries answered, each at an instant of its own that is not later than the stamp.
  pub get_rules-run-fresh :
      (cs : List Call) (now domains_at keywords_at later : ℕ)
      → All IsOrdered cs
      → IsOrdered (get now domains_at keywords_at later)
      → IsLoaded (get_rules (answers domains_at keywords_at) now later (run cs none))
        × (now
            < (get_rules (answers domains_at keywords_at) now later (run cs none)).loaded_at
              + 300000)
  get_rules-run-fresh cs now d k later ordered (a, b, c, e) = (
    get_rules-IsLoaded now d k later (run cs none) c e (run-IsLoadedCache cs none ordered tt),
    get_rules-lt now later (answers d k) (run cs none) (omega arith),
  )
