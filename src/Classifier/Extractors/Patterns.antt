-- ===== src/Classifier/Extractors/Patterns.antt =====
-- backend/src/coupon-classifier/extractors/patterns.ts: discounts, conditions and spam.
use coupi.Prelude.{
  ℕ, Bool, true, false, ◌||◌, ◌&&◌, List, [], ◌∷◌, ◌++◌, ◌==◌, leb, Text, units, without_class,
}
use coupi.Regex.{
  Pattern, ◌>>=◌, ◌>>◌, capture, literal, between, some_of, either, digit_class, spaces,
  space_class, regex,
}

-- `[\d,]`
abbrev price_class : ℕ → Bool
price_class c = digit_class c || c == b','

-- `[\w가-힣]`
abbrev word_class : ℕ → Bool
word_class c =
    digit_class c
    || (leb b'A' c && leb c b'Z')
    || (leb b'a' c && leb c b'z')
    || c == b'_'
    || (leb 0xac00 c && leb c 0xd7a3)

-- DISCOUNT_PATTERNS, each with what its `format` makes of the captures.
unfoldable pub percent_discount : Pattern Text
percent_discount = do
  n ← between 1 3 digit_class
  spaces
  literal (units "%")
  spaces
  either (literal (units "할인"))
      (either (literal (units "OFF")) (either (literal (units "off")) (literal (units "Off"))))
  capture (n ++ units "%")

unfoldable pub won_discount : Pattern Text
won_discount = do
  n ← some_of price_class
  spaces
  literal (units "원")
  spaces
  literal (units "할인")
  capture (n ++ units "원")

unfoldable pub won_coupon : Pattern Text
won_coupon = do
  n ← some_of price_class
  spaces
  literal (units "원")
  spaces
  literal (units "쿠폰")
  capture (n ++ units "원")

unfoldable pub discount_patterns : List (Pattern Text)
discount_patterns = percent_discount ∷ won_discount ∷ won_coupon ∷ []

abbrev said : Text → Pattern Text
said w = do literal w; capture w

-- CONDITION_PATTERNS
unfoldable pub minimum_condition : Pattern Text
minimum_condition = do
  n ← some_of price_class
  gap ← spaces
  literal (units "원")
  spaces
  literal (units "이상")
  spaces
  deed ← either (said (units "구매")) (said (units "결제"))
  spaces
  literal (units "시")
  capture (without_class space_class (n ++ gap ++ units "원") ++ units " 이상 " ++ deed ++ units " 시")

unfoldable pub only_condition : Pattern Text
only_condition = do w ← some_of word_class; spaces; literal (units "한정"); capture (w ++ units " 한정")

unfoldable pub condition_patterns : List (Pattern Text)
condition_patterns = minimum_condition ∷ only_condition ∷ []

pub record SpamPattern : Type 0 where
  pub pattern : Pattern (Unit {0})
  pub standalone : Bool

-- Words with any white space between them.
unfoldable pub words : List Text → Pattern (Unit {0})
words [] = capture tt
words (w ∷ []) = literal w
words (w ∷ v ∷ ws) = do literal w; spaces; words (v ∷ ws)

abbrev spam : List Text → Bool → SpamPattern
spam ws alone = record { pattern = words ws; standalone = alone }

-- SPAM_PATTERNS
unfoldable pub spam_patterns : List SpamPattern
spam_patterns =
    spam (units "설문" ∷ units "조사" ∷ []) false
    ∷ spam (units "무료" ∷ units "체험" ∷ units "신청" ∷ []) false
    ∷ spam (units "회원" ∷ units "가입만" ∷ units "해도" ∷ []) false
    ∷ spam (units "지금" ∷ units "안" ∷ units "사면" ∷ []) true
    ∷ spam (units "마지막" ∷ units "기회" ∷ []) true
    ∷ []

-- For a test that matches these patterns.
unfoldable pub patterns : Unit {0}
unfolding regex percent_discount won_discount won_coupon discount_patterns minimum_condition
    only_condition condition_patterns words spam_patterns without_class
patterns = tt
