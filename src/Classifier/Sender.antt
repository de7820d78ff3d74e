-- ===== src/Classifier/Sender.antt =====
-- backend/src/coupon-classifier/sender.util.ts: the domain of a mail's sender.
pub mod Domains
use coupi.Prelude.{
  ℕ, Bool, true, false, ◌&&◌, ◌||◌, not, Option, none, some, List, [], ◌∷◌, ◌==◌, if◌then◌else◌,
  Text, units, text_eq, to_lower_case, lower_unit, after_last, ends_with,
}
use coupi.Regex.{Pattern, ◌>>=◌, ◌>>◌, capture, literal, some_of, exec, trim, regex}

-- `/<([^>]+)>/`
unfoldable pub angle_address : Pattern Text
angle_address = do
  literal (units "<")
  address ← some_of (λ c. not (c == b'>'))
  literal (units ">")
  capture address

unfoldable pub sender_address : Text → Text
sender_address sender = trim (elim (exec angle_address sender) [ none ↦ sender | some a ↦ a ])

abbrev non_empty_lower : Option Text → Option Text
non_empty_lower none = none
non_empty_lower (some []) = none
non_empty_lower (some (c ∷ s)) = some (to_lower_case (c ∷ s))

unfoldable pub extract_sender_domain : Text → Option Text
extract_sender_domain sender = non_empty_lower (after_last b'@' (sender_address sender))

unfoldable pub matches_domain : Text → Text → Bool
matches_domain sender_domain whitelisted =
    let target = to_lower_case whitelisted in
    text_eq sender_domain target || ends_with sender_domain (b'.' ∷ target)

-- For a test that reads a sender.
unfoldable pub sender : Unit {0}
unfolding angle_address sender_address extract_sender_domain matches_domain regex text_eq
    to_lower_case lower_unit after_last ends_with
sender = tt
