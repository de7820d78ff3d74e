-- ===== src/Gmail/Bodies.antt =====
-- What the classifier is given of a mail's body.
use coupi.Prelude.{
  ℕ, zero, suc, ◌≤◌, ◌≡◌, refl, [], ◌∷◌, ◌++◌, length, take, ltb, arith, Text, Bool-cases, inl, inr,
  if◌then◌else◌, sym,
}
use mathlib.Core.List.{append-nil}
use coupi.Gmail.{MailBody}
use coupi.Gmail.Messages.{max_body_text_length, text_or, html_or_empty, to_plain_text}

take-length : (n : ℕ) (s : Text) → length (take n s) ≤ n
take-length zero s = omega arith
take-length (suc n) [] = omega arith
take-length (suc n) (c ∷ s) = omega (arith, take-length n s)

take-prefix : (n : ℕ) (s : Text) → (rest : Text) × (s ≡ take n s ++ rest)
take-prefix zero s = (s, refl)
take-prefix (suc n) [] = ([], refl)
take-prefix (suc n) (c ∷ s) = let (rest, e) = take-prefix n s in (rest, λ i. c ∷ e i)

-- The classifier reads at most 4000 units of a body, which stand at the front of its plain text, or of
-- the text of its HTML when it has no plain text.
pub to_plain_text_bounds :
    (body : MailBody)
    → (length (to_plain_text body) ≤ 4000)
      × ((rest : Text) × (text_or body.text (html_or_empty body.html) ≡ to_plain_text body ++ rest))
unfolding to_plain_text
to_plain_text_bounds body = cut (text_or body.text (html_or_empty body.html))
  where
    cut :
        (text : Text)
        → let read =
            (if ltb max_body_text_length (length text)
              then take max_body_text_length text
              else text) in
          (length read ≤ 4000) × ((rest : Text) × (text ≡ read ++ rest))
    cut text = elim (Bool-cases (ltb max_body_text_length (length text))) [
      | inl long ↦ rw long (take-length 4000 text, take-prefix 4000 text)
      | inr short ↦ rw short (ground arith, ([], sym (append-nil text)))
    ]
