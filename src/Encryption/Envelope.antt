-- ===== src/Encryption/Envelope.antt =====
-- A text that is joined by a separator and split again.
use coupi.Prelude.{ℕ, ◌≡◌, sym, ap, ◌∙◌, arith, true, false, List, [], ◌∷◌, ◌++◌, ◌==◌, All, Text}
use coupi.Numerals.{split, split_from}
use mathlib.Core.List.{append_assoc, append-nil}

-- `parts.join(':')`
unfoldable pub join : ℕ → List Text → Text
join sep [] = []
join sep (x ∷ []) = x
join sep (x ∷ y ∷ xs) = x ++ sep ∷ join sep (y ∷ xs)

abbrev pub IsFree : ℕ → Text → Type 0
IsFree sep s = All (λ c. (c == sep) ≡ false) s

split_from-end : (sep : ℕ) (cur s : Text) → IsFree sep s → split_from sep cur s ≡ (cur ++ s) ∷ []
unfolding split_from
split_from-end sep cur [] h = ap (λ x. x ∷ []) (sym (append-nil cur))
split_from-end sep cur (c ∷ s) (other, h) =
    rw other
      (split_from-end sep (cur ++ c ∷ []) s h ∙ ap (λ x. x ∷ []) (append_assoc cur (c ∷ []) s))

sep_self : (sep : ℕ) → (sep == sep) ≡ true
sep_self sep = ground arith

split_from-append :
    (sep : ℕ) (cur s rest : Text)
    → IsFree sep s
    → split_from sep cur (s ++ sep ∷ rest) ≡ (cur ++ s) ∷ split_from sep [] rest
unfolding split_from
split_from-append sep cur [] rest h =
    rw (sep_self sep) (ap (λ x. x ∷ split_from sep [] rest) (sym (append-nil cur)))
split_from-append sep cur (c ∷ s) rest (other, h) = rw other (
    split_from-append sep (cur ++ c ∷ []) s rest h
    ∙ ap (λ x. x ∷ split_from sep [] rest) (append_assoc cur (c ∷ []) s))

-- Parts without the separator come back from their join.
pub split-join :
    (sep : ℕ) (x : Text) (xs : List Text)
    → All (IsFree sep) (x ∷ xs)
    → split sep (join sep (x ∷ xs)) ≡ x ∷ xs
unfolding split join
split-join sep x [] (h, hs) = split_from-end sep [] x h
split-join sep x (y ∷ xs) (h, hs) =
    split_from-append sep [] x _ h ∙ ap (λ l. x ∷ l) (split-join sep y xs hs)
