-- ===== src/MailIngest/Redelivery.antt =====
-- What a second delivery of the same mails does, by the unique constraint of processed_mails.
use coupi.Prelude.{
  ◌≡◌, refl, sym, ap, ◌∙◌, Bool, true, false, ◌&&◌, ◌||◌, Option, none, some, arith, Text, text_eq,
  text_eq_refl, inl, inr,
}
use coupi.Effects.{
  Exec, Result, Thrown, ok, thrown, reauth_required_error, history_expired_error, unique_violation,
  out_of_fuel, other_error, pure, throw, resume, ◌>>=◌,
}
use coupi.Effects.Calls.{bind-ok, Result-cases, pure-ok, catch-ok}
use coupi.Gmail.{RawMailMessage}
use coupi.Accounts.{MailAccountWithToken}
use coupi.Classifier.RuleFilter.{RuleCache, apply_rules}
use coupi.MailIngest.{
  IngestWorld, NewMail, new_mail, filter_input, null_if_duplicate, create_or_null,
  insert_processed_mail, passes,
}

abbrev pub is_some : Option Text → Bool
is_some none = false
is_some (some s) = true

-- What is documented of the table, seen by the pairs of an account and a message that it holds: a
-- query answers by them, a creation adds its pair, and is refused as a duplicate when the pair is
-- there. No call removes a pair. The rules of the filter do not change.
pub record IsMailTable {W : Type 0} (world : IngestWorld W) (rules : RuleCache)
    (stored : W → Text → Text → Bool) : Type 0 where
  pub rules_same :
      (w w' : W) (r : RuleCache)
      → world.get_rules w ≡ (ok r, w')
      → (r ≡ rules) × (stored w' ≡ stored w)
  pub find_pair :
      (account message : Text) (w w' : W) (found : Option Text)
      → world.find_mail account message w ≡ (ok found, w')
      → (is_some found ≡ stored w account message) × (stored w' ≡ stored w)
  pub create_pair :
      (mail : NewMail) (w w' : W) (id : Text)
      → world.create_mail mail w ≡ (ok id, w')
      → (account message : Text)
      → stored w' account message ≡ (
          stored w account message
          || (text_eq mail.mail_account_id account && text_eq mail.provider_message_id message))
  pub refused_pair :
      (mail : NewMail) (w w' : W)
      → world.create_mail mail w ≡ (thrown unique_violation, w')
      → (stored w' mail.mail_account_id mail.provider_message_id ≡ true)
        × ((account message : Text)
            → stored w account message ≡ true
            → stored w' account message ≡ true)

null_if_duplicate-ok :
    {W : Type 0} (x : Thrown) (u w : W) (id : Option Text)
    → null_if_duplicate x u ≡ (ok id, w)
    → (x ≡ unique_violation) × (id ≡ none) × (u ≡ w)
unfolding null_if_duplicate pure throw
null_if_duplicate-ok unique_violation u w id e = (refl, cc, cc)
null_if_duplicate-ok (reauth_required_error reason) u w id e = cc
null_if_duplicate-ok (history_expired_error cursor) u w id e = cc
null_if_duplicate-ok out_of_fuel u w id e = cc
null_if_duplicate-ok (other_error status m) u w id e = cc

bind_pure-thrown :
    {W : Type 0} (m : Exec W Text) (x : Thrown) (w u : W)
    → (m >>= λ i. pure (some i)) w ≡ (thrown x, u)
    → m w ≡ (thrown x, u)
unfolding ◌>>=◌ resume pure
bind_pure-thrown m x w u e = elim (Result-cases (m w)) [
  | inl (i, v, first) ↦ cc (rw first at e)
  | inr (y, v, first) ↦
      let g : ◌≡◌ {A = Result (Option Text) × _} (thrown y, v) (thrown x, u) = rw first at e in
      let a : y ≡ x = cc in let b : v ≡ u = cc in first ∙ λ i. (thrown (a i), b i)
]

module _ {W : Type 0} (world : IngestWorld W) (rules : RuleCache) (stored : W → Text → Text → Bool)
    (table : IsMailTable world rules stored) where
  -- Every pair of the one state is there in the other.
  abbrev pub Keeps : W → W → Type 0
  Keeps w w' =
      (account message : Text) → stored w account message ≡ true → stored w' account message ≡ true

  create_or_null-stored :
      (mail : NewMail) (found id : Option Text) (w w' : W)
      → (is_some found ≡ stored w mail.mail_account_id mail.provider_message_id)
      → create_or_null world mail found w ≡ (ok id, w')
      → (stored w' mail.mail_account_id mail.provider_message_id ≡ true)
        × Keeps w w'
        × (stored w mail.mail_account_id mail.provider_message_id ≡ true → id ≡ none)
  unfolding create_or_null
  create_or_null-stored mail (some x) id w w' is e =
      let (same, end) = pure-ok _ _ _ _ e in rw (sym end) (sym is, (λ a m h. h), λ h. sym same)
  create_or_null-stored mail none id w w' is e = elim (catch-ok _ _ _ _ _ e) [
    | inl done ↦
        let (x, u, created, e1) = bind-ok _ _ _ _ _ done in
        let (same, end) = pure-ok _ _ _ _ e1 in
        let law = table.create_pair mail w u x created in
        rw (sym end) (
          law _ _
              ∙ rw (text_eq_refl mail.mail_account_id, text_eq_refl mail.provider_message_id)
                  (ground arith),
          (λ a m h. law a m ∙ rw h refl),
          λ h. cc,
        )
    | inr (x, u, failed, second) ↦
        let (unique, nothing, end) = null_if_duplicate-ok x u w' id second in
        let thrown_so = bind_pure-thrown (world.create_mail mail) x w u failed in
        let (there, kept) =
          table.refused_pair mail w u (thrown_so ∙ ap (λ y. (thrown y, u)) unique) in
        rw (sym end) (there, kept, λ h. nothing)
  ]

  pub insert-stored :
      (account : Text) (m : RawMailMessage) (id : Option Text) (w w' : W)
      → insert_processed_mail world account m w ≡ (ok id, w')
      → (stored w' account m.provider_message_id ≡ true)
        × Keeps w w'
        × (stored w account m.provider_message_id ≡ true → id ≡ none)
  unfolding insert_processed_mail
  insert-stored account m id w w' e =
      let (found, w1, read, e1) = bind-ok _ _ _ _ _ e in
      let (is, kept) = table.find_pair account m.provider_message_id w w1 found read in
      let (a, b, c) =
        create_or_null-stored (new_mail account m) found id w1 w'
          (is ∙ ap (λ f. f account m.provider_message_id) (sym kept)) e1 in
      (
        a,
        λ k n h. b k n (ap (λ f. f k n) kept ∙ h),
        λ h. c (ap (λ f. f account m.provider_message_id) kept ∙ h),
      )

  -- Whether the filter passes a mail of the account.
  abbrev pub IsPassed : MailAccountWithToken → RawMailMessage → Bool → Type 0
  IsPassed account m b = (apply_rules rules (filter_input account.user_id m)).passed ≡ b

  pub passes-ok :
      (account : MailAccountWithToken) (m : RawMailMessage) (b : Bool) (w w' : W)
      → passes world account.user_id m w ≡ (ok b, w')
      → IsPassed account m b × (stored w' ≡ stored w)
  unfolding passes
  passes-ok account m b w w' e =
      let (r, w1, read, e1) = bind-ok _ _ _ _ _ e in
      let (same, kept) = table.rules_same w w1 r read in
      let (is, end) = pure-ok _ _ _ _ e1 in
      (
        ap (λ r'. (apply_rules r' (filter_input account.user_id m)).passed) (sym same) ∙ is,
        ap stored (sym end) ∙ kept,
      )
