-- ===== src/Accounts/Updates.antt =====
-- What the methods leave in the table of the accounts.
use coupi.Prelude.{
  ◌≡◌, refl, sym, ap, ◌∙◌, false, Option, none, some, Text, text_eq, text_eq_refl, if◌then◌else◌,
}
use coupi.Domain.{reauth_required}
use coupi.Effects.{ok, thrown, reauth_required_error, catch, recover, resume, ◌>>=◌}
use coupi.Effects.Calls.{bind-ok, pure-ok}
use coupi.Gmail.{ProviderTokenSet}
use coupi.Accounts.{
  AccountWorld, MailAccount, MailAccountUpdate, MailCursor, no_change, parse_cursor, to_json,
  field_of, parse_field, cursor_of, mark_reauth_required, read_cursor, save_cursor, reauth_or_throw,
  refresh_and_store,
}

abbrev changed : {A : Type 0} → Option A → A → A
changed none old = old
changed (some new) old = new

abbrev changed_option : {A : Type 0} → Option A → Option A → Option A
changed_option none old = old
changed_option (some new) old = some new

-- A row after an update.
unfoldable pub updated : MailAccountUpdate → MailAccount → MailAccount
updated u r = record r {
  encrypted_refresh_token = changed u.encrypted_refresh_token r.encrypted_refresh_token;
  encrypted_access_token = changed u.encrypted_access_token r.encrypted_access_token;
  access_token_expires_at = changed u.access_token_expires_at r.access_token_expires_at;
  cursor = changed u.cursor r.cursor;
  status = changed_option u.status r.status;
  consecutive_failures = changed_option u.consecutive_failures r.consecutive_failures;
}

abbrev pub updated_row : MailAccountUpdate → Option MailAccount → Option MailAccount
updated_row u none = none
updated_row u (some r) = some (updated u r)

-- What the database documents of its two calls, seen by the rows that it holds: a query answers the
-- row and leaves all rows, and an update that returns changes the columns that it names in one row.
-- The calls of the Gmail client and of the encryption leave the rows.
pub record IsAccountTable {W : Type 0} (world : AccountWorld W)
    (rows : W → Text → Option MailAccount) : Type 0 where
  pub find_row :
      (id : Text) (w w' : W) (found : Option MailAccount)
      → world.find_account id w ≡ (ok found, w')
      → (found ≡ rows w id) × (rows w' ≡ rows w)
  pub update_row :
      (id : Text) (u : MailAccountUpdate) (w w' : W)
      → world.update_account id u w ≡ (ok tt, w')
      → (j : Text) → rows w' j ≡ (if text_eq j id then updated_row u (rows w j) else rows w j)
  pub refresh_rows : (token : Text) (w : W) → rows (world.refresh_access_token token w).1 ≡ rows w

parse_field-field_of : (o : Option Text) → parse_field (field_of o) ≡ o
unfolding parse_field field_of
parse_field-field_of none = refl
parse_field-field_of (some s) = refl

-- A cursor that is written is read back.
pub parse_cursor-to_json : (c : MailCursor) → parse_cursor (to_json c) ≡ c
unfolding parse_cursor to_json
parse_cursor-to_json c =
    rw (parse_field-field_of c.history_id, parse_field-field_of c.watch_expires_at)

module _ {W : Type 0} (world : AccountWorld W) (rows : W → Text → Option MailAccount)
    (table : IsAccountTable world rows) where
  pub update_self :
      (id : Text) (u : MailAccountUpdate) (w w' : W) (row : MailAccount)
      → rows w id ≡ some row
      → world.update_account id u w ≡ (ok tt, w')
      → rows w' id ≡ some (updated u row)
  update_self id u w w' row at e = table.update_row id u w w' e id ∙ rw (text_eq_refl id, at)

  pub update_other :
      (id : Text) (u : MailAccountUpdate) (w w' : W)
      → world.update_account id u w ≡ (ok tt, w')
      → (j : Text) → text_eq j id ≡ false
      → rows w' j ≡ rows w j
  update_other id u w w' e j other = table.update_row id u w w' e j ∙ rw other

  read_cursor_lem :
      (id : Text) (w w' : W) (row : MailAccount) (c : MailCursor)
      → rows w id ≡ some row
      → read_cursor world id w ≡ (ok c, w')
      → (parse_cursor row.cursor ≡ c) × (rows w' ≡ rows w)
  unfolding read_cursor
  read_cursor_lem id w w' row c at e =
      let (found, w1, read, e1) = bind-ok _ _ _ _ _ e in
      let (same, end) = pure-ok _ _ _ _ e1 in
      let (is_row, kept) = table.find_row id w w1 found read in
      (ap cursor_of (sym at ∙ sym is_row) ∙ same, ap rows (sym end) ∙ kept)

  -- A cursor that is saved after an ingest moves the account's history id and clears its failures; the
  -- time of its watch, its status and its tokens stay, and so do all other accounts.
  pub save_cursor_sound :
      (id history_id : Text) (w w' : W) (row : MailAccount)
      → rows w id ≡ some row
      → save_cursor world id history_id w ≡ (ok tt, w')
      → (new : MailAccount) × (rows w' id ≡ some new)
        × (parse_cursor new.cursor
            ≡ record (parse_cursor row.cursor) { history_id = some history_id })
        × (new.consecutive_failures ≡ some 0)
        × (new.status ≡ row.status)
        × (new.encrypted_refresh_token ≡ row.encrypted_refresh_token)
        × ((j : Text) → text_eq j id ≡ false → rows w' j ≡ rows w j)
  unfolding save_cursor updated
  save_cursor_sound id history_id w w' row at e =
      let (cursor, w1, got, e1) = bind-ok _ _ _ _ _ e in
      let (same, kept) = read_cursor_lem id w w1 row cursor at got in
      let here = ap (λ f. f id) kept ∙ at in
      (
        _,
        update_self id _ w1 w' row here e1,
        parse_cursor-to_json _
            ∙ ap (λ (c : MailCursor). record c { history_id = some history_id }) (sym same),
        refl,
        refl,
        refl,
        λ j other. update_other id _ w1 w' e1 j other ∙ ap (λ f. f j) kept,
      )

  reauth_or_throw-ok :
      (id reason : Text) (w w' : W) (r : Option ProviderTokenSet)
      → reauth_or_throw world id (reauth_required_error reason) w ≡ (ok r, w')
      → (r ≡ none)
        × (world.update_account id (record no_change { status = some reauth_required }) w
            ≡ (ok tt, w'))
  unfolding reauth_or_throw mark_reauth_required
  reauth_or_throw-ok id reason w w' r e =
      let (x, w1, marked, e1) = bind-ok _ _ _ _ _ e in
      let (same, end) = pure-ok _ _ _ _ e1 in (sym same, marked ∙ ap (λ v. (ok tt, v)) end)

  -- When Google has revoked the refresh token, its renewal gives no token and marks the account, and
  -- changes nothing else in the table.
  pub refresh_and_store-revoked :
      (id refresh_token reason : Text) (w w1 w' : W) (r : Option ProviderTokenSet)
      (row : MailAccount)
      → rows w id ≡ some row
      → world.refresh_access_token refresh_token w ≡ (thrown (reauth_required_error reason), w1)
      → refresh_and_store world id refresh_token w ≡ (ok r, w')
      → (r ≡ none)
        × (rows w' id ≡ some (record row { status = some reauth_required }))
        × ((j : Text) → text_eq j id ≡ false → rows w' j ≡ rows w j)
  unfolding refresh_and_store catch recover ◌>>=◌ resume updated
  refresh_and_store-revoked id refresh_token reason w w1 w' r row at revoked e =
      let kept = ap (λ p. rows p.1) (sym revoked) ∙ table.refresh_rows refresh_token w in
      let (none_given, marked) = reauth_or_throw-ok id reason w1 w' r (rw revoked at e) in
      (
        none_given,
        update_self id (record no_change { status = some reauth_required }) w1 w' row
            (ap (λ f. f id) kept ∙ at) marked,
        λ j other.
            update_other id (record no_change { status = some reauth_required }) w1 w' marked j
              other
            ∙ ap (λ f. f j) kept,
      )
