-- ===== src/Gmail/Provider.antt =====
-- backend/src/auth/gmail.provider.ts: the Gmail client of the services. The Gmail API, the OAuth
-- client and the clock are parameters.
use coupi.Prelude.{
  ℕ, zero, suc, ◌+◌, ◌-◌, ◌*◌, ◌/◌, Bool, true, false, ◌||◌, Option, none, some, List, [], ◌∷◌,
  ◌++◌, length, ltb, ◌==◌, if◌then◌else◌, Text, units, text_eq, includes, truthy, any,
}
use coupi.Instants.{day_ms, epoch}
use coupi.Numerals.{string_of, split}
use coupi.Effects.{
  Exec, Thrown, reauth_required_error, history_expired_error, unique_violation, out_of_fuel,
  other_error, message_of, pure, throw, catch, ◌>>=◌,
}
use coupi.Gmail.{ProviderTokenSet, RawMailMessage, MailBody, WatchHandle, FetchResult}
use coupi.Gmail.Messages.{Message, to_raw_mail_message, extract_body, messages}

abbrev pub gmail_scopes : List Text
gmail_scopes = units "https://www.googleapis.com/auth/gmail.readonly" ∷ []

abbrev pub watch_ttl_days : ℕ
watch_ttl_days = 7

abbrev pub max_messages_per_fetch : ℕ
max_messages_per_fetch = 500

-- The tokens of an answer of the OAuth client. `expiry_date` is an instant.
pub record Credentials : Type 0 where
  pub access_token : Option Text
  pub refresh_token : Option Text
  pub expiry_date : Option ℕ
  pub scope : Option Text

-- A page of `history.list`: for each entry the ids of its `messagesAdded`.
pub record HistoryPage : Type 0 where
  pub history_id : Option Text
  pub history : List (List (Option Text))
  pub next_page_token : Option Text

-- A page of `messages.list`, with the ids.
pub record MessagesPage : Type 0 where
  pub messages : List (Option Text)
  pub next_page_token : Option Text

pub record Profile : Type 0 where
  pub email_address : Option Text
  pub history_id : Option Text

-- `expiration` as an instant.
pub record WatchResponse : Type 0 where
  pub history_id : Option Text
  pub expiration : Option ℕ

-- The calls over the network, with the arguments that vary, and `Date.now()`.
pub record GmailApi (G : Type 0) : Type 0 where
  pub get_token : Text → Exec G Credentials
  pub refresh_access_token : Text → Exec G Credentials
  pub revoke_token : Text → Exec G (Unit {0})
  pub watch : ProviderTokenSet → Exec G WatchResponse
  pub list_history : ProviderTokenSet → Text → Option Text → Exec G HistoryPage
  pub list_messages : ProviderTokenSet → ℕ → Option Text → Exec G MessagesPage
  pub get_metadata : ProviderTokenSet → Text → Exec G Message
  pub get_full : ProviderTokenSet → Text → Exec G Message
  pub get_profile : ProviderTokenSet → Exec G Profile
  pub now : Exec G ℕ

-- `statusOf`
unfoldable pub error_status : Thrown → Option ℕ
error_status (other_error status m) = status
error_status (reauth_required_error reason) = none
error_status (history_expired_error cursor) = none
error_status unique_violation = none
error_status out_of_fuel = none

unfoldable pub is_invalid_grant : Thrown → Bool
is_invalid_grant e = includes (message_of e) (units "invalid_grant")

abbrev pub is_status : ℕ → Option ℕ → Bool
is_status n none = false
is_status n (some status) = status == n

-- `${status ?? 'invalid_grant'}`
abbrev status_or_grant : Option ℕ → Text
status_or_grant none = units "invalid_grant"
status_or_grant (some status) = string_of status

abbrev is_some : Option Text → Bool
is_some none = false
is_some (some s) = true

-- The second and the last test of the `catch` of `call`.
unfoldable pub translate_grant : Thrown → Thrown
translate_grant e =
    if is_status 401 (error_status e) || is_invalid_grant e
    then reauth_required_error (units "Gmail API " ++ status_or_grant (error_status e))
    else e

-- The `catch` of `call`, with its cursor.
unfoldable pub translate : Option Text → Thrown → Thrown
translate none e = translate_grant e
translate (some c) e =
    if is_status 404 (error_status e) then history_expired_error c else translate_grant e

-- `call(fn, cursor)`
unfoldable pub call : {G A : Type 0} → Option Text → Exec G A → Exec G A
call cursor fn = catch fn (λ e. throw (translate (truthy cursor) e))

abbrev pub is_in : Text → List Text → Bool
is_in id ids = any (λ x. text_eq x id) ids

-- `if (id) messageIds.add(id)`, into a set that keeps the order of insertion.
unfoldable pub add_id : List Text → Option Text → List Text
add_id ids none = ids
add_id ids (some []) = ids
add_id ids (some (c ∷ id)) = if is_in (c ∷ id) ids then ids else ids ++ (c ∷ id) ∷ []

unfoldable pub add_ids : List Text → List (Option Text) → List Text
add_ids ids [] = ids
add_ids ids (x ∷ xs) = add_ids (add_id ids x) xs

unfoldable pub add_history : List Text → List (List (Option Text)) → List Text
add_history ids [] = ids
add_history ids (entry ∷ entries) = add_history (add_ids ids entry) entries

-- `if (m.id) messageIds.push(m.id)`
unfoldable pub push_ids : List Text → List (Option Text) → List Text
push_ids ids [] = ids
push_ids ids (none ∷ xs) = push_ids ids xs
push_ids ids (some [] ∷ xs) = push_ids ids xs
push_ids ids (some (c ∷ id) ∷ xs) = push_ids (ids ++ (c ∷ id) ∷ []) xs

-- `if (data.historyId) latestHistoryId = ...`
abbrev pub latest_id : Option Text → Text → Text
latest_id none latest = latest
latest_id (some []) latest = latest
latest_id (some (c ∷ id)) latest = c ∷ id

abbrev scopes_of : Option Text → List Text
scopes_of none = gmail_scopes
scopes_of (some []) = gmail_scopes
scopes_of (some (c ∷ scope)) = split 32 (c ∷ scope)

abbrev or_text : Option Text → Text → Text
or_text none other = other
or_text (some t) other = t

abbrev or_instant : Option ℕ → ℕ → ℕ
or_instant none other = other
or_instant (some t) other = t

-- `while (pageToken && messageIds.size < MAX_MESSAGES_PER_FETCH)`
abbrev pub goes_on : Option Text → List Text → Option Text
goes_on next ids = if ltb (length ids) max_messages_per_fetch then truthy next else none

-- `if (parsed) messages.push(parsed)`
abbrev pub push_parsed : Option RawMailMessage → List RawMailMessage → List RawMailMessage
push_parsed none rest = rest
push_parsed (some m) rest = m ∷ rest

-- The end of a round, or the next one.
abbrev pub while_page : {G A : Type 0} → Option Text → Exec G A → (Text → Exec G A) → Exec G A
while_page none done more = done
while_page (some next) done more = more next

-- `fuel` bounds the pages that a listing reads.
module _ {G : Type 0} (api : GmailApi G) where
  unfoldable pub to_token_set : Credentials → Text → Exec G ProviderTokenSet
  to_token_set c refresh_token = elim (truthy c.access_token) [
    | none ↦ throw (other_error none (units "access token이 없다."))
    | some access_token ↦ do
      now ← api.now
      pure (record {
        access_token = access_token;
        refresh_token = refresh_token;
        expires_at = or_instant c.expiry_date (now + 3600000);
        scope = scopes_of c.scope;
      })
  ]

  unfoldable pub exchange_code_for_token : Text → Exec G ProviderTokenSet
  exchange_code_for_token code = do
    tokens ← api.get_token code
    elim (truthy tokens.refresh_token) [
      | none ↦ throw (other_error none (units "Google이 refresh token을 주지 않았다."))
      | some refresh_token ↦ to_token_set tokens refresh_token
    ]

  unfoldable pub refresh_error : {A : Type 0} → Thrown → Exec G A
  refresh_error e =
      if is_invalid_grant e then throw (reauth_required_error (units "invalid_grant")) else throw e

  unfoldable pub refresh_access_token : Text → Exec G ProviderTokenSet
  refresh_access_token refresh_token =
      catch
        (do
          credentials ← api.refresh_access_token refresh_token
          to_token_set credentials (or_text credentials.refresh_token refresh_token))
        refresh_error

  unfoldable pub revoke_token : Text → Exec G (Unit {0})
  revoke_token refresh_token = catch (api.revoke_token refresh_token) (λ e. pure tt)

  unfoldable pub register_watch : ProviderTokenSet → Exec G WatchHandle
  register_watch token = do
    response ← call none (api.watch token)
    elim (truthy response.history_id) [
      | none ↦ throw (other_error none (units "watch 응답에 historyId가 없다."))
      | some history_id ↦ do
        now ← api.now
        pure (record {
          history_id = history_id;
          expires_at = or_instant response.expiration (now + watch_ttl_days * day_ms);
        })
    ]

  -- The pages of the history from a page token on, with the ids and the cursor so far.
  unfoldable pub history_pages :
      ℕ → ProviderTokenSet → Text → Option Text → List Text → Text → Exec G (List Text × Text)
  history_pages zero token cursor page_token ids latest = throw out_of_fuel
  history_pages (suc fuel) token cursor page_token ids latest = do
    page ← call (some cursor) (api.list_history token cursor page_token)
    let ids' = add_history ids page.history
    let latest' = latest_id page.history_id latest
    while_page (goes_on page.next_page_token ids') (pure (ids', latest'))
        (λ next. history_pages fuel token cursor (some next) ids' latest')

  unfoldable pub message_pages :
      ℕ → ProviderTokenSet → ℕ → Option Text → List Text → Exec G (List Text)
  message_pages zero token since page_token ids = throw out_of_fuel
  message_pages (suc fuel) token since page_token ids = do
    page ← call none (api.list_messages token since page_token)
    let ids' = push_ids ids page.messages
    while_page (goes_on page.next_page_token ids') (pure ids')
        (λ next. message_pages fuel token since (some next) ids')

  module _ (parse_date : Text → Option ℕ) where
    unfoldable pub fetch_metadata : ProviderTokenSet → List Text → Exec G (List RawMailMessage)
    fetch_metadata token [] = pure []
    fetch_metadata token (id ∷ ids) = do
      message ← call none (api.get_metadata token id)
      rest ← fetch_metadata token ids
      pure (push_parsed (to_raw_mail_message parse_date message) rest)

    unfoldable pub fetch_new_messages : ℕ → ProviderTokenSet → Text → Exec G FetchResult
    fetch_new_messages fuel token cursor = do
      (ids, latest) ← history_pages fuel token cursor none [] cursor
      messages ← fetch_metadata token ids
      pure (record { messages = messages; next_cursor = latest })

    unfoldable pub fetch_messages_since : ℕ → ProviderTokenSet → ℕ → Exec G FetchResult
    fetch_messages_since fuel token since = do
      ids ← message_pages fuel token ((since - epoch) / 1000) none []
      profile ← call none (api.get_profile token)
      messages ← fetch_metadata token ids
      pure (record { messages = messages; next_cursor = or_text profile.history_id [] })

  unfoldable pub fetch_message_body : (Text → Text) → ProviderTokenSet → Text → Exec G MailBody
  fetch_message_body decode token id = do
    message ← call none (api.get_full token id)
    pure (extract_body decode message.payload)

  unfoldable pub fetch_account_email : ProviderTokenSet → Exec G Text
  fetch_account_email token = do
    profile ← call none (api.get_profile token)
    elim (truthy profile.email_address) [
      | none ↦ throw (other_error none (units "getProfile 응답에 emailAddress가 없다."))
      | some email ↦ pure email
    ]

-- For a test that calls the API.
unfoldable pub provider : Unit {0}
unfolding ◌>>=◌ catch error_status is_invalid_grant translate_grant translate call add_id add_ids
    add_history push_ids to_token_set exchange_code_for_token refresh_error refresh_access_token
    revoke_token register_watch fetch_metadata history_pages fetch_new_messages message_pages
    fetch_messages_since fetch_message_body fetch_account_email includes string_of messages
provider = tt
