-- ===== src/Gmail/Tests.antt =====
-- Runs of the Gmail client on a small mailbox, and the theorems about it there.
use coupi.Prelude.{
  ℕ, zero, suc, ◌+◌, ◌≤◌, ◌<◌, ◌≡◌, refl, sym, Option, none, some, List, [], ◌∷◌, length, Text,
  units, arith,
}
use coupi.Instants.{epoch}
use coupi.Effects.{ok}
use coupi.Effects.Ends.{Ends}
use coupi.Gmail.{ProviderTokenSet, RawMailMessage}
use coupi.Gmail.Messages.{
  MessagePart, part, no_parts, more_parts, Message, html_to_text, extract_body, messages,
}
use coupi.Gmail.Provider.{
  GmailApi, HistoryPage, MessagesPage, Credentials, fetch_new_messages, fetch_messages_since,
  fetch_metadata, add_history, goes_on, provider,
}
use coupi.Gmail.Paging.{EndsApi, fetch_new_messages-Ends}
use coupi.Gmail.Skips.{Read, Place, fuel_for, after_page, fetch_new_messages-skips}

page_text :
    html_to_text (units "<p>Sale&nbsp;<b>15%</b></P><script>x<1</script><br/>until&amp;after")
    ≡ units "Sale 15%\nuntil&after"
unfolding messages
page_text = refl

abbrev plain : Option Text → Text → MessagePart
plain filename encoded = part (some (units "text/plain")) filename (some encoded) [] no_parts

-- Attachments are passed over, and the first plain text is kept.
mixed_body :
    extract_body
      (λ s. s)
      (some (
        part (some (units "multipart/mixed")) none none [] (
          more_parts (plain (some (units "a.txt")) (units "no")) (
            more_parts
              (plain none (units "yes"))
              (more_parts (plain none (units "late")) no_parts)))))
    ≡ record { html = none; text = some (units "yes") }
unfolding messages
mixed_body = refl

abbrev token : ProviderTokenSet
token = record { access_token = units "a"; refresh_token = units "r"; expires_at = 0; scope = [] }

abbrev empty_tokens : Credentials
empty_tokens = record {
  access_token = none;
  refresh_token = none;
  expiry_date = none;
  scope = none;
}

abbrev mail : Text → Message
mail id = record {
  id = some id;
  internal_date = some (units "1000");
  payload = some (
      part none none none (record { name = some (units "FROM"); value = some (units "a@b.c") } ∷ [])
        no_parts);
}

-- `many` ids on the first page, and one message on a second.
abbrev ids : ℕ → List (Option Text)
ids zero = []
ids (suc n) = some (n ∷ []) ∷ ids n

abbrev history_page : ℕ → Option Text → HistoryPage
history_page many none = record {
  history_id = some (units "9");
  history = ids many ∷ [];
  next_page_token = some (units "2");
}
history_page many (some next) = record {
  history_id = some (units "9");
  history = (some (units "z") ∷ []) ∷ [];
  next_page_token = none;
}

abbrev mailbox : ℕ → GmailApi Unit
mailbox many = record {
  get_token = λ code g. (ok empty_tokens, g);
  refresh_access_token = λ t g. (ok empty_tokens, g);
  revoke_token = λ t g. (ok tt, g);
  watch = λ t g. (ok (record { history_id = some (units "9"); expiration = none }), g);
  list_history = λ t cursor next g. (ok (history_page many next), g);
  list_messages = λ t since next g.
      (ok (record { messages = some (units "z") ∷ []; next_page_token = none }), g);
  get_metadata = λ t id g. (ok (mail id), g);
  get_full = λ t id g. (ok (mail id), g);
  get_profile = λ t g.
      (ok (record { email_address = some (units "a@b.c"); history_id = some (units "9") }), g);
  now = λ g. (ok 0, g);
}

abbrev no_date : Text → Option ℕ
no_date s = none

abbrev raw : Text → RawMailMessage
raw id = record {
  provider_message_id = id;
  sender = units "a@b.c";
  subject = [];
  received_at = epoch + 1000;
}

two_pages :
    fetch_new_messages (mailbox 1) no_date 5 token (units "8") tt
    ≡ (ok (record { messages = raw (0 ∷ []) ∷ raw (units "z") ∷ []; next_cursor = units "9" }), tt)
unfolding provider
two_pages = refl

abbrev rank : Option Text → ℕ
rank none = 1
rank (some next) = 0

pages_run_out :
    (next : Option Text) (g g' : Unit) (page : HistoryPage) (t : Text)
    → (mailbox 1).list_history token (units "8") next g ≡ (ok page, g')
    → page.next_page_token ≡ some t
    → rank (some t) < rank next
pages_run_out none g g' page t e more = omega arith
pages_run_out (some next) g g' page t e more = cc

mailbox-EndsApi : EndsApi (mailbox 1) no_date
mailbox-EndsApi = record {
  list_history = λ t cursor next g e. cc;
  list_messages = λ t since next g e. cc;
  get_metadata = λ t id g e. cc;
  get_profile = λ t g e. cc;
}

fetch_new_messages-Ends_example : Ends (fetch_new_messages (mailbox 1) no_date 2 token (units "8"))
fetch_new_messages-Ends_example =
    fetch_new_messages-Ends (mailbox 1) no_date mailbox-EndsApi token (units "8") rank pages_run_out
      2 (omega arith)

one_page :
    (t : ProviderTokenSet) (since : ℕ) (next : Option Text) (g g' : Unit) (page : MessagesPage)
    → (mailbox 1).list_messages t since next g ≡ (ok page, g')
    → length page.messages ≤ 100
one_page t since next g g' page e =
    let same : (record { messages = some (units "z") ∷ []; next_page_token = none }) ≡ page = cc in
    rw (sym same) (omega arith)

resynchronised :
    fetch_messages_since (mailbox 1) no_date 1 token 0 tt
    ≡ (ok (record { messages = raw (units "z") ∷ []; next_cursor = units "9" }), tt)
unfolding provider
resynchronised = refl

-- A mailbox whose messages have lost their ids, with 250 on each of its first two pages.
abbrev later_ids : ℕ → List (Option Text)
later_ids zero = []
later_ids (suc n) = some (1000 ∷ n ∷ []) ∷ later_ids n

abbrev crowded_page : Option Text → HistoryPage
crowded_page none = record (history_page 250 none) { next_page_token = some (units "2") }
crowded_page (some next) = record {
  history_id = some (units "9");
  history = later_ids 250 ∷ [];
  next_page_token = some (units "3");
}

abbrev crowded : GmailApi Unit
crowded = record (mailbox 250) {
  list_history = λ t cursor next g. (ok (crowded_page next), g);
  get_metadata = λ t id g. (ok (record { id = none; internal_date = none; payload = none }), g);
}

nothing_read : (ids : List Text) → fetch_metadata crowded no_date token ids tt ≡ (ok [], tt)
unfolding provider
nothing_read [] = refl
nothing_read (id ∷ ids) = rw (nothing_read ids)

abbrev first_read : Read Unit
first_read = (crowded_page none, units "2", tt)

abbrev after_first : Place Unit
after_first =
    after_page crowded token (units "8")
      (record { next = none; ids = []; latest = units "8"; gmail = tt }) (crowded_page none)
      (some (units "2")) tt

many_ids : 500 ≤ length (add_history after_first.ids (later_ids 250 ∷ []))
unfolding provider
many_ids = omega arith

more_follows :
    goes_on (some (units "2")) (add_history [] (crowded_page none).history) ≡ some (units "2")
unfolding provider
more_follows = refl

fetch_new_messages-skips_example :
    fetch_new_messages crowded no_date (fuel_for (first_read ∷ []) 7) token (units "8") tt
    ≡ (ok (record { messages = []; next_cursor = units "9" }), tt)
fetch_new_messages-skips_example =
    fetch_new_messages-skips crowded no_date token (units "8") (first_read ∷ []) 7 tt tt tt
      after_first (crowded_page (some (units "2"))) [] _ _ (refl, more_follows, refl) refl many_ids
      refl (nothing_read (add_history after_first.ids (later_ids 250 ∷ [])))
