-- ===== src/Gmail/Messages.antt =====
-- backend/src/auth/gmail-message.util.ts: reading the messages of the Gmail API. The decoder of
-- base64url and the parser of the Date header are parameters.
use coupi.Prelude.{
  ℕ, ◌+◌, Bool, true, false, ◌&&◌, ◌||◌, not, Option, none, some, List, [], ◌∷◌, length, take, leb,
  ltb, ◌==◌, if◌then◌else◌, Text, units, text_eq, to_lower_case, truthy, find,
}
use coupi.Instants.{epoch}
use coupi.Numerals.{number, numerals}
use coupi.Regex.{
  Pattern, ◌>>◌, capture, one, literal, literal_i, some_of, many, either, lazy_many, optional,
  spaces, replace_all, trim, regex,
}
use coupi.Gmail.{RawMailMessage, MailBody}

abbrev pub max_body_text_length : ℕ
max_body_text_length = 4000

pub record Header : Type 0 where
  pub name : Option Text
  pub value : Option Text

-- A part of a MIME tree, and the list of its children.
mutual
  pub data MessagePart : Type 0 where
    part :
        (mime_type filename : Option Text)
        → (body : Option Text) → (headers : List Header) → (children : Parts) → MessagePart

  pub data Parts : Type 0 where
    no_parts : Parts
    more_parts : MessagePart → Parts → Parts

pub record Message : Type 0 where
  pub id : Option Text
  pub internal_date : Option Text
  pub payload : Option MessagePart

abbrev has_name : Text → Header → Bool
has_name target h = elim h.name [ none ↦ false | some name ↦ text_eq (to_lower_case name) target ]

abbrev value_of : Option Header → Option Text
value_of none = none
value_of (some h) = h.value

unfoldable pub get_header : List Header → Text → Option Text
get_header headers name = value_of (find (has_name (to_lower_case name)) headers)

abbrev is_type : Text → Option Text → Bool
is_type type none = false
is_type type (some mime_type) = text_eq mime_type type

abbrev is_missing : Option Text → Bool
is_missing none = true
is_missing (some []) = true
is_missing (some (c ∷ s)) = false

-- `/<(script|style)\b[^>]*>[\s\S]*?<\/\1>/gi`, of one of the two names.
unfoldable pub is_word : ℕ → Bool
is_word c =
    (leb b'0' c && leb c b'9')
    || (leb b'A' c && leb c b'Z')
    || (leb b'a' c && leb c b'z')
    || c == b'_'

-- `\b` behind a word
unfoldable pub boundary : Pattern (Unit {0})
boundary [] = (tt, []) ∷ []
boundary (c ∷ s) = if is_word c then [] else (tt, c ∷ s) ∷ []

unfoldable pub element : Text → Pattern (Unit {0})
element name = do
  literal (units "<")
  literal_i name
  boundary
  many (λ c. not (c == b'>'))
  literal (units ">")
  lazy_many (λ c. true)
  literal (units "</")
  literal_i name
  literal (units ">")

unfoldable pub line_break : Pattern (Unit {0})
line_break = do literal_i (units "<br"); spaces; optional (units "/"); literal (units ">")

unfoldable pub heading : Pattern (Unit {0})
heading = do literal_i (units "h"); one (λ c. leb b'1' c && leb c b'6'); capture tt

-- `/<\/(p|div|tr|li|h[1-6])>/gi`
unfoldable pub block_end : Pattern (Unit {0})
block_end = do
  literal (units "</")
  either (literal_i (units "p")) (
      either (literal_i (units "div"))
        (either (literal_i (units "tr")) (either (literal_i (units "li")) heading)))
  literal (units ">")

-- `/<[^>]+>/g`
unfoldable pub tag : Pattern (Unit {0})
tag = do literal (units "<"); some_of (λ c. not (c == b'>')); literal (units ">")

-- `/[ \t]+/g`
unfoldable pub blanks : Pattern (Unit {0})
blanks = do some_of (λ c. c == 32 || c == 9); capture tt

-- `/ *\n */g`
unfoldable pub padded_line_end : Pattern (Unit {0})
padded_line_end = do many (λ c. c == 32); one (λ c. c == 10); many (λ c. c == 32); capture tt

-- `/\n{2,}/g`
unfoldable pub line_ends : Pattern (Unit {0})
line_ends = do one (λ c. c == 10); some_of (λ c. c == 10); capture tt

-- The replacements of the tags, in the order of the source.
unfoldable pub without_tags : Text → Text
without_tags html =
    let a =
      replace_all (either (element (units "script")) (element (units "style"))) (units " ") html in
    let b = replace_all line_break (10 ∷ []) a in
    let c = replace_all block_end (10 ∷ []) b in replace_all tag (units " ") c

unfoldable pub with_entities : Text → Text
with_entities s =
    let a = replace_all (literal_i (units "&nbsp;")) (units " ") s in
    let b = replace_all (literal_i (units "&amp;")) (units "&") a in
    let c = replace_all (literal_i (units "&lt;")) (units "<") b in
    let d = replace_all (literal_i (units "&gt;")) (units ">") c in
    let e = replace_all (literal_i (units "&quot;")) (units "\"") d in
    replace_all (literal (units "&#39;")) (units "'") e

unfoldable pub html_to_text : Text → Text
html_to_text html =
    let a = replace_all blanks (units " ") (with_entities (without_tags html)) in
    let b = replace_all padded_line_end (10 ∷ []) a in trim (replace_all line_ends (10 ∷ []) b)

abbrev pub html_or_empty : Option Text → Text
html_or_empty none = []
html_or_empty (some []) = []
html_or_empty (some (c ∷ html)) = html_to_text (c ∷ html)

abbrev pub text_or : Option Text → Text → Text
text_or none other = other
text_or (some text) other = text

unfoldable pub to_plain_text : MailBody → Text
to_plain_text body =
    let text = text_or body.text (html_or_empty body.html) in
    if ltb max_body_text_length (length text) then take max_body_text_length text else text

module _ (decode_base64_url : Text → Text) where
  -- What `walk` takes from a part itself.
  unfoldable pub take_body : Option Text → Option Text → MailBody → MailBody
  take_body mime_type encoded b = elim (truthy encoded) [
    | none ↦ b
    | some text ↦
        if is_type (units "text/plain") mime_type && is_missing b.text
        then record b { text = some (decode_base64_url text) }
        else if is_type (units "text/html") mime_type && is_missing b.html
        then record b { html = some (decode_base64_url text) }
        else b
  ]

  unfoldable mutual
    pub walk : MessagePart → MailBody → MailBody
    walk (part mime_type filename encoded headers children) b =
        if is_missing filename then walk_all children (take_body mime_type encoded b) else b

    pub walk_all : Parts → MailBody → MailBody
    walk_all no_parts b = b
    walk_all (more_parts p ps) b = walk_all ps (walk p b)

  unfoldable pub extract_body : Option MessagePart → MailBody
  extract_body none = record { html = none; text = none }
  extract_body (some payload) = walk payload (record { html = none; text = none })

abbrev headers_of : Option MessagePart → List Header
headers_of none = []
headers_of (some (part mime_type filename encoded headers children)) = headers

abbrev or_empty : Option Text → Text
or_empty none = []
or_empty (some s) = s

-- `new Date(Number(text))`, `none` for an invalid date.
abbrev date_of_ms : Text → Option ℕ
date_of_ms text = elim (number text) [ none ↦ none | some ms ↦ some (epoch + ms) ]

module _ (parse_date : Text → Option ℕ) where
  unfoldable pub received_at_of : Message → Option ℕ
  received_at_of message = elim (truthy message.internal_date) [
    | some ms ↦ date_of_ms ms
    | none ↦ elim (truthy (get_header (headers_of message.payload) (units "Date"))) [
      | none ↦ none
      | some date ↦ parse_date date
    ]
  ]

  unfoldable pub raw_message_of : Text → List Header → Option ℕ → Option RawMailMessage
  raw_message_of id headers none = none
  raw_message_of id headers (some at) = some (record {
    provider_message_id = id;
    sender = or_empty (get_header headers (units "From"));
    subject = or_empty (get_header headers (units "Subject"));
    received_at = at;
  })

  unfoldable pub to_raw_mail_message : Message → Option RawMailMessage
  to_raw_mail_message message = elim (truthy message.id) [
    | none ↦ none
    | some id ↦ raw_message_of id (headers_of message.payload) (received_at_of message)
  ]

-- For a test that reads a message.
unfoldable pub messages : Unit {0}
unfolding regex numerals get_header to_lower_case text_eq is_word boundary element line_break
    heading block_end tag blanks padded_line_end line_ends without_tags with_entities html_to_text
    to_plain_text take_body walk walk_all extract_body received_at_of raw_message_of
    to_raw_mail_message
messages = tt
