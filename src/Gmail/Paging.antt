-- ===== src/Gmail/Paging.antt =====
-- The listings of the Gmail client, page by page.
use coupi.Prelude.{
  ℕ, zero, suc, ◌+◌, ◌≤◌, ◌<◌, ◌≡◌, ◌≢◌, sym, ◌∙◌, Option, none, some, List, [], ◌∷◌, ◌++◌, length,
  length-append, Option-cases, inl, inr, arith, Text, truthy, In,
}
use mathlib.Core.Path.{subst}
use coupi.Effects.{Thrown, Exec, ok, out_of_fuel, throw, catch}
use coupi.Effects.Calls.{bind-ok, pure-ok, Result-cases}
use coupi.Effects.Ends.{Ends, Ends-pure, Ends-throw, Ends-catch, Ends-bind}
use coupi.Gmail.{ProviderTokenSet, RawMailMessage, FetchResult}
use coupi.Gmail.Messages.{Message, to_raw_mail_message}
use coupi.Gmail.Provider.{
  GmailApi, HistoryPage, MessagesPage, max_messages_per_fetch, translate, translate_grant, call,
  add_history, push_ids, goes_on, push_parsed, fetch_metadata, history_pages, fetch_new_messages,
  message_pages, fetch_messages_since,
}

translate-ne-out_of_fuel :
    (cursor : Option Text) (e : Thrown) → e ≢ out_of_fuel → translate cursor e ≢ out_of_fuel
unfolding translate translate_grant
translate-ne-out_of_fuel none e ne = ground arith
translate-ne-out_of_fuel (some c) e ne = ground arith

Ends-call : {G A : Type 0} (cursor : Option Text) (m : Exec G A) → Ends m → Ends (call cursor m)
unfolding call
Ends-call cursor m h =
    Ends-catch m _ h λ x ne. Ends-throw _ (translate-ne-out_of_fuel (truthy cursor) x ne)

-- A call that returns has returned, and not thrown.
call-ok :
    {G A : Type 0} (cursor : Option Text) (m : Exec G A) (g g' : G) (a : A)
    → call cursor m g ≡ (ok a, g')
    → m g ≡ (ok a, g')
unfolding call catch throw
call-ok cursor m g g' a e = elim (Result-cases (m g)) [
  | inl (b, t, first) ↦ first ∙ (rw first at e)
  | inr (x, t, first) ↦ cc (rw first at e)
]

push_ids-length :
    (ids : List Text) (xs : List (Option Text)) → length (push_ids ids xs) ≤ length ids + length xs
unfolding push_ids
push_ids-length ids [] = omega arith
push_ids-length ids (none ∷ xs) = omega (arith, push_ids-length ids xs)
push_ids-length ids (some [] ∷ xs) = omega (arith, push_ids-length ids xs)
push_ids-length ids (some (c ∷ id) ∷ xs) =
    omega (arith, push_ids-length (ids ++ (c ∷ id) ∷ []) xs, length-append ids ((c ∷ id) ∷ []))

bound :
    (o : Option RawMailMessage) (rest : List RawMailMessage) (ids : List Text)
    (messages : List RawMailMessage)
    → push_parsed o rest ≡ messages
    → length rest ≤ length ids
    → length messages ≤ suc (length ids)
bound none rest ids messages same le = rw (sym same) (omega arith)
bound (some m) rest ids messages same le = rw (sym same) (omega arith)

module _ {G : Type 0} (api : GmailApi G) (parse_date : Text → Option ℕ) where
  metadata-length :
      (token : ProviderTokenSet) (ids : List Text) (g g' : G) (messages : List RawMailMessage)
      → fetch_metadata api parse_date token ids g ≡ (ok messages, g')
      → length messages ≤ length ids
  unfolding fetch_metadata
  metadata-length token [] g g' messages e =
      let (same, _) = pure-ok _ _ _ _ e in rw (sym same) (omega arith)
  metadata-length token (id ∷ ids) g g' messages e =
      let (m, g1, got, e1) = bind-ok _ _ _ _ _ e in
      let (rest, g2, others, e2) = bind-ok _ _ _ _ _ e1 in
      let (same, _) = pure-ok _ _ _ _ e2 in
      let le = metadata-length token ids g1 g2 rest others in
      bound (to_raw_mail_message parse_date m) rest ids messages same le

goes_on-lt :
    (next : Option Text) (ids : List Text) (t : Text)
    → goes_on next ids ≡ some t
    → length ids < max_messages_per_fetch
goes_on-lt next ids t e = ground arith

pub goes_on-full :
    (next : Option Text) (ids : List Text)
    → max_messages_per_fetch ≤ length ids
    → goes_on next ids ≡ none
goes_on-full next ids h = ground arith

goes_on-same :
    (next : Option Text) (ids : List Text) (t : Text) → goes_on next ids ≡ some t → next ≡ some t
goes_on-same none ids t e = ground arith
goes_on-same (some []) ids t e = ground arith
goes_on-same (some (c ∷ s)) ids t e = ground arith

module _ {G : Type 0} (api : GmailApi G) where
  -- A listing that returns, where no page holds more than a number of messages, has fewer than 500
  -- messages before the last page, and so fewer than 500 and one page in all.
  message_pages-length :
      (page_size : ℕ)
      → ((token : ProviderTokenSet) (since : ℕ) (next : Option Text) (g g' : G)
            (page : MessagesPage)
          → api.list_messages token since next g ≡ (ok page, g')
          → length page.messages ≤ page_size)
      → (fuel : ℕ) (token : ProviderTokenSet) (since : ℕ) (next : Option Text) (ids : List Text)
        (g g' : G) (found : List Text)
      → length ids < max_messages_per_fetch
      → message_pages api fuel token since next ids g ≡ (ok found, g')
      → length found < max_messages_per_fetch + page_size
  unfolding message_pages
  message_pages-length size small zero token since next ids g g' found lt e = (unfold throw in cc)
  message_pages-length size small (suc fuel) token since next ids g g' found lt e =
      let (page, g1, got, e1) = bind-ok _ _ _ _ _ e in
      let le = small token since next g g1 page (call-ok _ _ _ _ _ got) in
      let sum = push_ids-length ids page.messages in
      elim (Option-cases (goes_on page.next_page_token (push_ids ids page.messages))) [
        | inl last ↦ let (same, _) = pure-ok _ _ _ _ (rw last at e1) in rw (sym same) (omega arith)
        | inr (t, more) ↦
            message_pages-length size small fuel token since (some t) (push_ids ids page.messages)
              g1 g' found (goes_on-lt _ _ t more) (rw more at e1)
      ]

-- A resynchronisation that returns has fewer than 500 messages and one page: at most 599, as a page
-- holds 100 at most.
module _ {G : Type 0} (api : GmailApi G) (parse_date : Text → Option ℕ) where
  pub fetch_messages_since-length :
      ((token : ProviderTokenSet) (since : ℕ) (next : Option Text) (g g' : G) (page : MessagesPage)
        → api.list_messages token since next g ≡ (ok page, g')
        → length page.messages ≤ 100)
      → (fuel : ℕ) (token : ProviderTokenSet) (since : ℕ) (g g' : G) (r : FetchResult)
      → fetch_messages_since api parse_date fuel token since g ≡ (ok r, g')
      → length r.messages ≤ 599
  unfolding fetch_messages_since
  fetch_messages_since-length small fuel token since g g' r e =
      let (ids, g1, listed, e1) = bind-ok _ _ _ _ _ e in
      let (profile, g2, _, e2) = bind-ok _ _ _ _ _ e1 in
      let (messages, g3, read, e3) = bind-ok _ _ _ _ _ e2 in
      let (same, _) = pure-ok _ _ _ _ e3 in
      let le = metadata-length api parse_date token ids g2 g3 messages read in
      let lt =
        message_pages-length api 100 small fuel token _ none [] g g1 ids (omega arith) listed in
      rw (sym same) (omega arith)

  -- A message of the listing that can no longer be read makes the whole fetch throw, each time.
  fetch_metadata-throws :
      (token : ProviderTokenSet) (id : Text) (ids : List Text) (g g' : G)
      (messages : List RawMailMessage)
      → ((h : G) (m : Message) (h' : G) → api.get_metadata token id h ≢ (ok m, h'))
      → In id ids
      → fetch_metadata api parse_date token ids g ≢ (ok messages, g')
  unfolding fetch_metadata
  fetch_metadata-throws token id [] g g' messages gone at e = absurd at
  fetch_metadata-throws token id (x ∷ ids) g g' messages gone (inl here) e =
      let (m, g1, got, e1) = bind-ok _ _ _ _ _ e in
      gone g m g1
        (subst (λ y. api.get_metadata token y g ≡ (ok m, g1)) here (call-ok _ _ _ _ _ got))
  fetch_metadata-throws token id (x ∷ ids) g g' messages gone (inr there) e =
      let (m, g1, got, e1) = bind-ok _ _ _ _ _ e in
      let (rest, g2, others, e2) = bind-ok _ _ _ _ _ e1 in
      fetch_metadata-throws token id ids g1 g2 rest gone there others

  -- What never throws `out_of_fuel` of itself.
  pub record EndsApi : Type 0 where
    pub list_history :
        (token : ProviderTokenSet) (cursor : Text) (next : Option Text)
        → Ends (api.list_history token cursor next)
    pub list_messages :
        (token : ProviderTokenSet) (since : ℕ) (next : Option Text)
        → Ends (api.list_messages token since next)
    pub get_metadata : (token : ProviderTokenSet) (id : Text) → Ends (api.get_metadata token id)
    pub get_profile : (token : ProviderTokenSet) → Ends (api.get_profile token)

  fetch_metadata-Ends :
      EndsApi
      → (token : ProviderTokenSet) (ids : List Text)
      → Ends (fetch_metadata api parse_date token ids)
  unfolding fetch_metadata
  fetch_metadata-Ends h token [] = Ends-pure []
  fetch_metadata-Ends h token (id ∷ ids) =
      Ends-bind _ _ (Ends-call none _ (h.get_metadata token id))
        λ m s t _. Ends-bind _ _ (fetch_metadata-Ends h token ids) λ rest u v _. Ends-pure _

  history_pages-Ends :
      EndsApi
      → (token : ProviderTokenSet) (cursor : Text) (rank : Option Text → ℕ)
      → ((next : Option Text) (g g' : G) (page : HistoryPage) (t : Text)
          → api.list_history token cursor next g ≡ (ok page, g')
          → page.next_page_token ≡ some t
          → rank (some t) < rank next)
      → (fuel : ℕ) (next : Option Text) (ids : List Text) (latest : Text) → rank next < fuel
      → Ends (history_pages api fuel token cursor next ids latest)
  unfolding history_pages
  history_pages-Ends h token cursor rank down zero next ids latest lt = omega arith
  history_pages-Ends h token cursor rank down (suc fuel) next ids latest lt =
      Ends-bind _ _ (Ends-call (some cursor) _ (h.list_history token cursor next)) λ page s s' got.
        elim (Option-cases (goes_on page.next_page_token (add_history ids page.history))) [
          | inl last ↦ rw last (Ends-pure _)
          | inr (t, more) ↦
              let less = down next s s' page t (call-ok _ _ _ _ _ got) (goes_on-same _ _ t more) in
              rw more (history_pages-Ends h token cursor rank down fuel (some t) _ _ (omega arith))
        ]

  -- If the page tokens of a history run out, as a rank that falls from page to page says, then fuel
  -- above the rank of the first page brings the fetch to an end, by its messages or an error.
  pub fetch_new_messages-Ends :
      EndsApi
      → (token : ProviderTokenSet) (cursor : Text) (rank : Option Text → ℕ)
      → ((next : Option Text) (g g' : G) (page : HistoryPage) (t : Text)
          → api.list_history token cursor next g ≡ (ok page, g')
          → page.next_page_token ≡ some t
          → rank (some t) < rank next)
      → (fuel : ℕ) → rank none < fuel
      → Ends (fetch_new_messages api parse_date fuel token cursor)
  unfolding fetch_new_messages
  fetch_new_messages-Ends h token cursor rank down fuel lt =
      Ends-bind _ _ (history_pages-Ends h token cursor rank down fuel none [] cursor lt)
        λ found s t _. Ends-bind _ _ (fetch_metadata-Ends h token found.0) λ m u v _. Ends-pure _
