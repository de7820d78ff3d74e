-- ===== src/Gmail/Skips.antt =====
-- A history of which only the first pages are read.
use coupi.Prelude.{ℕ, suc, ◌≤◌, ◌≡◌, refl, Option, none, some, List, [], ◌∷◌, length, Text}
use coupi.Effects.{ok, pure, catch, recover, resume, ◌>>=◌}
use coupi.Gmail.{ProviderTokenSet, RawMailMessage}
use coupi.Gmail.Provider.{
  GmailApi, HistoryPage, max_messages_per_fetch, call, add_history, latest_id, goes_on,
  history_pages, fetch_metadata, fetch_new_messages,
}
use coupi.Gmail.Paging.{goes_on-full}

-- Where a reading stands: the token of the next page, the ids and the cursor so far, and the state of
-- Gmail.
pub record Place (G : Type 0) : Type 0 where
  pub next : Option Text
  pub ids : List Text
  pub latest : Text
  pub gmail : G

-- A page that is read, the token of the page after it, and the state of Gmail behind it.
abbrev pub Read : Type 0 → Type 0
Read G = HistoryPage × Text × G

-- Fuel for the pages, and one more.
abbrev pub fuel_for : {G : Type 0} → List (Read G) → ℕ → ℕ
fuel_for [] fuel = suc fuel
fuel_for (r ∷ reads) fuel = suc (fuel_for reads fuel)

module _ {G : Type 0} (api : GmailApi G) (token : ProviderTokenSet) (cursor : Text) where
  abbrev pub after_page : Place G → HistoryPage → Option Text → G → Place G
  after_page s page next g = record {
    next = next;
    ids = add_history s.ids page.history;
    latest = latest_id page.history_id s.latest;
    gmail = g;
  }

  -- The pages are read one after another, and the reading goes on after each.
  abbrev pub Reads : List (Read G) → Place G → Place G → Type 0
  Reads [] s t = s ≡ t
  Reads ((page, next, g) ∷ reads) s t =
      (api.list_history token cursor s.next s.gmail ≡ (ok page, g))
      × (goes_on page.next_page_token (add_history s.ids page.history) ≡ some next)
      × Reads reads (after_page s page (some next) g) t

  history_pages-skips :
      (reads : List (Read G)) (fuel : ℕ) (s t : Place G) (page : HistoryPage) (g : G)
      → Reads reads s t
      → api.list_history token cursor t.next t.gmail ≡ (ok page, g)
      → max_messages_per_fetch ≤ length (add_history t.ids page.history)
      → history_pages api (fuel_for reads fuel) token cursor s.next s.ids s.latest s.gmail
        ≡ (ok (add_history t.ids page.history, latest_id page.history_id t.latest), g)
  unfolding history_pages call catch recover ◌>>=◌ resume pure
  history_pages-skips [] fuel s t page g same listed many =
      rw (same, listed, goes_on-full page.next_page_token (add_history t.ids page.history) many)
        refl
  history_pages-skips ((first, next, g1) ∷ reads) fuel s t page g (read, more, rest) listed many =
      rw (read, more)
        (history_pages-skips reads fuel (after_page s first (some next) g1) t page g rest listed
          many)

-- A fetch that has read some pages of the history and reaches 500 messages with the next one reads no
-- further, whatever pages follow: it answers the messages of the pages read, and the history id that the
-- last of them gives as the next cursor.
pub fetch_new_messages-skips :
    {G : Type 0} (api : GmailApi G) (parse_date : Text → Option ℕ) (token : ProviderTokenSet)
    (cursor : Text) (reads : List (Read G)) (fuel : ℕ) (g g1 g2 : G) (t : Place G)
    (page : HistoryPage) (messages : List RawMailMessage) (c : ℕ) (id : Text)
    → Reads api token cursor reads (record { next = none; ids = []; latest = cursor; gmail = g }) t
    → api.list_history token cursor t.next t.gmail ≡ (ok page, g1)
    → max_messages_per_fetch ≤ length (add_history t.ids page.history)
    → page.history_id ≡ some (c ∷ id)
    → fetch_metadata api parse_date token (add_history t.ids page.history) g1 ≡ (ok messages, g2)
    → fetch_new_messages api parse_date (fuel_for reads fuel) token cursor g
      ≡ (ok (record { messages = messages; next_cursor = c ∷ id }), g2)
unfolding fetch_new_messages ◌>>=◌ resume pure
fetch_new_messages-skips api parse_date token cursor reads fuel g g1 g2 t page messages c id read
      listed many latest got =
    let pages =
      history_pages-skips api token cursor reads fuel
        (record { next = none; ids = []; latest = cursor; gmail = g }) t page g1 read listed many in
    rw (pages, latest, got) refl
