-- ===== src/Classifier/RuleFilter/Rules.antt =====
-- Which rules `getRules` loads, against the rows of the two tables.
use coupi.Prelude.{
  ℕ, ◌≡◌, ◌≢◌, refl, sym, ap, ◌∙◌, Bool, false, ◌&&◌, not, Option, none, some, List, [], ◌∷◌, ◌++◌,
  arith, if◌then◌else◌, Text, text_eq, text_eq_iff,
}
use mathlib.Core.List.{append_assoc, append-nil}
use coupi.Classifier.RuleFilter.{
  FilterDomain, FilterTables, DomainLists, is_global_row, domains_of, set_domains, add_user_domain,
  add_domain, collect_domains, load_rules, candidates,
}

-- The domains of the rows that hold for every user, in the order of the rows.
unfoldable pub global_rows : List FilterDomain → List Text
global_rows [] = []
global_rows (row ∷ rows) =
    if is_global_row row.is_global then row.domain ∷ global_rows rows else global_rows rows

abbrev belongs : Text → Option Text → Bool
belongs user none = false
belongs user (some id) = text_eq id user

-- The domains of a user's own rows.
unfoldable pub own_rows : Text → List FilterDomain → List Text
own_rows user [] = []
own_rows user (row ∷ rows) =
    if not (is_global_row row.is_global) && belongs user row.user_id
    then row.domain ∷ own_rows user rows
    else own_rows user rows

domains_of-set_domains :
    (j k : Text) (list : List Text) (m : List (Text × List Text))
    → domains_of j (set_domains k list m) ≡ (if text_eq k j then list else domains_of j m)
unfolding domains_of set_domains
domains_of-set_domains j k list [] = refl
domains_of-set_domains j k list ((i, old) ∷ m) =
    ground
      (arith, text_eq_iff i k, text_eq_iff i j, text_eq_iff k j, domains_of-set_domains j k list m)

same_list :
    (id user domain : Text) (m : List (Text × List Text))
    → id ≡ user
    → domains_of id m ++ domain ∷ [] ≡ domains_of user m ++ domain ∷ []
same_list id user domain m e = ap (λ u. domains_of u m ++ domain ∷ []) e

domains_of-add_user_domain :
    (user domain : Text) (id : Option Text) (s : DomainLists)
    → user ≢ []
    → domains_of user (add_user_domain domain id s).user_domains ≡ (
        if belongs user id
        then domains_of user s.user_domains ++ domain ∷ []
        else domains_of user s.user_domains)
unfolding add_user_domain
domains_of-add_user_domain user domain none s h = refl
domains_of-add_user_domain user domain (some []) s h = ground (arith, text_eq_iff [] user)
domains_of-add_user_domain user domain (some (c ∷ id)) s h =
    domains_of-set_domains user (c ∷ id) _ s.user_domains
    ∙ ground (arith, text_eq_iff (c ∷ id) user, same_list (c ∷ id) user domain s.user_domains)

domains_of-add_domain :
    (user : Text) (row : FilterDomain) (s : DomainLists)
    → user ≢ []
    → domains_of user (add_domain row s).user_domains
      ≡ domains_of user s.user_domains ++ own_rows user (row ∷ [])
unfolding add_domain own_rows
domains_of-add_domain user row s h = ground (
  arith,
  domains_of-add_user_domain user row.domain row.user_id s h,
  append-nil (domains_of user s.user_domains),
)

global_domains-add_user_domain :
    (domain : Text) (id : Option Text) (s : DomainLists)
    → (add_user_domain domain id s).global_domains ≡ s.global_domains
unfolding add_user_domain
global_domains-add_user_domain domain none s = refl
global_domains-add_user_domain domain (some []) s = refl
global_domains-add_user_domain domain (some (c ∷ id)) s = refl

global_domains-add_domain :
    (row : FilterDomain) (s : DomainLists)
    → (add_domain row s).global_domains ≡ s.global_domains ++ global_rows (row ∷ [])
unfolding add_domain global_rows
global_domains-add_domain row s =
    ground
      (arith, global_domains-add_user_domain row.domain row.user_id s, append-nil s.global_domains)

own_rows-cons :
    (user : Text) (row : FilterDomain) (rows : List FilterDomain)
    → own_rows user (row ∷ rows) ≡ own_rows user (row ∷ []) ++ own_rows user rows
unfolding own_rows
own_rows-cons user row rows = ground arith

global_rows-cons :
    (row : FilterDomain) (rows : List FilterDomain)
    → global_rows (row ∷ rows) ≡ global_rows (row ∷ []) ++ global_rows rows
unfolding global_rows
global_rows-cons row rows = ground arith

domains_of-collect_domains :
    (user : Text) (rows : List FilterDomain) (s : DomainLists)
    → user ≢ []
    → domains_of user (collect_domains rows s).user_domains
      ≡ domains_of user s.user_domains ++ own_rows user rows
unfolding collect_domains
domains_of-collect_domains user [] s h = (unfold own_rows in sym (append-nil _))
domains_of-collect_domains user (row ∷ rows) s h = rw (
  domains_of-collect_domains user rows (add_domain row s) h,
  domains_of-add_domain user row s h,
  own_rows-cons user row rows,
  append_assoc,
)

global_domains-collect_domains :
    (rows : List FilterDomain) (s : DomainLists)
    → (collect_domains rows s).global_domains ≡ s.global_domains ++ global_rows rows
unfolding collect_domains
global_domains-collect_domains [] s = (unfold global_rows in sym (append-nil _))
global_domains-collect_domains (row ∷ rows) s = rw (
  global_domains-collect_domains rows (add_domain row s),
  global_domains-add_domain row s,
  global_rows-cons row rows,
  append_assoc,
)

-- The domains that a mail to a user is compared with are those of the rows for everybody, and then
-- those of the user's own rows, each in the order of the table; no other user's rows count.
pub candidates-load_rules :
    (tables : FilterTables) (at : ℕ) (user : Text)
    → user ≢ []
    → candidates (load_rules tables at) user
      ≡ global_rows tables.filter_domain ++ own_rows user tables.filter_domain
unfolding candidates load_rules
candidates-load_rules tables at user h =
    rw (global_domains-collect_domains, domains_of-collect_domains _ _ _ h)
      (unfold domains_of in refl)
