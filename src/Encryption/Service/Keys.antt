-- ===== src/Encryption/Service/Keys.antt =====
-- The keys that the service keeps, and gives out.
use coupi.Prelude.{
  ℕ, ◌-◌, ◌≡◌, refl, sym, ap, ◌∙◌, true, Option, none, some, List, [], ◌∷◌, ltb, length, Text,
  text_eq, text_eq_iff, All, Bool-cases, inl, inr,
}
use mathlib.Core.Path.{subst}
use coupi.Effects.{Exec, Result, ok, pure, resume, ◌>>=◌, ◌>>◌}
use coupi.Effects.Calls.{bind-ok, bind-go_right, pure-ok, bind-on_right}
use coupi.Encryption.{Bytes, dek_bytes, KeyProvider, Runtime, HasNoColon, IsRuntime, IsKeyProvider}
use coupi.Encryption.Service.{
  CachedDek, KeyCache, get_dek, dek_cache_ttl_ms, set_current, set_unwrapped, read_cache, new_dek,
  fresh_or_new, current_or_new, get_current_dek, unwrap_new, fresh_or_unwrap, cached_or_unwrap,
  unwrap_dek,
}

module _ {W : Type 0} (provider : KeyProvider W) (runtime : Runtime W)
    (Wraps : Text → Bytes → Type 0) (runtime_laws : IsRuntime runtime)
    (provider_laws : IsKeyProvider provider Wraps) where
  -- A key that can be used to seal.
  abbrev pub IsKey : CachedDek → Type 0
  IsKey c = Wraps c.wrapped c.dek × HasNoColon c.wrapped × (length c.dek ≡ dek_bytes)

  abbrev IsCurrent : Option CachedDek → Type 0
  IsCurrent none = Unit
  IsCurrent (some c) = IsKey c

  -- The invariant of the service: its current key can be used, and its unwrapped keys are those that
  -- their texts wrap.
  pub record IsCache (s : KeyCache) : Type 0 where
    pub current : IsCurrent s.current_dek
    pub entries :
        All (λ (c : CachedDek). (dek : Bytes) → Wraps c.wrapped dek → c.dek ≡ dek) s.unwrap_cache

  get_dek-lem :
      (t : Text) (cs : List CachedDek) (c : CachedDek) (dek : Bytes)
      → All (λ (c : CachedDek). (dek : Bytes) → Wraps c.wrapped dek → c.dek ≡ dek) cs
      → get_dek t cs ≡ some c
      → Wraps t dek
      → c.dek ≡ dek
  unfolding get_dek
  get_dek-lem t [] c dek h e wraps = cc
  get_dek-lem t (d ∷ cs) c dek (h, hs) e wraps = elim (Bool-cases (text_eq d.wrapped t)) [
    | inl here ↦
        let same : d ≡ c = cc (rw here at e) in
        let key = h dek (subst (λ x. Wraps x dek) (sym ((text_eq_iff d.wrapped t).0 here)) wraps) in
        ap (λ (x : CachedDek). x.dek) (sym same) ∙ key
    | inr other ↦ get_dek-lem t cs c dek hs (rw other at e) wraps
  ]

  new_dek-IsKey :
      (s s' : KeyCache) (w w' : W) (c : CachedDek)
      → IsCache s
      → new_dek provider runtime (s, w) ≡ (ok c, (s', w'))
      → IsKey c × IsCache s'
  unfolding new_dek set_current
  new_dek-IsKey s s' w w' c h e =
      let (dek, w1, drawn, e1) = bind-on_right _ _ _ _ _ _ e in
      let (t, w2, wrapped, e2) = bind-on_right _ _ _ _ _ _ e1 in
      let (at, w3, told, e3) = bind-on_right _ _ _ _ _ _ e2 in
      let (x, (s4, w4), set, e4) = bind-ok _ _ _ _ _ e3 in
      let (same, end) = pure-ok _ _ _ _ e4 in
      let sized = runtime_laws.random_length dek_bytes w w1 dek drawn in
      let (wraps, free) = provider_laws.wrapped dek w1 w2 t sized wrapped in
      let made : IsKey (record { dek = dek; wrapped = t; created_at = at }) =
        (wraps, free, sized) in
      let stored : IsCache
          (record s { current_dek = some (record { dek = dek; wrapped = t; created_at = at }) }) =
        record { current = made; entries = h.entries } in
      let here = ap (λ (r : Result (Unit {0}) × (KeyCache × W)). r.1.0) set in
      let there = ap (λ (v : KeyCache × W). v.0) end in
      (subst IsKey same made, subst IsCache (here ∙ there) stored)

  current_or_new-IsKey :
      (o : Option CachedDek) (s s' : KeyCache) (w w' : W) (c : CachedDek)
      → IsCurrent o
      → IsCache s
      → current_or_new provider runtime o (s, w) ≡ (ok c, (s', w'))
      → IsKey c × IsCache s'
  unfolding current_or_new fresh_or_new
  current_or_new-IsKey none s s' w w' c k h e = new_dek-IsKey s s' w w' c h e
  current_or_new-IsKey (some old) s s' w w' c k h e =
      let (at, w1, told, e1) = bind-on_right _ _ _ _ _ _ e in
      elim (Bool-cases (ltb (at - old.created_at) dek_cache_ttl_ms)) [
        | inl fresh ↦
            let (same, end) = pure-ok _ _ _ _ (rw fresh at e1) in
            (subst IsKey same k, subst IsCache (ap (λ (v : KeyCache × W). v.0) end) h)
        | inr stale ↦ new_dek-IsKey s s' w1 w' c h (rw stale at e1)
      ]

  -- A key that the service gives out to seal with can be used, and its invariant is kept.
  pub get_current_dek-IsKey :
      (s s' : KeyCache) (w w' : W) (c : CachedDek)
      → IsCache s
      → get_current_dek provider runtime (s, w) ≡ (ok c, (s', w'))
      → IsKey c × IsCache s'
  unfolding get_current_dek read_cache ◌>>=◌ resume
  get_current_dek-IsKey s s' w w' c h e =
      current_or_new-IsKey s.current_dek s s' w w' c h.current h e

  -- What an unwrapping of a key leads to.
  abbrev pub Unwraps : Exec (KeyCache × W) Bytes → KeyCache → W → Bytes → Type 0
  Unwraps m s w dek = (s' : KeyCache) × (w' : W) × (m (s, w) ≡ (ok dek, (s', w'))) × IsCache s'

  Wraps-unique : (t : Text) (a b : Bytes) (w : W) → Wraps t a → Wraps t b → a ≡ b
  Wraps-unique t a b w h k =
      let (u, first) = provider_laws.unwrapped t a w h in
      let (v, second) = provider_laws.unwrapped t b w k in
      let same : ◌≡◌ {A = Result Bytes × W} (ok a, u) (ok b, v) = sym first ∙ second in cc

  set_unwrapped-go :
      (c : CachedDek) (s : KeyCache) (w : W) (dek : Bytes)
      → (set_unwrapped c >> pure dek) (s, w)
        ≡ (ok dek, (record s { unwrap_cache = c ∷ s.unwrap_cache }, w))
  unfolding set_unwrapped pure ◌>>=◌ resume
  set_unwrapped-go c s w dek = refl

  kept_dek :
      (c : CachedDek) (s : KeyCache) (w : W) (at : ℕ) (t : Text) (dek : Bytes)
      → ltb (at - c.created_at) dek_cache_ttl_ms ≡ true
      → c.dek ≡ dek
      → fresh_or_unwrap provider runtime t c at (s, w) ≡ (ok dek, (s, w))
  unfolding fresh_or_unwrap pure
  kept_dek c s w at t dek fresh same = rw (fresh, same) refl

  unwrap_new-go :
      (s : KeyCache) (w : W) (t : Text) (dek : Bytes)
      → IsCache s
      → Wraps t dek
      → Unwraps (unwrap_new provider runtime t) s w dek
  unfolding unwrap_new
  unwrap_new-go s w t dek h wraps =
      let (w1, unwrapped) = provider_laws.unwrapped t dek w wraps in
      let (at, w2, told) = runtime_laws.tells_time w1 in
      let stored : IsCache (record s {
        unwrap_cache = (record { dek = dek; wrapped = t; created_at = at }) ∷ s.unwrap_cache;
      }) =
        record {
          current = h.current;
          entries = (λ d k. Wraps-unique t dek d w wraps k, h.entries);
        } in
      (
        _,
        w2,
        bind-go_right _ _ s w w1 dek unwrapped
            ∙ bind-go_right _ _ s w1 w2 at told
            ∙ set_unwrapped-go _ s w2 dek,
        stored,
      )

  cached_or_unwrap-go :
      (o : Option CachedDek) (s : KeyCache) (w : W) (t : Text) (dek : Bytes)
      → ((c : CachedDek) → o ≡ some c → c.dek ≡ dek)
      → IsCache s
      → Wraps t dek
      → Unwraps (cached_or_unwrap provider runtime t o) s w dek
  unfolding cached_or_unwrap fresh_or_unwrap
  cached_or_unwrap-go none s w t dek same h wraps = unwrap_new-go s w t dek h wraps
  cached_or_unwrap-go (some c) s w t dek same h wraps =
      let (at, w1, told) = runtime_laws.tells_time w in
      elim (Bool-cases (ltb (at - c.created_at) dek_cache_ttl_ms)) [
        | inl fresh ↦ (
          s,
          w1,
          bind-go_right _ _ s w w1 at told ∙ kept_dek c s w1 at t dek fresh (same c refl),
          h,
        )
        | inr stale ↦
            let (s', w', done, kept) = unwrap_new-go s w1 t dek h wraps in
            (s', w', bind-go_right _ _ s w w1 at told ∙ (rw stale done), kept)
      ]

  -- A key that has been wrapped is unwrapped again, from the map or by the provider.
  pub unwrap_dek-go :
      (s : KeyCache) (w : W) (t : Text) (dek : Bytes)
      → IsCache s
      → Wraps t dek
      → Unwraps (unwrap_dek provider runtime t) s w dek
  unfolding unwrap_dek read_cache ◌>>=◌ resume
  unwrap_dek-go s w t dek h wraps =
      cached_or_unwrap-go (get_dek t s.unwrap_cache) s w t dek
        (λ c e. get_dek-lem t s.unwrap_cache c dek h.entries e wraps) h wraps
