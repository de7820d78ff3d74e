-- ===== src/Encryption/Local/Wrapping.antt =====
-- A data key that the local provider wraps.
use coupi.Prelude.{
  ◌+◌, ◌≡◌, refl, sym, ap, ◌∙◌, Option, ◌++◌, length, length-append, take-append, drop-append, drop,
  arith, ◌==◌, if◌then◌else◌, Text, Bool-cases, inl, inr,
}
use mathlib.Core.Path.{subst}
use mathlib.Core.List.{append_assoc}
use coupi.Effects.{Result, ok, thrown, pure}
use coupi.Effects.Calls.{bind-ok, pure-ok}
use coupi.Encryption.{
  Bytes, iv_bytes, auth_tag_bytes, Runtime, HasNoColon, IsRuntime, IsKeyProvider,
}
use coupi.Encryption.Local.{
  master_key_bytes, bad_master_key, master_key_of, wrap_dek, deciphered_or_throw, unwrap_dek,
  local_key_provider,
}

module _ {W : Type 0} (runtime : Runtime W) (laws : IsRuntime runtime) (master_key : Bytes) where
  -- The texts that the provider makes of a data key.
  pub record LocallyWraps (t : Text) (dek : Bytes) : Type 0 where
    pub iv : Bytes
    pub iv_length : length iv ≡ iv_bytes
    pub is_wrapped :
        t
        ≡ runtime.to_base64
            (iv ++ (runtime.auth_tag master_key iv dek ++ runtime.cipher master_key iv dek))

  unwrap_dek-LocallyWraps :
      (t : Text) (dek : Bytes) (w : W)
      → length master_key ≡ master_key_bytes
      → LocallyWraps t dek
      → unwrap_dek runtime master_key t w ≡ (ok dek, w)
  unfolding unwrap_dek deciphered_or_throw pure
  unwrap_dek-LocallyWraps t dek w sized h =
      let tag = runtime.auth_tag master_key h.iv dek in
      let sealed = runtime.cipher master_key h.iv dek in
      let rest = drop-append h.iv (tag ++ sealed) iv_bytes h.iv_length in
      let both : length (h.iv ++ tag) ≡ iv_bytes + auth_tag_bytes =
        omega (arith, length-append h.iv tag, h.iv_length, laws.tag_length master_key h.iv dek) in
      let payload =
        ap (drop (iv_bytes + auth_tag_bytes)) (sym (append_assoc h.iv tag sealed))
        ∙ drop-append (h.iv ++ tag) sealed (iv_bytes + auth_tag_bytes) both in
      rw
        (
          h.is_wrapped,
          laws.decoded (h.iv ++ (tag ++ sealed)),
          take-append h.iv (tag ++ sealed) iv_bytes h.iv_length,
          rest,
          take-append tag sealed auth_tag_bytes (laws.tag_length master_key h.iv dek),
          payload,
          laws.deciphered master_key h.iv dek sized h.iv_length,
        )
        refl

  wrap_dek-LocallyWraps :
      (dek : Bytes) (w w' : W) (t : Text)
      → wrap_dek runtime master_key dek w ≡ (ok t, w')
      → LocallyWraps t dek × HasNoColon t
  unfolding wrap_dek
  wrap_dek-LocallyWraps dek w w' t e =
      let (iv, w1, drawn, e1) = bind-ok _ _ _ _ _ e in
      let (same, end) = pure-ok _ _ _ _ e1 in
      (
        record {
          iv = iv;
          iv_length = laws.random_length iv_bytes w w1 iv drawn;
          is_wrapped = sym same;
        },
        subst HasNoColon same (laws.encoded _),
      )

  master_key-length :
      (key : Bytes)
      → ◌≡◌ {A = Result Bytes}
          (if length key == master_key_bytes then ok key else thrown (bad_master_key (length key)))
          (ok master_key)
      → length master_key ≡ master_key_bytes
  master_key-length key e = elim (Bool-cases (length key == master_key_bytes)) [
    | inl right ↦
        let g : ◌≡◌ {A = Result Bytes} (ok key) (ok master_key) = rw right at e in
        let same : key ≡ master_key = cc in
        subst (λ k. length k ≡ master_key_bytes) same (ground arith)
    | inr wrong ↦
        let g : ◌≡◌ {A = Result Bytes} (thrown (bad_master_key (length key))) (ok master_key) =
          rw wrong at e in
        cc
  ]

  -- With a master key that the constructor accepts, the local provider is a key provider: what it
  -- wraps has no colon, and is unwrapped to the same key whenever it is asked.
  pub local-IsKeyProvider :
      (raw : Option Text)
      → master_key_of runtime raw ≡ ok master_key
      → IsKeyProvider (local_key_provider runtime master_key) LocallyWraps
  unfolding master_key_of
  local-IsKeyProvider raw e =
      let sized = master_key-length _ e in
      record {
        wrapped = λ dek w w' t dek_sized done. wrap_dek-LocallyWraps dek w w' t done;
        unwrapped = λ t dek w wraps. (w, unwrap_dek-LocallyWraps t dek w sized wraps);
      }
