-- ===== src/Encryption/Service/Sealed.antt =====
-- A text that is encrypted and decrypted again.
use coupi.Prelude.{◌≡◌, refl, sym, ap, ◌∙◌, [], ◌∷◌, length, Text, text_eq}
use mathlib.Core.Path.{subst}
use coupi.Numerals.{split}
use coupi.Effects.{ok, pure}
use coupi.Effects.Calls.{bind-ok, bind-go, pure-ok, bind-on_right}
use coupi.Encryption.{
  Bytes, dek_bytes, iv_bytes, KeyProvider, Runtime, HasNoColon, IsRuntime, IsKeyProvider,
}
use coupi.Encryption.Envelope.{split-join}
use coupi.Encryption.Service.{
  KeyCache, CachedDek, envelope_version, seal, encrypt, opened, decrypt_parts, decrypt,
}
use coupi.Encryption.Service.Keys.{IsCache, IsKey, get_current_dek-IsKey, unwrap_dek-go}

version-HasNoColon : HasNoColon envelope_version
version-HasNoColon = (refl, (refl, tt))

module _ {W : Type 0} (provider : KeyProvider W) (runtime : Runtime W)
    (Wraps : Text → Bytes → Type 0) (runtime_laws : IsRuntime runtime)
    (provider_laws : IsKeyProvider provider Wraps) where
  -- An envelope that the service has made of a plaintext.
  pub record IsSealed (plaintext envelope : Text) : Type 0 where
    pub key : CachedDek
    pub iv : Bytes
    pub is_key : IsKey provider runtime Wraps runtime_laws provider_laws key
    pub iv_length : length iv ≡ iv_bytes
    pub sealed : envelope ≡ seal provider runtime key.dek key.wrapped iv plaintext

  -- What the service answers to a text is an envelope of it, and its keys stay in order.
  pub encrypt-IsSealed :
      (plaintext envelope : Text) (s s' : KeyCache) (w w' : W)
      → IsCache provider runtime Wraps runtime_laws provider_laws s
      → encrypt provider runtime plaintext (s, w) ≡ (ok envelope, (s', w'))
      → IsSealed plaintext envelope × IsCache provider runtime Wraps runtime_laws provider_laws s'
  unfolding encrypt
  encrypt-IsSealed plaintext envelope s s' w w' h e =
      let (key, (s1, w1), given, e1) = bind-ok _ _ _ _ _ e in
      let (is_key, kept) =
        get_current_dek-IsKey provider runtime Wraps runtime_laws provider_laws s s1 w w1 key h
          given in
      let (iv, w2, drawn, e2) = bind-on_right _ _ _ _ _ _ e1 in
      let (same, end) = pure-ok _ _ _ _ e2 in
      (
        record {
          key = key;
          iv = iv;
          is_key = is_key;
          iv_length = runtime_laws.random_length iv_bytes w1 w2 iv drawn;
          sealed = sym same;
        },
        subst (IsCache provider runtime Wraps runtime_laws provider_laws)
            (ap (λ (v : KeyCache × W). v.0) end) kept,
      )

  split-seal :
      (key : CachedDek) (iv : Bytes) (plaintext : Text)
      → IsKey provider runtime Wraps runtime_laws provider_laws key
      → split b':' (seal provider runtime key.dek key.wrapped iv plaintext)
        ≡ envelope_version
          ∷ key.wrapped
          ∷ runtime.to_base64 iv
          ∷ runtime.to_base64 (runtime.auth_tag key.dek iv (runtime.to_utf8 plaintext))
          ∷ runtime.to_base64 (runtime.cipher key.dek iv (runtime.to_utf8 plaintext))
          ∷ []
  unfolding seal
  split-seal key iv plaintext (_, free, _) = split-join b':' _ _ (
    version-HasNoColon,
    (free, (runtime_laws.encoded _, (runtime_laws.encoded _, (runtime_laws.encoded _, tt)))),
  )

  opened-cipher :
      (key : CachedDek) (iv : Bytes) (plaintext : Text)
      → length key.dek ≡ dek_bytes
      → length iv ≡ iv_bytes
      → runtime.from_utf8 (runtime.to_utf8 plaintext) ≡ plaintext
      → (v : KeyCache × W)
      → opened provider runtime
          (runtime.decipher key.dek
            (runtime.from_base64 (runtime.to_base64 iv))
            (runtime.from_base64
              (runtime.to_base64 (runtime.auth_tag key.dek iv (runtime.to_utf8 plaintext))))
            (runtime.from_base64
              (runtime.to_base64 (runtime.cipher key.dek iv (runtime.to_utf8 plaintext)))))
          v
        ≡ (ok plaintext, v)
  unfolding opened pure
  opened-cipher key iv plaintext sized iv_sized carried v =
      rw
        (
          runtime_laws.decoded iv,
          runtime_laws.decoded (runtime.auth_tag key.dek iv (runtime.to_utf8 plaintext)),
          runtime_laws.decoded (runtime.cipher key.dek iv (runtime.to_utf8 plaintext)),
          runtime_laws.deciphered key.dek iv (runtime.to_utf8 plaintext) sized iv_sized,
          carried,
        )
        refl

  -- An envelope of a text that UTF-8 can carry is decrypted to that text by every state of the service
  -- whose keys are in order, and they stay so.
  pub decrypt-IsSealed :
      (plaintext envelope : Text) (s : KeyCache) (w : W)
      → runtime.from_utf8 (runtime.to_utf8 plaintext) ≡ plaintext
      → IsSealed plaintext envelope
      → IsCache provider runtime Wraps runtime_laws provider_laws s
      → (s' : KeyCache) × (w' : W) × (decrypt provider runtime envelope (s, w)
          ≡ (ok plaintext, (s', w')))
        × IsCache provider runtime Wraps runtime_laws provider_laws s'
  unfolding decrypt decrypt_parts opened pure text_eq
  decrypt-IsSealed plaintext envelope s w carried h cache =
      let (wraps, _, sized) = h.is_key in
      let (s', w', unwrapped, kept) =
        unwrap_dek-go provider runtime Wraps runtime_laws provider_laws s w h.key.wrapped h.key.dek
          cache wraps in
      (
        s',
        w',
        rw (h.sealed, split-seal h.key h.iv plaintext h.is_key)
            (bind-go _ _ (s, w) (s', w') h.key.dek unwrapped
              ∙ opened-cipher h.key h.iv plaintext sized h.iv_length carried (s', w')),
        kept,
      )

  -- What `encrypt` answers for a text that UTF-8 can carry is decrypted to the same text in every state
  -- of the service and of the key provider, if the keys that the service keeps are in order at both
  -- times and the provider unwraps what it has wrapped.
  pub decrypt-encrypt :
      (plaintext envelope : Text) (s s1 s2 : KeyCache) (w w1 w2 : W)
      → runtime.from_utf8 (runtime.to_utf8 plaintext) ≡ plaintext
      → IsCache provider runtime Wraps runtime_laws provider_laws s
      → encrypt provider runtime plaintext (s, w) ≡ (ok envelope, (s1, w1))
      → IsCache provider runtime Wraps runtime_laws provider_laws s2
      → (s3 : KeyCache) × (w3 : W) × (decrypt provider runtime envelope (s2, w2)
          ≡ (ok plaintext, (s3, w3)))
  decrypt-encrypt plaintext envelope s s1 s2 w w1 w2 carried cache sealed later =
      let (is_sealed, _) = encrypt-IsSealed plaintext envelope s s1 w w1 cache sealed in
      let (s3, w3, done, _) = decrypt-IsSealed plaintext envelope s2 w2 carried is_sealed later in
      (s3, w3, done)
