-- ===== src/Encryption/Service.antt =====
-- backend/src/common/encryption/encryption.service.ts: texts are sealed by a data key that is kept for
-- five minutes, and that each sealed text carries along, wrapped by the key provider.
pub mod Keys
pub mod Sealed
use coupi.Prelude.{
  ℕ, ◌-◌, ◌*◌, Bool, true, false, Option, none, some, List, [], ◌∷◌, ltb, if◌then◌else◌, Text,
  units, text_eq,
}
use coupi.Effects.{Exec, Result, Thrown, ok, other_error, pure, throw, on_right, ◌>>=◌, ◌>>◌}
use coupi.Numerals.{split}
use coupi.Encryption.{Bytes, dek_bytes, iv_bytes, KeyProvider, Runtime}
use coupi.Encryption.Envelope.{join}

abbrev pub envelope_version : Text
envelope_version = units "v1"

abbrev pub dek_cache_ttl_ms : ℕ
dek_cache_ttl_ms = 5 * 60 * 1000

pub record CachedDek : Type 0 where
  pub dek : Bytes
  pub wrapped : Text
  pub created_at : ℕ

-- The two fields of the service. An entry of the map that is set again stands before the old one.
pub record KeyCache : Type 0 where
  pub current_dek : Option CachedDek
  pub unwrap_cache : List CachedDek

-- `map.get(wrapped)`
unfoldable pub get_dek : Text → List CachedDek → Option CachedDek
get_dek wrapped [] = none
get_dek wrapped (entry ∷ entries) =
    let rest = get_dek wrapped entries in if text_eq entry.wrapped wrapped then some entry else rest

abbrev pub bad_envelope : Thrown
bad_envelope = other_error none (units "암호문 형식이 올바르지 않다.")

-- What `final()` throws on a text that does not fit its tag.
abbrev pub bad_tag : Thrown
bad_tag = other_error none (units "Unsupported state or unable to authenticate data")

abbrev clear_key_cache : KeyCache → KeyCache
clear_key_cache c = record { current_dek = none; unwrap_cache = [] }

module _ {W : Type 0} where
  -- An assignment to `this.currentDek`, and `this.unwrapCache.set`.
  unfoldable pub set_current : CachedDek → Exec (KeyCache × W) (Unit {0})
  set_current c (s, w) = (ok tt, (record s { current_dek = some c }, w))

  unfoldable pub set_unwrapped : CachedDek → Exec (KeyCache × W) (Unit {0})
  set_unwrapped c (s, w) = (ok tt, (record s { unwrap_cache = c ∷ s.unwrap_cache }, w))

  unfoldable pub read_cache : Exec (KeyCache × W) KeyCache
  read_cache (s, w) = (ok s, (s, w))

module _ {W : Type 0} (provider : KeyProvider W) (runtime : Runtime W) where
  unfoldable pub new_dek : Exec (KeyCache × W) CachedDek
  new_dek = do
    dek ← on_right (runtime.random_bytes dek_bytes)
    wrapped ← on_right (provider.wrap_dek dek)
    at ← on_right runtime.now
    set_current (record { dek = dek; wrapped = wrapped; created_at = at })
    pure (record { dek = dek; wrapped = wrapped; created_at = at })

  unfoldable pub fresh_or_new : CachedDek → ℕ → Exec (KeyCache × W) CachedDek
  fresh_or_new c at = if ltb (at - c.created_at) dek_cache_ttl_ms then pure c else new_dek

  unfoldable pub current_or_new : Option CachedDek → Exec (KeyCache × W) CachedDek
  current_or_new none = new_dek
  current_or_new (some c) = do at ← on_right runtime.now; fresh_or_new c at

  unfoldable pub get_current_dek : Exec (KeyCache × W) CachedDek
  get_current_dek = do s ← read_cache; current_or_new s.current_dek

  -- The envelope of a plaintext, by a key and a vector.
  unfoldable pub seal : Bytes → Text → Bytes → Text → Text
  seal dek wrapped iv plaintext = join b':' (
      envelope_version
      ∷ wrapped
      ∷ runtime.to_base64 iv
      ∷ runtime.to_base64 (runtime.auth_tag dek iv (runtime.to_utf8 plaintext))
      ∷ runtime.to_base64 (runtime.cipher dek iv (runtime.to_utf8 plaintext))
      ∷ [])

  unfoldable pub encrypt : Text → Exec (KeyCache × W) Text
  encrypt plaintext = do
    key ← get_current_dek
    iv ← on_right (runtime.random_bytes iv_bytes)
    pure (seal key.dek key.wrapped iv plaintext)

  unfoldable pub unwrap_new : Text → Exec (KeyCache × W) Bytes
  unwrap_new wrapped = do
    dek ← on_right (provider.unwrap_dek wrapped)
    at ← on_right runtime.now
    set_unwrapped (record { dek = dek; wrapped = wrapped; created_at = at })
    pure dek

  unfoldable pub fresh_or_unwrap : Text → CachedDek → ℕ → Exec (KeyCache × W) Bytes
  fresh_or_unwrap wrapped c at =
      if ltb (at - c.created_at) dek_cache_ttl_ms then pure c.dek else unwrap_new wrapped

  unfoldable pub cached_or_unwrap : Text → Option CachedDek → Exec (KeyCache × W) Bytes
  cached_or_unwrap wrapped none = unwrap_new wrapped
  cached_or_unwrap wrapped (some c) = do at ← on_right runtime.now; fresh_or_unwrap wrapped c at

  unfoldable pub unwrap_dek : Text → Exec (KeyCache × W) Bytes
  unwrap_dek wrapped = do s ← read_cache; cached_or_unwrap wrapped (get_dek wrapped s.unwrap_cache)

  unfoldable pub opened : Option Bytes → Exec (KeyCache × W) Text
  opened none = throw bad_tag
  opened (some m) = pure (runtime.from_utf8 m)

  unfoldable pub decrypt_parts : List Text → Exec (KeyCache × W) Text
  decrypt_parts (version ∷ wrapped ∷ iv ∷ auth_tag ∷ ciphertext ∷ []) =
      if text_eq version envelope_version
      then (do
        dek ← unwrap_dek wrapped
        opened (
            runtime.decipher dek (runtime.from_base64 iv) (runtime.from_base64 auth_tag)
              (runtime.from_base64 ciphertext)))
      else throw bad_envelope
  decrypt_parts _ = throw bad_envelope

  unfoldable pub decrypt : Text → Exec (KeyCache × W) Text
  decrypt envelope = decrypt_parts (split b':' envelope)
