-- ===== src/Encryption/Local.antt =====
-- backend/src/common/encryption/local-key-provider.ts: data keys are wrapped by a master key that the
-- process holds.
pub mod Wrapping
use coupi.Prelude.{
  ℕ, ◌+◌, Bool, true, false, Option, none, some, List, [], ◌++◌, length, take, drop, ◌==◌,
  if◌then◌else◌, Text, units,
}
use coupi.Numerals.{string_of}
use coupi.Effects.{Exec, Result, Thrown, ok, thrown, other_error, pure, throw, ◌>>=◌}
use coupi.Encryption.{Bytes, iv_bytes, auth_tag_bytes, KeyProvider, Runtime}
use coupi.Encryption.Service.{bad_tag}

abbrev pub master_key_bytes : ℕ
master_key_bytes = 32

abbrev pub bad_master_key : ℕ → Thrown
bad_master_key n = other_error none (
    units "ENCRYPTION_MASTER_KEY는 base64로 인코딩된 32바이트여야 한다 (현재 "
    ++ string_of n
    ++ units "바이트). 생성: openssl rand -base64 32")

-- `config.get(...) ?? ''`
abbrev or_empty : Option Text → Text
or_empty none = []
or_empty (some s) = s

abbrev key_or_error : Bytes → Result Bytes
key_or_error key =
    if length key == master_key_bytes then ok key else thrown (bad_master_key (length key))

module _ {W : Type 0} (runtime : Runtime W) where
  -- The constructor, as far as the master key.
  unfoldable pub master_key_of : Option Text → Result Bytes
  master_key_of raw = key_or_error (runtime.from_base64 (or_empty raw))

  module _ (master_key : Bytes) where
    unfoldable pub wrap_dek : Bytes → Exec W Text
    wrap_dek dek = do
      iv ← runtime.random_bytes iv_bytes
      pure (
          runtime.to_base64
            (iv ++ (runtime.auth_tag master_key iv dek ++ runtime.cipher master_key iv dek)))

    unfoldable pub deciphered_or_throw : Option Bytes → Exec W Bytes
    deciphered_or_throw none = throw bad_tag
    deciphered_or_throw (some dek) = pure dek

    unfoldable pub unwrap_dek : Text → Exec W Bytes
    unwrap_dek wrapped =
        let raw = runtime.from_base64 wrapped in
        deciphered_or_throw (
          runtime.decipher master_key (take iv_bytes raw) (take auth_tag_bytes (drop iv_bytes raw))
            (drop (iv_bytes + auth_tag_bytes) raw))

    abbrev pub local_key_provider : KeyProvider W
    local_key_provider = record { wrap_dek = wrap_dek; unwrap_dek = unwrap_dek }
