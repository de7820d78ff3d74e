-- ===== src/Encryption.antt =====
-- backend/src/common/encryption: the envelope in which tokens are stored. The cipher AES-256-GCM,
-- base64, UTF-8 and the source of random bytes are those of the runtime, and so parameters.
pub mod Envelope
pub mod Service
pub mod Local
mod Tests
use coupi.Prelude.{ℕ, ◌≡◌, Bool, false, Option, some, List, ◌==◌, length, All, Text}
use coupi.Effects.{Exec, ok}

abbrev pub Bytes : Type 0
Bytes = List ℕ

abbrev pub dek_bytes : ℕ
dek_bytes = 32

abbrev pub iv_bytes : ℕ
iv_bytes = 12

abbrev pub auth_tag_bytes : ℕ
auth_tag_bytes = 16

-- KeyProvider
pub record KeyProvider (W : Type 0) : Type 0 where
  pub wrap_dek : Bytes → Exec W Text
  pub unwrap_dek : Text → Exec W Bytes

-- What the runtime gives: a cipher by key and initialization vector, whose decryption refuses a text
-- with another tag, and the encodings.
pub record Runtime (W : Type 0) : Type 0 where
  pub cipher : Bytes → Bytes → Bytes → Bytes
  pub auth_tag : Bytes → Bytes → Bytes → Bytes
  pub decipher : Bytes → Bytes → Bytes → Bytes → Option Bytes
  pub to_base64 : Bytes → Text
  pub from_base64 : Text → Bytes
  pub to_utf8 : Text → Bytes
  pub from_utf8 : Bytes → Text
  pub random_bytes : ℕ → Exec W Bytes
  pub now : Exec W ℕ

-- No unit of the text is a colon.
abbrev pub HasNoColon : Text → Type 0
HasNoColon s = All (λ c. (c == b':') ≡ false) s

-- What its documentation says of the cipher with keys and vectors of its sizes, and of base64.
pub record IsRuntime {W : Type 0} (runtime : Runtime W) : Type 0 where
  pub deciphered :
      (key iv m : Bytes)
      → length key ≡ dek_bytes
      → length iv ≡ iv_bytes
      → runtime.decipher key iv (runtime.auth_tag key iv m) (runtime.cipher key iv m) ≡ some m
  pub tag_length : (key iv m : Bytes) → length (runtime.auth_tag key iv m) ≡ auth_tag_bytes
  pub decoded : (b : Bytes) → runtime.from_base64 (runtime.to_base64 b) ≡ b
  pub encoded : (b : Bytes) → HasNoColon (runtime.to_base64 b)
  pub random_length :
      (n : ℕ) (w w' : W) (b : Bytes) → runtime.random_bytes n w ≡ (ok b, w') → length b ≡ n
  pub tells_time : (w : W) → (at : ℕ) × (w' : W) × (runtime.now w ≡ (ok at, w'))

-- What the encryption asks of a key provider, for the texts that wrap a key: a key that is wrapped
-- comes back from every later unwrapping, and the text has no colon.
pub record IsKeyProvider {W : Type 0} (provider : KeyProvider W) (Wraps : Text → Bytes → Type 0)
    : Type 0 where
  pub wrapped :
      (dek : Bytes) (w w' : W) (t : Text)
      → length dek ≡ dek_bytes
      → provider.wrap_dek dek w ≡ (ok t, w')
      → Wraps t dek × HasNoColon t
  pub unwrapped :
      (t : Text) (dek : Bytes) (w : W)
      → Wraps t dek
      → (w' : W) × (provider.unwrap_dek t w ≡ (ok dek, w'))
