-- ===== src/Encryption/Tests.antt =====
-- A round trip over a small runtime, with the local key provider.
use coupi.Prelude.{
  ℕ, zero, suc, ◌+◌, ◌-◌, ◌≡◌, refl, sym, ap, ◌∙◌, none, some, List, [], ◌∷◌, ◌++◌, map, length,
  arith, Text, units,
}
use coupi.Effects.{ok, on_right, ◌>>=◌}
use coupi.Encryption.{Bytes, KeyProvider, Runtime, HasNoColon, IsRuntime, IsKeyProvider}
use coupi.Encryption.Envelope.{join}
use coupi.Encryption.Local.{master_key_of, wrap_dek, local_key_provider}
use coupi.Encryption.Local.Wrapping.{LocallyWraps, local-IsKeyProvider}
use coupi.Encryption.Service.{
  KeyCache, seal, new_dek, current_or_new, get_current_dek, set_current, read_cache, encrypt,
  decrypt,
}
use coupi.Encryption.Service.Keys.{IsCache}
use coupi.Encryption.Service.Sealed.{decrypt-encrypt}

abbrev repeat : ℕ → ℕ → Bytes
repeat zero x = []
repeat (suc n) x = x ∷ repeat n x

length-repeat : (n x : ℕ) → length (repeat n x) ≡ n
length-repeat zero x = refl
length-repeat (suc n) x = omega (arith, length-repeat n x)

abbrev sixteen : Bytes
sixteen = repeat 16 0

-- A clock that draws its bytes from the time; the cipher is no secret.
abbrev runtime : Runtime ℕ
runtime = record {
  cipher = λ key iv m. m;
  auth_tag = λ key iv m. sixteen;
  decipher = λ key iv tag m. some m;
  to_base64 = λ b. map (λ n. n + 59) b;
  from_base64 = λ s. map (λ n. n - 59) s;
  to_utf8 = λ s. s;
  from_utf8 = λ b. b;
  random_bytes = λ n w. (ok (repeat n w), w + 1);
  now = λ w. (ok w, w);
}

map-back : (s : List ℕ) → map (λ n. n - 59) (map (λ n. n + 59) s) ≡ s
map-back [] = refl
map-back (n ∷ s) =
    let rest = map-back s in
    ap (λ k. k ∷ map (λ n. n - 59) (map (λ n. n + 59) s)) (omega arith) ∙ ap (λ l. n ∷ l) rest

encoded : (b : Bytes) → HasNoColon (runtime.to_base64 b)
encoded [] = tt
encoded (n ∷ b) = (ground arith, encoded b)

random_length : (n w w' : ℕ) (b : Bytes) → runtime.random_bytes n w ≡ (ok b, w') → length b ≡ n
random_length n w w' b e =
    let same : repeat n w ≡ b = cc in ap length (sym same) ∙ length-repeat n w

runtime-IsRuntime : IsRuntime runtime
runtime-IsRuntime = record {
  deciphered = λ key iv m k v. refl;
  tag_length = λ key iv m. refl;
  decoded = map-back;
  encoded = encoded;
  random_length = random_length;
  tells_time = λ w. (w, w, refl);
}

abbrev master_key : Bytes
master_key = repeat 32 1

abbrev provider : KeyProvider ℕ
provider = local_key_provider runtime master_key

abbrev Wraps : Text → Bytes → Type 0
Wraps t dek = LocallyWraps runtime runtime-IsRuntime master_key t dek

master_key_accepted : master_key_of runtime (some (runtime.to_base64 master_key)) ≡ ok master_key
unfolding master_key_of
master_key_accepted = refl

local-IsKeyProvider_example : IsKeyProvider provider Wraps
local-IsKeyProvider_example =
    local-IsKeyProvider runtime runtime-IsRuntime master_key (some (runtime.to_base64 master_key))
      master_key_accepted

provider-IsKeyProvider : IsKeyProvider provider Wraps
provider-IsKeyProvider =
    local-IsKeyProvider runtime runtime-IsRuntime master_key (some (runtime.to_base64 master_key))
      master_key_accepted

abbrev no_keys : KeyCache
no_keys = record { current_dek = none; unwrap_cache = [] }

abbrev IsKept : KeyCache → Type 0
IsKept s = IsCache provider runtime Wraps runtime-IsRuntime provider-IsKeyProvider s

no_keys-IsCache : IsKept no_keys
no_keys-IsCache = record { current = tt; entries = tt }

abbrev token : Text
token = units "1//refresh"

-- The key that is drawn first, its wrapping, and the vector that is drawn third.
abbrev envelope : Text
envelope =
    seal provider runtime (repeat 32 0)
      (runtime.to_base64 (repeat 12 1 ++ (sixteen ++ repeat 32 0))) (repeat 12 2) token

abbrev one_key : KeyCache
one_key = record {
  current_dek = some (record {
    dek = repeat 32 0;
    wrapped = runtime.to_base64 (repeat 12 1 ++ (sixteen ++ repeat 32 0));
    created_at = 2;
  });
  unwrap_cache = [];
}

encrypted : encrypt provider runtime token (no_keys, 0) ≡ (ok envelope, (one_key, 3))
unfolding encrypt get_current_dek read_cache current_or_new new_dek set_current wrap_dek seal join
    ◌>>=◌ on_right
encrypted = refl

-- A process that has restarted decrypts what another has encrypted.
decrypt-encrypt_example :
    (s : KeyCache) × (w : ℕ) × (decrypt provider runtime envelope (no_keys, 100)
      ≡ (ok token, (s, w)))
decrypt-encrypt_example =
    decrypt-encrypt provider runtime Wraps runtime-IsRuntime provider-IsKeyProvider token envelope
      no_keys one_key no_keys 0 3 100 refl no_keys-IsCache encrypted no_keys-IsCache
