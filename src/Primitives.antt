-- ===== src/Primitives.antt =====
-- What core/identity.py, core/trust.py, core/session.py and core/pairing.py use of the cryptography
-- package, of hashlib and of base64. Keys and signatures are their raw bytes.
pub mod Samples
use mesh_direct.Prelude.{ℕ, ◌≡◌, ◌<◌, ◌≤◌, String, Bool, true, List, All, length}
use mesh_direct.Prelude.Python.{Result, ok}
use mesh_direct.Protocol.Text.{count_chars, all_chars, is_hex}
use mesh_direct.Frame.{Bytes}

abbrev pub IsBytes : Bytes → Type 0
IsBytes = All (λ b. b < 256)

pub record Primitives : Type 0 where
  pub b64encode : Bytes → String
  pub b64decode : String → Result Bytes  -- with `validate=True`
  pub sha256 : Bytes → Bytes
  pub hexdigest : Bytes → String  -- `sha256(raw).hexdigest()`
  pub hkdf : Bytes → Bytes → Bytes → Bytes  -- salt, info, secret; 32 bytes of SHA-256
  pub upper : String → String
  pub is_printable : String → Bool
  pub identity_public : Bytes → Bytes  -- Ed25519
  pub sign : Bytes → Bytes → Bytes  -- private key, data
  pub verify : Bytes → Bytes → Bytes → Bool  -- public key, signature, data
  pub ephemeral_public : Bytes → Bytes  -- X25519
  pub exchange : Bytes → Bytes → Result Bytes  -- private key, the other's public key

-- What their documentation says of them.
pub record IsSound (c : Primitives) : Type 0 where
  pub decode-encode : (raw : Bytes) → IsBytes raw → c.b64decode (c.b64encode raw) ≡ ok raw
  pub count-encode_32 : (raw : Bytes) → length raw ≡ 32 → count_chars (c.b64encode raw) ≤ 64
  pub count-encode_64 : (raw : Bytes) → length raw ≡ 64 → count_chars (c.b64encode raw) ≤ 256
  pub count-hexdigest : (raw : Bytes) → count_chars (c.hexdigest raw) ≡ 64
  pub hexdigest-hex : (raw : Bytes) → all_chars is_hex (c.hexdigest raw) ≡ true
  pub length-hkdf : (salt info secret : Bytes) → length (c.hkdf salt info secret) ≡ 32
  pub length-identity_public : (key : Bytes) → length (c.identity_public key) ≡ 32
  pub identity_public-IsBytes : (key : Bytes) → IsBytes (c.identity_public key)
  pub length-sign : (key data' : Bytes) → length (c.sign key data') ≡ 64
  pub sign-IsBytes : (key data' : Bytes) → IsBytes (c.sign key data')
  pub verify-sign :
      (key data' : Bytes) → c.verify (c.identity_public key) (c.sign key data') data' ≡ true
  pub length-ephemeral_public : (key : Bytes) → length (c.ephemeral_public key) ≡ 32
  pub ephemeral_public-IsBytes : (key : Bytes) → IsBytes (c.ephemeral_public key)
  -- Diffie and Hellman: both sides come to the same secret.
  pub exchange-comm :
      (a b : Bytes)
      → (secret : Bytes) × (c.exchange a (c.ephemeral_public b) ≡ ok secret)
        × (c.exchange b (c.ephemeral_public a) ≡ ok secret)
