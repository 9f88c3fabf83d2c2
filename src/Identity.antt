-- ===== src/Identity.antt =====
-- core/identity.py: the text forms of a public key, and the device ID that is derived from it.
pub mod Ids
use Prim.Native.Char.{code}
use Prim.Native.String.{[], ◌∷◌, ◌++◌ as text_append}
use mesh_direct.Prelude.{
  ℕ, zero, suc, ◌≡◌, String, Bool, true, false, ◌&&◌, not, ltb, ◌==◌, eq_nat, if◌then◌else◌, length,
}
use mesh_direct.Prelude.Python.{Result, ok, raise, ◌>>=◌, ◌>>◌, raise_if, value_error}
use mesh_direct.Protocol.Text.{count_chars, all_chars, is_hex, prefix}
use mesh_direct.Frame.{Bytes}
use mesh_direct.Primitives.{Primitives}

-- `DEVICE_ID_PATTERN`: mp- and 8 digits of 0-9 and a-f
unfoldable pub is_device_id : String → Bool
is_device_id (a ∷ b ∷ c ∷ s) =
    code a == b'm' && code b == b'p' && code c == b'-' && count_chars s == 8 && all_chars is_hex s
is_device_id _ = false

-- `s[n:]`
unfoldable pub behind : ℕ → String → String
behind zero s = s
behind (suc n) [] = []
behind (suc n) (c ∷ s) = behind n s

-- `digest[index : index + 4]`
abbrev pub group : ℕ → String → String
group index digest = prefix 4 (behind index digest)

module _ (c : Primitives) where
  unfoldable pub decode_public_key : String → Result Bytes
  decode_public_key value = do
    raise_if (ltb 64 (count_chars value)) (value_error "Invalid Ed25519 public key")
    raw ← c.b64decode value
    raise_if (not (length raw == 32)) (value_error "Invalid Ed25519 public key length")
    ok raw

  unfoldable pub device_id_of : Bytes → String
  device_id_of raw = text_append "mp-" (prefix 8 (c.hexdigest raw))

  unfoldable pub device_id_from_public_key : String → Result String
  unfolding device_id_of
  device_id_from_public_key public_key = do raw ← c.b64decode public_key; ok (device_id_of raw)

  -- the first 16 digits in groups of four
  unfoldable pub fingerprint_from_public_key : String → Result String
  unfolding behind
  fingerprint_from_public_key public_key = do
    raw ← c.b64decode public_key
    let digest = c.upper (prefix 16 (c.hexdigest raw))
    ok (
        text_append (prefix 4 digest) (
          text_append " " (
            text_append (group 4 digest) (
              text_append " " (text_append (group 8 digest) (text_append " " (group 12 digest)))))))

-- `DeviceIdentity`
pub record DeviceIdentity : Type 0 where
  pub device_id : String
  pub public_key : String
  pub private_key : Bytes

-- What `load_or_create` makes of a private key.
pub record IsIdentity (c : Primitives) (identity : DeviceIdentity) : Type 0 where
  pub public_key : identity.public_key ≡ c.b64encode (c.identity_public identity.private_key)
  pub device_id : device_id_from_public_key c identity.public_key ≡ ok identity.device_id
