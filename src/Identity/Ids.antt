-- ===== src/Identity/Ids.antt =====
-- core/identity.py: the ID and the key of an identity pass the checks of its peers.
use Prim.Native.String.{◌∷◌, ◌++◌ as text_append}
use text.Mathlib.TextLemmas.{cons-append, nil-append}
use mesh_direct.Prelude.{◌≡◌, refl, ap, ◌∙◌, String, true, ◌&&◌, ◌==◌, eq_nat, arith}
use mesh_direct.Prelude.Python.{ok}
use mesh_direct.Protocol.Text.{
  count_chars, all_chars, is_hex, prefix, count_chars-prefix, all_chars-prefix,
}
use mesh_direct.Frame.{Bytes}
use mesh_direct.Primitives.{Primitives, IsSound}
use mesh_direct.Identity.{
  is_device_id, decode_public_key, device_id_of, device_id_from_public_key, DeviceIdentity,
  IsIdentity,
}

mp_text : (s : String) → text_append "mp-" s ≡ "m" ∷ "p" ∷ "-" ∷ s
mp_text s =
    cons-append "m" "p-" s
    ∙ ap (λ t. "m" ∷ t)
        (cons-append "p" "-" s
          ∙ ap (λ t. "p" ∷ t) (cons-append "-" "" s ∙ ap (λ t. "-" ∷ t) (nil-append s)))

mp_form :
    (s : String) → is_device_id (text_append "mp-" s) ≡ (count_chars s == 8 && all_chars is_hex s)
unfolding is_device_id
mp_form s = ap is_device_id (mp_text s)

module _ (c : Primitives) (sound : IsSound c) where
  pub device_id_of-is_device_id : (raw : Bytes) → is_device_id (device_id_of c raw) ≡ true
  unfolding device_id_of
  device_id_of-is_device_id raw =
      mp_form (prefix 8 (c.hexdigest raw))
      ∙ rw
          (
            count_chars-prefix 8 (c.hexdigest raw) (rw (sound.count-hexdigest raw) (omega arith)),
            all_chars-prefix is_hex 8 (c.hexdigest raw) (sound.hexdigest-hex raw),
          )
          refl

  -- The public key of an identity is decoded.
  pub decode_public_key-IsIdentity :
      (identity : DeviceIdentity)
      → IsIdentity c identity
      → decode_public_key c identity.public_key ≡ ok (c.identity_public identity.private_key)
  unfolding decode_public_key
  decode_public_key-IsIdentity identity i =
      let raw = c.identity_public identity.private_key in
      let small = sound.count-encode_32 raw (sound.length-identity_public identity.private_key) in
      rw
        (
          i.public_key,
          sound.decode-encode raw (sound.identity_public-IsBytes identity.private_key),
          sound.length-identity_public identity.private_key,
        )
        (ground arith)

  derived_id :
      (identity : DeviceIdentity)
      → IsIdentity c identity
      → device_id_from_public_key c identity.public_key
        ≡ ok (device_id_of c (c.identity_public identity.private_key))
  unfolding device_id_from_public_key
  derived_id identity i =
      rw
        (
          i.public_key,
          sound.decode-encode (c.identity_public identity.private_key)
              (sound.identity_public-IsBytes identity.private_key),
        )
        refl

  -- Its device ID has the right form.
  pub device_id-IsIdentity :
      (identity : DeviceIdentity) → IsIdentity c identity → is_device_id identity.device_id ≡ true
  device_id-IsIdentity identity i = ground (
    arith,
    derived_id identity i,
    i.device_id,
    device_id_of-is_device_id (c.identity_public identity.private_key),
  )
