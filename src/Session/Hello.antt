-- ===== src/Session/Hello.antt =====
-- core/session.py: a hello of an identity, in the order in which it is sent, passes the checks.
use mesh_direct.Prelude.{
  ℕ, ◌≡◌, ◌≤◌, refl, sym, ap, String, Option, none, some, length, eq_nat, eq_string, eq_iff, arith,
}
use mesh_direct.Prelude.Python.{ok}
use mesh_direct.Prelude.Int.{pos}
use mesh_direct.Json.{Fields, str, int, object, field, end, get}
use mesh_direct.Json.Canonical.{sort_fields, drop_field, insert_field}
use mesh_direct.Protocol.Text.{count_chars}
use mesh_direct.Protocol.Checks.{required, text_of}
use mesh_direct.Frame.{Bytes}
use mesh_direct.Transfer.{JsonModule}
use mesh_direct.Primitives.{Primitives, IsSound, IsBytes}
use mesh_direct.Identity.{DeviceIdentity, IsIdentity}
use mesh_direct.Identity.Ids.{decode_public_key-IsIdentity, device_id-IsIdentity}
use mesh_direct.Session.{
  canonical, signed_bytes, hello_fields, create_hello, b64decode_field, validate_hello,
}

module _ (c : Primitives) (json : JsonModule) (role : String) (identity : DeviceIdentity)
    (ephemeral nonce : Bytes) where
  -- the signature of a hello
  abbrev pub hello_signature : Option String → Bytes
  hello_signature hash =
      c.sign identity.private_key
        (signed_bytes json (hello_fields c role identity ephemeral nonce hash end))

  abbrev pub hash_in_order : Option String → Fields → Fields
  hash_in_order none rest = rest
  hash_in_order (some hash) rest = field "peer_hello_hash" (str hash) rest

  -- A hello in the order of its names.
  abbrev pub ordered_hello : Option String → Fields
  ordered_hello hash = field "device_id" (str identity.device_id) (
      field "ephemeral_key" (str (c.b64encode ephemeral)) (
        field "identity_key" (str identity.public_key) (
          field "nonce" (str (c.b64encode nonce)) (
            hash_in_order hash (
              field "protocol" (int (pos 3)) (
                field "role" (str role) (
                  field "signature" (str (c.b64encode (hello_signature hash)))
                    (field "type" (str "hello") end))))))))

  pub sort_fields-create_hello :
      (hash : Option String)
      → sort_fields (create_hello c json role identity ephemeral nonce hash) ≡ ordered_hello hash
  unfolding sort_fields insert_field create_hello hello_fields
  sort_fields-create_hello none = refl
  sort_fields-create_hello (some hash) = refl

  -- It stays as it is under a second sorting, and is signed as it was built.
  pub canonical-ordered_hello :
      (hash : Option String)
      → canonical json (ordered_hello hash)
        ≡ canonical json (create_hello c json role identity ephemeral nonce hash)
  unfolding canonical sort_fields insert_field create_hello hello_fields
  canonical-ordered_hello none = refl
  canonical-ordered_hello (some hash) = refl

  signed_bytes-ordered_hello :
      (hash : Option String)
      → signed_bytes json (ordered_hello hash)
        ≡ signed_bytes json (hello_fields c role identity ephemeral nonce hash end)
  unfolding canonical sort_fields insert_field hello_fields signed_bytes drop_field
  signed_bytes-ordered_hello none = refl
  signed_bytes-ordered_hello (some hash) = refl

-- A key or a nonce of 32 bytes.
abbrev pub Is32Bytes : Bytes → Type 0
Is32Bytes raw = (length raw ≡ 32) × IsBytes raw

module _ (c : Primitives) (sound : IsSound c) (json : JsonModule) where
  -- Bytes that are sent in base64 are read back.
  b64_back :
      (raw : Bytes) (size : ℕ) (message : String)
      → length raw ≡ size
      → IsBytes raw
      → count_chars (c.b64encode raw) ≤ 256
      → b64decode_field c (str (c.b64encode raw)) size message ≡ ok raw
  unfolding b64decode_field required
  b64_back raw size message n bytes small =
      rw (sound.decode-encode raw bytes) (ground (arith, n, small))

  -- A message with the fields of a hello, under a signature of the identity that it names.
  record IsHello (role : String) (identity : DeviceIdentity) (ephemeral nonce : Bytes)
      (fields : Fields) : Type 0 where
    pub type : get "type" fields ≡ str "hello"
    pub protocol : get "protocol" fields ≡ int (pos 3)
    pub role_is : get "role" fields ≡ str role
    pub device_id : get "device_id" fields ≡ str identity.device_id
    pub identity_key : get "identity_key" fields ≡ str identity.public_key
    pub ephemeral_key : get "ephemeral_key" fields ≡ str (c.b64encode ephemeral)
    pub nonce_is : get "nonce" fields ≡ str (c.b64encode nonce)
    pub signature :
        get "signature" fields
        ≡ str (c.b64encode (c.sign identity.private_key (signed_bytes json fields)))

  b64_back_32 :
      (raw : Bytes) (message : String)
      → Is32Bytes raw
      → b64decode_field c (str (c.b64encode raw)) 32 message ≡ ok raw
  b64_back_32 raw message h =
      b64_back raw 32 message h.0 h.1 (omega (arith, sound.count-encode_32 raw h.0))

  IsHello-passes :
      (role : String) (identity : DeviceIdentity) (ephemeral nonce : Bytes) (fields : Fields)
      → IsIdentity c identity
      → Is32Bytes ephemeral
      → Is32Bytes nonce
      → IsHello role identity ephemeral nonce fields
      → validate_hello c json (object fields) role ≡ ok (fields, ephemeral, nonce)
  unfolding validate_hello required text_of
  IsHello-passes role identity ephemeral nonce fields i e n h =
      let sig = c.sign identity.private_key (signed_bytes json fields) in
      let opened =
        b64_back sig 64 "Invalid signature"
          (sound.length-sign identity.private_key (signed_bytes json fields))
          (sound.sign-IsBytes identity.private_key (signed_bytes json fields))
          (sound.count-encode_64 sig
            (sound.length-sign identity.private_key (signed_bytes json fields))) in
      rw
        (
          h.type, h.protocol, h.role_is, h.device_id, h.identity_key, h.ephemeral_key, h.nonce_is,
          h.signature,
        )
        (rw
          (
            (eq_iff role role).1 refl,
            device_id-IsIdentity c sound identity i,
            decode_public_key-IsIdentity c sound identity i,
            b64_back_32 ephemeral "Invalid ephemeral key" e,
            b64_back_32 nonce "Invalid nonce" n,
            opened,
            sound.verify-sign identity.private_key (signed_bytes json fields),
          )
          refl)

  ordered_hello-IsHello :
      (role : String) (identity : DeviceIdentity) (ephemeral nonce : Bytes) (hash : Option String)
      → IsHello role identity ephemeral nonce
          (ordered_hello c json role identity ephemeral nonce hash)
  unfolding get
  ordered_hello-IsHello role identity ephemeral nonce none = record {
    type = refl;
    protocol = refl;
    role_is = refl;
    device_id = refl;
    identity_key = refl;
    ephemeral_key = refl;
    nonce_is = refl;
    signature =
        ap (λ b. str (c.b64encode (c.sign identity.private_key b)))
          (sym (signed_bytes-ordered_hello c json role identity ephemeral nonce none));
  }
  ordered_hello-IsHello role identity ephemeral nonce (some hash) = record {
    type = refl;
    protocol = refl;
    role_is = refl;
    device_id = refl;
    identity_key = refl;
    ephemeral_key = refl;
    nonce_is = refl;
    signature =
        ap (λ b. str (c.b64encode (c.sign identity.private_key b)))
          (sym (signed_bytes-ordered_hello c json role identity ephemeral nonce (some hash)));
  }

  -- The hello of an identity, as it arrives, is one that the other side takes.
  pub validate_hello-ordered_hello :
      (role : String) (identity : DeviceIdentity) (ephemeral nonce : Bytes) (hash : Option String)
      → IsIdentity c identity
      → Is32Bytes ephemeral
      → Is32Bytes nonce
      → validate_hello c json
          (object (ordered_hello c json role identity ephemeral nonce hash))
          role
        ≡ ok (ordered_hello c json role identity ephemeral nonce hash, ephemeral, nonce)
  validate_hello-ordered_hello role identity ephemeral nonce hash i e n =
      IsHello-passes role identity ephemeral nonce _ i e n
        (ordered_hello-IsHello role identity ephemeral nonce hash)
