-- ===== src/Session.antt =====
-- core/session.py: the authenticated handshake. A side is a function of the key and the nonce that it
-- draws and of what its socket will bring; it gives the bytes that it sends and what it returns.
mod Hello
mod Sending
mod Sides
mod Agreement
pub mod Authenticity
mod Tests
use Prim.Native.Char.{code}
use Prim.Native.String.{[] as empty, ◌∷◌ as char_and}
use mesh_direct.Prelude.{
  ℕ, String, Bool, true, false, not, ◌||◌, Option, none, some, [], ◌∷◌, ◌++◌, length, ltb, ◌==◌,
  eq_nat, eq_string, if◌then◌else◌,
}
use mesh_direct.Prelude.Python.{
  Error, Result, ok, raise, ◌>>=◌, ◌>>◌, raise_if, protocol_error, authentication_error,
  value_error,
}
use mesh_direct.Prelude.Int.{pos}
use mesh_direct.Json.{
  Value, Fields, str, int, object, field, end, get, as_object, as_string, is_string, is_number,
}
use mesh_direct.Json.Canonical.{sort_fields, drop_field}
use mesh_direct.Protocol.Text.{count_chars}
use mesh_direct.Protocol.Checks.{required, text_of}
use mesh_direct.Frame.{Bytes, pack_frame, unpack_frame}
use mesh_direct.Frame.Stream.{Socket}
use mesh_direct.Transfer.{JsonModule}
use mesh_direct.Primitives.{Primitives}
use mesh_direct.Identity.{DeviceIdentity, is_device_id, decode_public_key}
use mesh_direct.Trust.{TrustStatus, trusted, TrustedDevice, TrustStore, assess}

abbrev pub protocol_version : ℕ
protocol_version = 3

abbrev pub max_handshake_size : ℕ
max_handshake_size = 8192

-- the bytes of an ASCII text
unfoldable pub ascii : String → Bytes
ascii empty = []
ascii (char_and c s) = code c ∷ ascii s

unfoldable pub domain : Bytes
unfolding ascii
domain = ascii "direct-transfer-v3-authenticated-handshake" ++ 0 ∷ []

pub record AuthenticatedSession : Type 0 where
  pub key : Bytes
  pub peer_device_id : String

-- `except ValueError as error: raise ProtocolError(message)`
abbrev pub as_protocol_error {ℓ} : {A : Type ℓ} → String → Result A → Result A
as_protocol_error message (raise (value_error m)) = raise (protocol_error message)
as_protocol_error message result = result

module _ (json : JsonModule) where
  unfoldable pub canonical : Fields → Bytes
  canonical payload = json.dumps (object (sort_fields payload))

  unfoldable pub signed_bytes : Fields → Bytes
  signed_bytes payload = domain ++ canonical (drop_field "signature" payload)

  unfoldable pub send_json : Fields → Result Bytes
  send_json payload = do
    raise_if (ltb max_handshake_size (length (canonical payload)))
        (protocol_error "Handshake frame is too large")
    pack_frame (canonical payload)

  unfoldable pub receive_json : Socket → Result (Fields × Socket)
  receive_json sock = do
    (raw, sock) ← unpack_frame max_handshake_size sock
    payload ← required (json.loads raw) "Invalid pairing response"
    fields ← required (as_object payload) "Invalid pairing response"
    ok (fields, sock)

-- `payload["peer_hello_hash"] = ...`, if there is one
abbrev pub hash_field : Option String → Fields → Fields
hash_field none rest = rest
hash_field (some peer_hello_hash) rest = field "peer_hello_hash" (str peer_hello_hash) rest

module _ (c : Primitives) where
  -- the fields of a hello, before `rest`
  unfoldable pub hello_fields :
      String → DeviceIdentity → Bytes → Bytes → Option String → Fields → Fields
  hello_fields role identity ephemeral_key nonce peer_hello_hash rest = field "type" (str "hello") (
      field "protocol" (int (pos protocol_version)) (
        field "role" (str role) (
          field "device_id" (str identity.device_id) (
            field "identity_key" (str identity.public_key) (
              field "ephemeral_key" (str (c.b64encode ephemeral_key))
                (field "nonce" (str (c.b64encode nonce)) (hash_field peer_hello_hash rest)))))))

  unfoldable pub create_hello :
      JsonModule → String → DeviceIdentity → Bytes → Bytes → Option String → Fields
  create_hello json role identity ephemeral_key nonce peer_hello_hash =
      let payload = hello_fields role identity ephemeral_key nonce peer_hello_hash end in
      let signature = c.b64encode (c.sign identity.private_key (signed_bytes json payload)) in
      hello_fields role identity ephemeral_key nonce peer_hello_hash
        (field "signature" (str signature) end)

  unfoldable pub b64decode_field : Value → ℕ → String → Result Bytes
  b64decode_field value expected_length message = do
    text ← required (as_string value) message
    raise_if (ltb 256 (count_chars text)) (protocol_error message)
    raw ← as_protocol_error message (c.b64decode text)
    raise_if (not (length raw == expected_length)) (protocol_error message)
    ok raw

  unfoldable pub validate_hello : JsonModule → Value → String → Result (Fields × Bytes × Bytes)
  validate_hello json payload expected_role = do
    fields ← required (as_object payload) "Handshake must be a JSON object"
    raise_if (not (is_string (get "type" fields) "hello")) (protocol_error "Invalid handshake type")
    raise_if (not (is_number (get "protocol" fields) protocol_version))
        (protocol_error "Protocol version mismatch")
    raise_if (not (is_string (get "role" fields) expected_role))
        (protocol_error "Invalid handshake role")
    device_id ← text_of (get "device_id" fields) "Missing peer identity"
    raise_if (not (is_device_id device_id)) (protocol_error "Missing peer identity")
    identity_key ← text_of (get "identity_key" fields) "Missing peer identity"
    public_key ← as_protocol_error "Invalid peer identity key" (decode_public_key c identity_key)
    ephemeral ← b64decode_field (get "ephemeral_key" fields) 32 "Invalid ephemeral key"
    nonce ← b64decode_field (get "nonce" fields) 32 "Invalid nonce"
    signature ← b64decode_field (get "signature" fields) 64 "Invalid signature"
    raise_if (not (c.verify public_key signature (signed_bytes json fields)))
        (authentication_error "Signature verification failed")
    ok (fields, ephemeral, nonce)

  unfoldable pub derive_key :
      JsonModule → Bytes → Bytes → Fields → Fields → Bytes → Bytes → Result Bytes
  derive_key json private_key remote_ephemeral client_hello server_hello client_nonce server_nonce =
      do
        shared_secret ←
            as_protocol_error "Invalid ephemeral key" (c.exchange private_key remote_ephemeral)
        let transcript = c.sha256 (canonical json client_hello ++ 0 ∷ canonical json server_hello)
        let salt = c.sha256 (client_nonce ++ server_nonce)
        ok (c.hkdf salt (domain ++ transcript) shared_secret)

-- the bytes of a message that is sent, and what its sender goes on with
abbrev pub after_sending {ℓ} : {A : Type ℓ} → Result Bytes → Result A → Bytes × Result A
after_sending (raise e) rest = ([], raise e)
after_sending (ok frame) rest = (frame, rest)

abbrev pub is_trusted_status : TrustStatus → Bool
is_trusted_status trusted = true
is_trusted_status _ = false

-- What a side returns, with the rest of its stream.
abbrev pub Outcome : Type 0
Outcome = Result (AuthenticatedSession × Socket)

-- A client whose hello has passed.
pub record Client : Type 0 where
  pub hello : Fields
  pub ephemeral : Bytes
  pub nonce : Bytes
  pub device_id : String

-- Each side draws `private_key` with X25519PrivateKey.generate and `nonce` with os.urandom.
module _ (c : Primitives) (json : JsonModule) where
  unfoldable pub client_hello : DeviceIdentity → Bytes → Bytes → Fields
  client_hello identity private_key nonce =
      create_hello c json "client" identity (c.ephemeral_public private_key) nonce none

  -- behind the client's own hello
  unfoldable pub finish_client : TrustedDevice → Bytes → Bytes → Fields → Socket → Outcome
  finish_client trusted_peer private_key nonce hello sock = do
    (payload, sock) ← receive_json json sock
    (server_hello, server_ephemeral, server_nonce) ← validate_hello c json (object payload) "server"
    raise_if
        (not (is_string (get "device_id" server_hello) trusted_peer.device_id)
          || not (is_string (get "identity_key" server_hello) trusted_peer.public_key))
        (authentication_error "Wrong peer identity")
    raise_if
        (not (is_string (get "peer_hello_hash" server_hello) (c.hexdigest (canonical json hello))))
        (authentication_error "Handshake transcript mismatch")
    key ← derive_key c json private_key server_ephemeral hello server_hello nonce server_nonce
    ok (record { key = key; peer_device_id = trusted_peer.device_id }, sock)

  unfoldable pub client_handshake :
      DeviceIdentity → TrustedDevice → Bytes → Bytes → Socket → Bytes × Outcome
  client_handshake identity trusted_peer private_key nonce sock =
      let hello = client_hello identity private_key nonce in
      if not (trusted_peer.status == "trusted")
      then ([], raise (authentication_error "Peer is not trusted"))
      else after_sending (send_json json hello)
          (finish_client trusted_peer private_key nonce hello sock)

  -- the client's hello, which the listener may have read before
  abbrev pub first_hello : Option Fields → Socket → Result (Fields × Socket)
  first_hello none sock = receive_json json sock
  first_hello (some hello) sock = ok (hello, sock)

  unfoldable pub accept_client : TrustStore → Option Fields → Socket → Result (Client × Socket)
  accept_client trust_store initial_hello sock = do
    (payload, sock) ← first_hello initial_hello sock
    (hello, ephemeral, nonce) ← validate_hello c json (object payload) "client"
    device_id ← text_of (get "device_id" hello) "Missing peer identity"
    identity_key ← text_of (get "identity_key" hello) "Missing peer identity"
    status ← assess (some device_id) (some identity_key) trust_store
    raise_if (not (is_trusted_status status)) (authentication_error "Untrusted peer")
    ok (record { hello = hello; ephemeral = ephemeral; nonce = nonce; device_id = device_id }, sock)

  unfoldable pub server_hello : DeviceIdentity → Bytes → Bytes → Fields → Fields
  server_hello identity private_key nonce hello =
      create_hello c json "server" identity (c.ephemeral_public private_key) nonce
        (some (c.hexdigest (canonical json hello)))

  unfoldable pub finish_server : Client → Bytes → Bytes → Fields → Socket → Outcome
  finish_server client private_key nonce hello sock = do
    key ← derive_key c json private_key client.ephemeral client.hello hello client.nonce nonce
    ok (record { key = key; peer_device_id = client.device_id }, sock)

  abbrev pub answer_client :
      DeviceIdentity → Bytes → Bytes → Result (Client × Socket) → Bytes × Outcome
  answer_client identity private_key nonce (raise e) = ([], raise e)
  answer_client identity private_key nonce (ok (client, sock)) =
      let hello = server_hello identity private_key nonce client.hello in
      after_sending (send_json json hello) (finish_server client private_key nonce hello sock)

  unfoldable pub server_handshake :
      DeviceIdentity → TrustStore → Option Fields → Bytes → Bytes → Socket → Bytes × Outcome
  server_handshake identity trust_store initial_hello private_key nonce sock =
      answer_client identity private_key nonce (accept_client trust_store initial_hello sock)
