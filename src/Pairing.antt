-- ===== src/Pairing.antt =====
-- core/pairing.py: the signed exchange of identities, and the inbox of those that arrived.
pub mod Inbox
mod Pending
mod Proof
mod Tests
use mesh_direct.Prelude.{
  ℕ, String, Bool, true, false, not, ◌||◌, Option, none, some, [], ◌∷◌, ◌++◌, length, ◌==◌, eq_nat,
  eq_string,
}
use mesh_direct.Prelude.Python.{Result, ok, raise, ◌>>=◌, ◌>>◌, raise_if, protocol_error}
use mesh_direct.Prelude.Int.{pos}
use mesh_direct.Json.{
  Value, Fields, str, int, object, field, end, get, as_object, as_string, is_string, is_number,
}
use mesh_direct.Json.Canonical.{drop_field}
use mesh_direct.Protocol.Checks.{required, text_of, int_between}
use mesh_direct.Frame.{Bytes}
use mesh_direct.Frame.Stream.{Socket}
use mesh_direct.Transfer.{JsonModule}
use mesh_direct.Primitives.{Primitives}
use mesh_direct.Identity.{
  DeviceIdentity, is_device_id, decode_public_key, device_id_from_public_key,
  fingerprint_from_public_key,
}
use mesh_direct.Session.{
  ascii, canonical, as_protocol_error, hash_field, send_json, receive_json, after_sending,
}

abbrev pub pairing_version : ℕ
pairing_version = 1

unfoldable pub domain : Bytes
unfolding ascii
domain = ascii "direct-transfer-pairing-v1" ++ 0 ∷ []

pub record PairingIdentity : Type 0 where
  pub device_id : String
  pub public_key : String
  pub fingerprint : String
  pub peer_ip : String
  pub received_at : ℕ
  pub transfer_port : ℕ

unfoldable pub signed : JsonModule → Fields → Bytes
signed json value = domain ++ canonical json (drop_field "signature" value)

module _ (c : Primitives) where
  -- the fields of a hello, before `rest`
  unfoldable pub pair_fields : DeviceIdentity → String → Bytes → ℕ → Option String → Fields → Fields
  pair_fields identity role nonce transfer_port peer_hash rest = field "type" (str "pair_hello") (
      field "version" (int (pos pairing_version)) (
        field "role" (str role) (
          field "device_id" (str identity.device_id) (
            field "identity_key" (str identity.public_key) (
              field "nonce" (str (c.b64encode nonce))
                (field "transfer_port" (int (pos transfer_port)) (hash_field peer_hash rest)))))))

  unfoldable pub pair_hello :
      JsonModule → DeviceIdentity → String → Bytes → ℕ → Option String → Fields
  pair_hello json identity role nonce transfer_port peer_hash =
      let value = pair_fields identity role nonce transfer_port peer_hash end in
      let signature = c.b64encode (c.sign identity.private_key (signed json value)) in
      pair_fields identity role nonce transfer_port peer_hash
        (field "signature" (str signature) end)

  -- `base64.b64decode(value.get(name, ""), validate=True)`; no text is a TypeError, which counts as well
  unfoldable pub decode_proof : Value → Result Bytes
  decode_proof value = do
    text ← required (as_string value) "Invalid pairing proof"
    as_protocol_error "Invalid pairing proof" (c.b64decode text)

  unfoldable pub validate : JsonModule → Value → String → Result Fields
  validate json payload role = do
    value ← required (as_object payload) "Peer uses incompatible pairing protocol"
    raise_if
        (not (is_string (get "type" value) "pair_hello")
          || not (is_number (get "version" value) pairing_version)
          || not (is_string (get "role" value) role))
        (protocol_error "Peer uses incompatible pairing protocol")
    device_id ← text_of (get "device_id" value) "Invalid pairing identity"
    raise_if (not (is_device_id device_id)) (protocol_error "Invalid pairing identity")
    public_key ← text_of (get "identity_key" value) "Invalid pairing identity"
    key ← as_protocol_error "Invalid pairing identity key" (decode_public_key c public_key)
    derived_device_id ←
        as_protocol_error "Invalid pairing identity key" (device_id_from_public_key c public_key)
    raise_if (not (derived_device_id == device_id))
        (protocol_error "Pairing identity does not match public key")
    nonce ← decode_proof (get "nonce" value)
    signature ← decode_proof (get "signature" value)
    raise_if (not (length nonce == 32) || not (length signature == 64))
        (protocol_error "Invalid pairing proof")
    _ ← int_between 1 65535 (get "transfer_port" value) "Invalid pairing port"
    raise_if (not (c.verify key signature (signed json value)))
        (protocol_error "Pairing signature verification failed")
    ok value

  -- `_result`, of a hello that was validated; `now` is time.time()
  unfoldable pub result : Fields → String → ℕ → Result PairingIdentity
  result value peer_ip now = do
    device_id ← text_of (get "device_id" value) "Invalid pairing identity"
    public_key ← text_of (get "identity_key" value) "Invalid pairing identity"
    fingerprint ← fingerprint_from_public_key c public_key
    port ← int_between 1 65535 (get "transfer_port" value) "Invalid pairing port"
    ok (record {
      device_id = device_id;
      public_key = public_key;
      fingerprint = fingerprint;
      peer_ip = peer_ip;
      received_at = now;
      transfer_port = port;
    })

-- Each side draws `nonce` with os.urandom, and gives the bytes that it sends and what it returns.
module _ (c : Primitives) (json : JsonModule) where
  -- behind the client's own hello
  unfoldable pub finish_pair : Fields → String → ℕ → Socket → Result (PairingIdentity × Socket)
  finish_pair hello peer_ip now sock = do
    (payload, sock) ← receive_json json sock
    response ← validate c json (object payload) "server"
    raise_if (not (is_string (get "peer_hello_hash" response) (c.hexdigest (canonical json hello))))
        (protocol_error "Pairing transcript mismatch")
    identity ← result c response peer_ip now
    ok (identity, sock)

  unfoldable pub client_pair :
      DeviceIdentity → String → ℕ → Bytes → ℕ → Socket → Bytes × Result (PairingIdentity × Socket)
  client_pair identity peer_ip local_port nonce now sock =
      let hello = pair_hello c json identity "client" nonce local_port none in
      after_sending (send_json json hello) (finish_pair hello peer_ip now sock)

  abbrev pub answer_pair :
      DeviceIdentity → String → ℕ → Bytes → ℕ → Result Fields → Bytes × Result PairingIdentity
  answer_pair identity peer_ip local_port nonce now (raise e) = ([], raise e)
  answer_pair identity peer_ip local_port nonce now (ok request) =
      let response =
        pair_hello c json identity "server" nonce local_port
          (some (c.hexdigest (canonical json request))) in
      after_sending (send_json json response) (result c request peer_ip now)

  unfoldable pub server_pair :
      DeviceIdentity → String → Fields → ℕ → Bytes → ℕ → Bytes × Result PairingIdentity
  server_pair identity peer_ip hello local_port nonce now =
      answer_pair identity peer_ip local_port nonce now (validate c json (object hello) "client")
