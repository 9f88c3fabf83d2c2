-- ===== src/Session/Tests.antt =====
-- A handshake of core/session.py between two concrete devices.
use mesh_direct.Prelude.{
  ◌≡◌, refl, ◌++◌, String, Bool, true, false, none, some, List, [], ◌∷◌, any, length, lookup,
  insert, eq_string, eq_nat, ◌==◌, if◌then◌else◌, arith,
}
use mesh_direct.Prelude.Python.{ok}
use mesh_direct.Json.{Value, Fields, str, object, get, is_string}
use mesh_direct.Json.Canonical.{sort_fields, insert_field, drop_field}
use mesh_direct.Protocol.Text.{prefix}
use mesh_direct.Protocol.Checks.{required, text_of}
use mesh_direct.Frame.{Bytes, pack_length, pack_frame, unpack_frame}
use mesh_direct.Frame.Stream.{Socket, segment, bytes_of}
use mesh_direct.Transfer.{JsonModule}
use mesh_direct.Primitives.Samples.{samples, samples-IsSound, short_key, encode, decode, byte_char}
use mesh_direct.Identity.{
  DeviceIdentity, IsIdentity, is_device_id, behind, fingerprint_from_public_key, decode_public_key,
  device_id_of, device_id_from_public_key,
}
use mesh_direct.Prelude.Int.{pos}
use mesh_direct.Trust.{
  finite, trusted, TrustedDevice, TrustStore, status_of, assess_known, assess, validate, trust,
  decided, store_decided, save,
}
use mesh_direct.Trust.Calls.{Op, trusts, run}
use mesh_direct.Trust.Decisions.{is_trust_of}
use mesh_direct.Session.{
  AuthenticatedSession, canonical, signed_bytes, send_json, receive_json, hello_fields,
  create_hello, b64decode_field, validate_hello, derive_key, client_hello, finish_client,
  client_handshake, accept_client, server_hello, finish_server, server_handshake,
}
use mesh_direct.Session.Hello.{Is32Bytes}
use mesh_direct.Session.Sending.{IsCarried}
use mesh_direct.Session.Sides.{hello_here, answer_here}
use mesh_direct.Session.Agreement.{handshakes-agree}
use mesh_direct.Session.Authenticity.{
  IsSigned, new_store, client_handshake-IsSigned, server_handshake-needs_trust,
}

abbrev client : DeviceIdentity
client = record {
  device_id = "mp-77777777";
  public_key = encode (short_key (7 ∷ []));
  private_key = 7 ∷ [];
}

abbrev server : DeviceIdentity
server = record {
  device_id = "mp-00000000";
  public_key = encode (short_key (9 ∷ []));
  private_key = 9 ∷ [];
}

-- as `trust` of either side stores the other
abbrev device : DeviceIdentity → TrustedDevice
device identity = record {
  device_id = identity.device_id;
  hostname = "peer";
  public_key = identity.public_key;
  fingerprint = "";
  first_trusted_at = finite (pos 100);
  last_seen_at = finite (pos 100);
  status = "trusted";
}

abbrev store : TrustStore
store = record { devices = (client.device_id, device client) ∷ []; saved = none }

abbrev tag : Value → Bytes
tag (object fields) = if is_string (get "role" fields) "client" then 1 ∷ [] else 2 ∷ []
tag value = []

-- The json module writes each of the two hellos as one byte.
abbrev writer : JsonModule
writer = record { dumps = tag; loads = λ raw. none }

abbrev nonce : Bytes
nonce = short_key (5 ∷ [])

abbrev is_one : Bytes → Bool
is_one [] = false
is_one (b ∷ bs) = b == 1

abbrev json : JsonModule
json = record {
  dumps = tag;
  loads = λ raw. some (
      object (
        if is_one raw
        then sort_fields (hello_here samples writer client server (3 ∷ []) (4 ∷ []) nonce nonce)
        else sort_fields (answer_here samples writer client server (3 ∷ []) (4 ∷ []) nonce nonce)));
}

client-IsIdentity : IsIdentity samples client
unfolding device_id_from_public_key device_id_of prefix encode decode byte_char
client-IsIdentity = record { public_key = refl; device_id = refl }

server-IsIdentity : IsIdentity samples server
unfolding device_id_from_public_key device_id_of prefix encode decode byte_char
server-IsIdentity = record { public_key = refl; device_id = refl }

nonce_32 : Is32Bytes nonce
nonce_32 = (refl, samples-IsSound.ephemeral_public-IsBytes (5 ∷ []))

hello-IsCarried :
    IsCarried json (hello_here samples json client server (3 ∷ []) (4 ∷ []) nonce nonce)
unfolding canonical sort_fields insert_field client_hello create_hello hello_fields get
hello-IsCarried = record { small = omega arith; loads = refl }

answer-IsCarried :
    IsCarried json (answer_here samples json client server (3 ∷ []) (4 ∷ []) nonce nonce)
unfolding canonical sort_fields insert_field server_hello create_hello hello_fields get
answer-IsCarried = record { small = omega arith; loads = refl }

client_known : assess (some client.device_id) (some client.public_key) store ≡ ok trusted
unfolding assess assess_known status_of lookup encode byte_char
client_known = refl

abbrev to_client : Socket
to_client = segment (0 ∷ 0 ∷ []) ∷ segment (0 ∷ 1 ∷ 2 ∷ []) ∷ []

abbrev to_server : Socket
to_server = segment (0 ∷ 0 ∷ 0 ∷ 1 ∷ 1 ∷ []) ∷ []

client_sends_1 :
    bytes_of to_server
    ≡ (client_handshake samples json client (device server) (3 ∷ []) nonce to_client).0 ++ []
unfolding client_handshake send_json pack_frame pack_length canonical sort_fields insert_field
    client_hello create_hello hello_fields get
client_sends_1 = refl

server_sends_2 :
    bytes_of to_client
    ≡ (server_handshake samples json server store none (4 ∷ []) nonce to_server).0 ++ []
unfolding server_handshake accept_client receive_json unpack_frame required text_of validate_hello
    b64decode_field is_device_id decode_public_key assess assess_known status_of lookup get
    canonical signed_bytes sort_fields insert_field drop_field client_hello server_hello
    create_hello hello_fields send_json pack_frame pack_length encode decode byte_char
server_sends_2 = refl

handshakes-agree_example :
    (key : Bytes) × (client_rest : Socket) × (server_rest : Socket) × (length key ≡ 32)
    × ((client_handshake samples json client (device server) (3 ∷ []) nonce to_client).1
        ≡ ok (record { key = key; peer_device_id = "mp-00000000" }, client_rest))
    × ((server_handshake samples json server store none (4 ∷ []) nonce to_server).1
        ≡ ok (record { key = key; peer_device_id = "mp-77777777" }, server_rest))
    × (bytes_of client_rest ≡ [])
    × (bytes_of server_rest ≡ [])
handshakes-agree_example =
    handshakes-agree samples samples-IsSound json client server (device server) store (3 ∷ [])
      (4 ∷ []) nonce nonce [] [] to_client to_server client-IsIdentity server-IsIdentity
      (record { status = refl; device_id = refl; public_key = refl }) client_known nonce_32 nonce_32
      hello-IsCarried answer-IsCarried (omega arith, (omega arith, tt)) (omega arith, tt)
      client_sends_1 server_sends_2

-- the key that the sample primitives make of the ephemeral keys 3 and 4
abbrev session : DeviceIdentity → AuthenticatedSession
session peer = record { key = short_key (7 ∷ []); peer_device_id = peer.device_id }

client_returns :
    (client_handshake samples json client (device server) (3 ∷ []) nonce to_client).1
    ≡ ok (session server, [])
unfolding client_handshake finish_client derive_key receive_json unpack_frame required text_of
    validate_hello b64decode_field is_device_id decode_public_key get canonical signed_bytes
    sort_fields insert_field drop_field client_hello server_hello create_hello hello_fields
    send_json pack_frame pack_length encode decode byte_char
client_returns = refl

client_handshake-IsSigned_example :
    ((device server).status ≡ "trusted")
    × ((session server).peer_device_id ≡ "mp-00000000")
    × ((hello : Fields) × IsSigned samples json "server" "mp-00000000" server.public_key hello
        × (receive_json json to_client ≡ ok (hello, []))
        × (get "peer_hello_hash" hello
            ≡ str (
                samples.hexdigest
                  (canonical json (client_hello samples json client (3 ∷ []) nonce)))))
client_handshake-IsSigned_example =
    client_handshake-IsSigned samples json client (device server) (3 ∷ []) nonce to_client []
      (session server) client_returns

abbrev ops : List Op
ops = trusts false (finite (pos 100)) "mp-77777777" "peer" client.public_key none ∷ []

server_returns :
    (server_handshake samples json server
      (run samples ops new_store)
      none
      (4 ∷ [])
      nonce
      to_server).1
    ≡ ok (session client, [])
unfolding run trust decided store_decided save validate insert device_id_of
    device_id_from_public_key fingerprint_from_public_key behind prefix server_handshake
    finish_server derive_key accept_client receive_json unpack_frame required text_of validate_hello
    b64decode_field is_device_id decode_public_key assess assess_known status_of lookup get
    canonical signed_bytes sort_fields insert_field drop_field client_hello server_hello
    create_hello hello_fields send_json pack_frame pack_length encode decode byte_char
server_returns = refl

server_handshake-needs_trust_example :
    (key : String) × (hello : Fields) × IsSigned samples json "client" "mp-77777777" key hello
    × (receive_json json to_server ≡ ok (hello, []))
    × (any (is_trust_of "mp-77777777" key) ops ≡ true)
server_handshake-needs_trust_example =
    server_handshake-needs_trust samples json ops server none (4 ∷ []) nonce to_server []
      (session client) server_returns
