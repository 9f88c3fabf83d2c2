-- ===== src/Pairing/Tests.antt =====
-- The pairing of core/pairing.py between two concrete devices, and its inbox.
use mathlib.Core.List.{Perm}
use mesh_direct.Prelude.{
  ℕ, ◌≡◌, refl, String, none, some, List, [], ◌∷◌, map, lookup, insert, filter_values, eq_string,
  arith, eq_nat, if◌then◌else◌,
}
use mesh_direct.Prelude.Python.{ok, raise, protocol_error}
use mesh_direct.Prelude.Sorting.{IsDescending}
use mesh_direct.Json.{Value, Fields, str, object, get, is_string}
use mesh_direct.Json.Canonical.{sort_fields, insert_field, drop_field}
use mesh_direct.Protocol.Text.{prefix}
use mesh_direct.Protocol.Checks.{required, text_of, int_between}
use mesh_direct.Frame.{Bytes, pack_length, pack_frame, unpack_frame}
use mesh_direct.Frame.Stream.{Socket, segment}
use mesh_direct.Transfer.{JsonModule}
use mesh_direct.Primitives.Samples.{samples, short_key, encode, decode, byte_char}
use mesh_direct.Identity.{
  DeviceIdentity, is_device_id, behind, decode_public_key, device_id_of, device_id_from_public_key,
  fingerprint_from_public_key,
}
use mesh_direct.Session.{canonical, send_json, receive_json}
use mesh_direct.Pairing.{
  PairingIdentity, signed, pair_fields, pair_hello, decode_proof, validate, result, finish_pair,
  client_pair, server_pair,
}
use mesh_direct.Pairing.Inbox.{Item, PairingInbox, prune_expired, add_item, publish, all}
use mesh_direct.Pairing.Pending.{left_at, IsValid, Op, publishes, gets, run, all-run}
use mesh_direct.Pairing.Proof.{IsProven, client_pair-IsProven, server_pair-IsProven}

abbrev client : DeviceIdentity
client = record {
  device_id = "mp-77777777";
  public_key = encode (short_key (7 ∷ []));
  private_key = 7 ∷ [];
}

abbrev server : DeviceIdentity
server = record {
  device_id = "mp-00000000";
  public_key = encode (short_key (9 ∷ []));
  private_key = 9 ∷ [];
}

abbrev nonce : Bytes
nonce = short_key (5 ∷ [])

-- The json module writes each of the two hellos as one byte.
abbrev tag : Value → Bytes
tag (object fields) = if is_string (get "role" fields) "client" then 1 ∷ [] else 2 ∷ []
tag value = []

abbrev writer : JsonModule
writer = record { dumps = tag; loads = λ raw. none }

abbrev response : Fields
response = pair_hello samples writer server "server" nonce 5000 (some (samples.hexdigest (1 ∷ [])))

abbrev json : JsonModule
json = record { dumps = tag; loads = λ raw. some (object response) }

abbrev to_client : Socket
to_client = segment (0 ∷ 0 ∷ 0 ∷ 1 ∷ 2 ∷ []) ∷ []

-- an identity of a device, as it is paired
abbrev paired : DeviceIdentity → String → String → ℕ → PairingIdentity
paired identity fingerprint peer_ip port = record {
  device_id = identity.device_id;
  public_key = identity.public_key;
  fingerprint = fingerprint;
  peer_ip = peer_ip;
  received_at = 100;
  transfer_port = port;
}

abbrev the_server : PairingIdentity
the_server = paired server "0000 0000 0000 0000" "10.0.0.2" 5000

abbrev the_client : PairingIdentity
the_client = paired client "7777 7777 7777 7777" "10.0.0.1" 5001

client_returns :
    (client_pair samples json client "10.0.0.2" 5001 nonce 100 to_client).1 ≡ ok (the_server, [])
unfolding client_pair finish_pair receive_json unpack_frame required text_of int_between validate
    decode_proof result is_device_id decode_public_key device_id_of device_id_from_public_key
    fingerprint_from_public_key behind prefix get canonical signed sort_fields insert_field
    drop_field pair_hello pair_fields send_json pack_frame pack_length encode decode byte_char
client_returns = refl

client_pair-IsProven_example :
    (hello : Fields) × IsProven samples json "server" hello the_server
    × (receive_json json to_client ≡ ok (hello, []))
    × (the_server.peer_ip ≡ "10.0.0.2")
    × (get "peer_hello_hash" hello
        ≡ str (
            samples.hexdigest
              (canonical json (pair_hello samples json client "client" nonce 5001 none))))
client_pair-IsProven_example =
    client_pair-IsProven samples json client "10.0.0.2" 5001 nonce 100 to_client [] the_server
      client_returns

abbrev request : Fields
request = pair_hello samples json client "client" nonce 5001 none

server_returns :
    (server_pair samples json server "10.0.0.1" request 5000 nonce 100).1 ≡ ok the_client
unfolding server_pair required text_of int_between validate decode_proof result is_device_id
    decode_public_key device_id_of device_id_from_public_key fingerprint_from_public_key behind
    prefix get canonical signed sort_fields insert_field drop_field pair_hello pair_fields send_json
    pack_frame pack_length encode decode byte_char
server_returns = refl

server_pair-IsProven_example :
    IsProven samples json "client" request the_client × (the_client.peer_ip ≡ "10.0.0.1")
server_pair-IsProven_example =
    server_pair-IsProven samples json server "10.0.0.1" request 5000 nonce 100 the_client
      server_returns

abbrev empty : PairingInbox
empty = record { max_pending = 1; ttl = 90; items = [] }

abbrev one : PairingInbox
one = record { max_pending = 1; ttl = 90; items = ("mp-77777777", (the_client, 190)) ∷ [] }

publish_full :
    publish 100 100 the_server one ≡ (one, raise (protocol_error "Pairing inbox is full"))
unfolding publish add_item prune_expired filter_values lookup
publish_full = refl

-- The first has expired.
publish_later : (publish 190 190 the_server one).0.items ≡ ("mp-00000000", (the_server, 280)) ∷ []
unfolding publish add_item prune_expired filter_values lookup insert
publish_later = refl

empty-IsValid : IsValid empty
empty-IsValid = record { distinct = tt; keyed = tt; bounded = omega arith }

abbrev calls : List Op
calls =
    publishes 100 100 the_client
    ∷ publishes 120 120 the_server
    ∷ gets 190 "mp-77777777"
    ∷ publishes 200 201 the_server
    ∷ []

all-run_example :
    IsValid (run calls empty)
    × (lookup "mp-77777777" (all 250 (run calls empty)).0.items
        ≡ left_at 250 (lookup "mp-77777777" (run calls empty).items))
    × IsDescending (λ identity. identity.received_at) (all 250 (run calls empty)).1
    × Perm
        (all 250 (run calls empty)).1
        (map (λ (item : String × Item). item.1.0) (all 250 (run calls empty)).0.items)
all-run_example = all-run 250 calls empty "mp-77777777" empty-IsValid
