-- ===== src/Session/Sending.antt =====
-- core/session.py: the messages of a handshake on their way, and the key that is derived from them.
use mesh_direct.Prelude.{◌≡◌, ◌≤◌, refl, none, some, ◌∷◌, ◌++◌, length, eq_nat, eq_string, arith}
use mesh_direct.Prelude.Python.{ok}
use mesh_direct.Json.{Fields, object}
use mesh_direct.Json.Canonical.{sort_fields}
use mesh_direct.Protocol.Checks.{required}
use mesh_direct.Frame.{Bytes, pack_frame}
use mesh_direct.Frame.Stream.{Socket, bytes_of, IsFlowing}
use mesh_direct.Frame.RoundTrip.{unpack_frame-pack_frame, pack_frame-small}
use mesh_direct.Transfer.{JsonModule}
use mesh_direct.Primitives.{Primitives}
use mesh_direct.Identity.{DeviceIdentity}
use mesh_direct.Trust.{TrustedDevice, TrustStore}
use mesh_direct.Session.{
  domain, canonical, send_json, receive_json, derive_key, max_handshake_size, client_hello,
  finish_client, client_handshake, Client, accept_client, server_hello, finish_server,
  server_handshake,
}

-- A message that fits a frame, and that the json module reads back as it wrote it, names in order.
pub record IsCarried (json : JsonModule) (message : Fields) : Type 0 where
  pub small : length (canonical json message) ≤ max_handshake_size
  pub loads : json.loads (canonical json message) ≡ some (object (sort_fields message))

module _ (json : JsonModule) where
  pub sent :
      (message : Fields)
      → IsCarried json message
      → (frame : Bytes) × (send_json json message ≡ ok frame)
        × (pack_frame (canonical json message) ≡ ok frame)
  unfolding send_json
  sent message carried =
      let (frame, packed) =
        pack_frame-small (canonical json message) (omega (arith, carried.small)) in
      (frame, rw packed (ground (arith, carried.small)), packed)

  -- A message that is sent is received, its names in order.
  pub received :
      (message : Fields) (frame rest : Bytes) (sock : Socket)
      → IsCarried json message
      → pack_frame (canonical json message) ≡ ok frame
      → IsFlowing sock
      → bytes_of sock ≡ frame ++ rest
      → (sock' : Socket) × (receive_json json sock ≡ ok (sort_fields message, sock'))
        × (bytes_of sock' ≡ rest)
  unfolding receive_json required
  received message frame rest sock carried packed flowing e =
      let (sock', got, flows, left) =
        unpack_frame-pack_frame (canonical json message) rest max_handshake_size frame sock packed
          carried.small flowing e in
      (sock', rw (got, carried.loads) refl, left)

module _ (c : Primitives) (json : JsonModule) where
  -- the key of a session
  abbrev pub session_key : Bytes → Fields → Fields → Bytes → Bytes → Bytes
  session_key secret hello answer client_nonce server_nonce =
      c.hkdf (c.sha256 (client_nonce ++ server_nonce))
        (domain ++ c.sha256 (canonical json hello ++ 0 ∷ canonical json answer)) secret

  pub derived :
      (private_key remote secret : Bytes) (hello answer hello' answer' : Fields)
      (client_nonce server_nonce : Bytes)
      → c.exchange private_key remote ≡ ok secret
      → canonical json hello' ≡ canonical json hello
      → canonical json answer' ≡ canonical json answer
      → derive_key c json private_key remote hello' answer' client_nonce server_nonce
        ≡ ok (session_key secret hello answer client_nonce server_nonce)
  unfolding derive_key
  derived private_key remote secret hello answer hello' answer' client_nonce server_nonce shared
        same same' =
      rw (shared, same, same') refl

  pub client_sends :
      (identity : DeviceIdentity) (peer : TrustedDevice) (private_key nonce frame : Bytes)
      (sock : Socket)
      → peer.status ≡ "trusted"
      → send_json json (client_hello c json identity private_key nonce) ≡ ok frame
      → client_handshake c json identity peer private_key nonce sock ≡ (
        frame,
        finish_client c json peer private_key nonce
            (client_hello c json identity private_key nonce)
            sock,
      )
  unfolding client_handshake
  client_sends identity peer private_key nonce frame sock status sent = rw (status, sent) refl

  pub server_answers :
      (identity : DeviceIdentity) (store : TrustStore) (private_key nonce frame : Bytes)
      (client : Client) (sock sock' : Socket)
      → accept_client c json store none sock ≡ ok (client, sock')
      → send_json json (server_hello c json identity private_key nonce client.hello) ≡ ok frame
      → server_handshake c json identity store none private_key nonce sock ≡ (
        frame,
        finish_server c json client private_key nonce
            (server_hello c json identity private_key nonce client.hello)
            sock',
      )
  unfolding server_handshake
  server_answers identity store private_key nonce frame client sock sock' accepted sent =
      rw (accepted, sent) refl
