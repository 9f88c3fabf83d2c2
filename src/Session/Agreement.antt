-- ===== src/Session/Agreement.antt =====
-- core/session.py: two devices that trust each other come to the same key.
use mesh_direct.Prelude.{◌≡◌, ap, ◌∙◌, none, ◌++◌, length}
use mesh_direct.Prelude.Python.{ok}
use mesh_direct.Prelude.{some}
use mesh_direct.Frame.{Bytes}
use mesh_direct.Frame.Stream.{Socket, bytes_of, IsFlowing}
use mesh_direct.Transfer.{JsonModule}
use mesh_direct.Primitives.{Primitives, IsSound}
use mesh_direct.Identity.{DeviceIdentity, IsIdentity}
use mesh_direct.Trust.{trusted, TrustedDevice, TrustStore, assess}
use mesh_direct.Session.{client_handshake, server_handshake}
use mesh_direct.Session.Hello.{Is32Bytes}
use mesh_direct.Session.Sending.{
  IsCarried, session_key, sent, received, client_sends, server_answers,
}
use mesh_direct.Session.Sides.{
  sort_fields-hello_here, sort_fields-answer_here, hello_here, answer_here, accepted,
  server_accepts, server_finishes, client_finishes,
}

-- The peer that a client asks for is this device, and trusted.
pub record IsPeer (peer : TrustedDevice) (server : DeviceIdentity) : Type 0 where
  pub status : peer.status ≡ "trusted"
  pub device_id : peer.device_id ≡ server.device_id
  pub public_key : peer.public_key ≡ server.public_key

-- Let two devices have each an identity, the server that of the trusted peer of the client, and the
-- client one that the server trusts, and let each hello fit a frame and be read back. If each side
-- reads what the other sends, with more behind it, over a connection that only cuts the bytes, both
-- handshakes return, with the same key of 32 bytes and with the ID of the other device, and leave
-- what is behind the hello.
pub handshakes-agree :
    (c : Primitives) (sound : IsSound c) (json : JsonModule) (client server : DeviceIdentity)
    (peer : TrustedDevice) (store : TrustStore)
    (client_key server_key client_nonce server_nonce more_of_client more_of_server : Bytes)
    (client_sock server_sock : Socket)
    → IsIdentity c client
    → IsIdentity c server
    → IsPeer peer server
    → assess (some client.device_id) (some client.public_key) store ≡ ok trusted
    → Is32Bytes client_nonce
    → Is32Bytes server_nonce
    → IsCarried json
        (hello_here c json client server client_key server_key client_nonce server_nonce)
    → IsCarried json
        (answer_here c json client server client_key server_key client_nonce server_nonce)
    → IsFlowing client_sock
    → IsFlowing server_sock
    → bytes_of server_sock
      ≡ (client_handshake c json client peer client_key client_nonce client_sock).0
        ++ more_of_client
    → bytes_of client_sock
      ≡ (server_handshake c json server store none server_key server_nonce server_sock).0
        ++ more_of_server
    → (key : Bytes) × (client_rest : Socket) × (server_rest : Socket) × (length key ≡ 32)
      × ((client_handshake c json client peer client_key client_nonce client_sock).1
          ≡ ok (record { key = key; peer_device_id = server.device_id }, client_rest))
      × ((server_handshake c json server store none server_key server_nonce server_sock).1
          ≡ ok (record { key = key; peer_device_id = client.device_id }, server_rest))
      × (bytes_of client_rest ≡ more_of_server)
      × (bytes_of server_rest ≡ more_of_client)
handshakes-agree c sound json client server peer store client_key server_key client_nonce
      server_nonce more_of_client more_of_server client_sock server_sock i_client i_server is_peer
      known n_client n_server carried carried' flows flows' e e' =
    let hello = hello_here c json client server client_key server_key client_nonce server_nonce in
    let answer = answer_here c json client server client_key server_key client_nonce server_nonce in
    let (frame, sends, packed) = sent json hello carried in
    let (frame', sends', packed') = sent json answer carried' in
    let (secret, shared, shared') = sound.exchange-comm client_key server_key in
    let client_is =
      client_sends c json client peer client_key client_nonce frame client_sock is_peer.status
        sends in
    let (server_rest, got, left) =
      received json hello frame more_of_client server_sock carried packed flows'
        (e ∙ ap (λ r. r.0 ++ more_of_client) client_is) in
    let in_order =
      ap (λ f. ok (f, server_rest))
        (sort_fields-hello_here c json client server client_key server_key client_nonce
          server_nonce) in
    let accepts =
      server_accepts c sound json client server client_key server_key client_nonce server_nonce
        store server_sock server_rest i_client n_client known (got ∙ in_order) in
    let server_is =
      server_answers c json server store server_key server_nonce frame'
        (accepted c json client server client_key server_key client_nonce server_nonce) server_sock
        server_rest accepts sends' in
    let (client_rest, got', left') =
      received json answer frame' more_of_server client_sock carried' packed' flows
        (e' ∙ ap (λ r. r.0 ++ more_of_server) server_is) in
    let in_order' =
      ap (λ f. ok (f, client_rest))
        (sort_fields-answer_here c json client server client_key server_key client_nonce
          server_nonce) in
    let finishes =
      client_finishes c sound json client server client_key server_key client_nonce server_nonce
        peer secret client_sock client_rest i_server n_server is_peer.device_id is_peer.public_key
        shared (got' ∙ in_order') in
    let finishes' =
      server_finishes c sound json client server client_key server_key client_nonce server_nonce
        secret server_rest shared' in
    (
      session_key c json secret hello answer client_nonce server_nonce,
      client_rest,
      server_rest,
      sound.length-hkdf _ _ secret,
      ap (λ r. r.1) client_is ∙ finishes,
      ap (λ r. r.1) server_is ∙ finishes',
      left',
      left,
    )
