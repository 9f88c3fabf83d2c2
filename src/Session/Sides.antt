-- ===== src/Session/Sides.antt =====
-- core/session.py: what each side of a handshake between two devices comes to.
use mesh_direct.Prelude.{◌≡◌, refl, ap, String, true, none, some, ◌==◌, eq_string, eq_iff}
use mesh_direct.Prelude.Python.{ok}
use mesh_direct.Json.{Fields, str, get}
use mesh_direct.Json.Canonical.{sort_fields}
use mesh_direct.Protocol.Checks.{required, text_of}
use mesh_direct.Frame.{Bytes}
use mesh_direct.Frame.Stream.{Socket}
use mesh_direct.Transfer.{JsonModule}
use mesh_direct.Primitives.{Primitives, IsSound}
use mesh_direct.Identity.{DeviceIdentity, IsIdentity}
use mesh_direct.Trust.{trusted, TrustedDevice, TrustStore, assess}
use mesh_direct.Session.{
  canonical, receive_json, client_hello, finish_client, Client, accept_client, server_hello,
  finish_server,
}
use mesh_direct.Session.Hello.{
  Is32Bytes, ordered_hello, sort_fields-create_hello, canonical-ordered_hello,
  validate_hello-ordered_hello,
}
use mesh_direct.Session.Sending.{session_key, derived}

module _ (c : Primitives) (json : JsonModule) (client server : DeviceIdentity)
    (client_key server_key client_nonce server_nonce : Bytes) where
  -- the client's hello as the server has it
  abbrev pub hello_there : Fields
  hello_there =
      ordered_hello c json "client" client (c.ephemeral_public client_key) client_nonce none

  abbrev pub hello_here : Fields
  hello_here = client_hello c json client client_key client_nonce

  -- the server's hello, and how the client has it
  abbrev pub answer_here : Fields
  answer_here = server_hello c json server server_key server_nonce hello_there

  abbrev pub answer_there : Fields
  answer_there =
      ordered_hello c json "server" server (c.ephemeral_public server_key) server_nonce
        (some (c.hexdigest (canonical json hello_there)))

  same_hello : canonical json hello_there ≡ canonical json hello_here
  unfolding client_hello
  same_hello =
      canonical-ordered_hello c json "client" client (c.ephemeral_public client_key) client_nonce
        none

  same_answer : canonical json answer_there ≡ canonical json answer_here
  unfolding server_hello
  same_answer =
      canonical-ordered_hello c json "server" server (c.ephemeral_public server_key) server_nonce
        (some (c.hexdigest (canonical json hello_there)))

  -- Each hello arrives with its names in order.
  pub sort_fields-hello_here : sort_fields hello_here ≡ hello_there
  unfolding client_hello
  sort_fields-hello_here =
      sort_fields-create_hello c json "client" client (c.ephemeral_public client_key) client_nonce
        none

  pub sort_fields-answer_here : sort_fields answer_here ≡ answer_there
  unfolding server_hello
  sort_fields-answer_here =
      sort_fields-create_hello c json "server" server (c.ephemeral_public server_key) server_nonce
        (some (c.hexdigest (canonical json hello_there)))

  abbrev pub accepted : Client
  accepted = record {
    hello = hello_there;
    ephemeral = c.ephemeral_public client_key;
    nonce = client_nonce;
    device_id = client.device_id;
  }

module _ (c : Primitives) (sound : IsSound c) (json : JsonModule) (client server : DeviceIdentity)
    (client_key server_key client_nonce server_nonce : Bytes) where
  abbrev there : Fields
  there = hello_there c json client server client_key server_key client_nonce server_nonce

  abbrev here : Fields
  here = hello_here c json client server client_key server_key client_nonce server_nonce

  abbrev back_there : Fields
  back_there = answer_there c json client server client_key server_key client_nonce server_nonce

  abbrev back_here : Fields
  back_here = answer_here c json client server client_key server_key client_nonce server_nonce

  abbrev client_there : Client
  client_there = accepted c json client server client_key server_key client_nonce server_nonce

  same_there : canonical json there ≡ canonical json here
  same_there = same_hello c json client server client_key server_key client_nonce server_nonce

  same_back : canonical json back_there ≡ canonical json back_here
  same_back = same_answer c json client server client_key server_key client_nonce server_nonce

  key_of : (raw : Bytes) → Is32Bytes (c.ephemeral_public raw)
  key_of raw = (sound.length-ephemeral_public raw, sound.ephemeral_public-IsBytes raw)

  names_there :
      (get "device_id" there ≡ str client.device_id)
      × (get "identity_key" there ≡ str client.public_key)
  unfolding get
  names_there = (refl, refl)

  pub server_accepts :
      (store : TrustStore) (sock sock' : Socket)
      → IsIdentity c client
      → Is32Bytes client_nonce
      → assess (some client.device_id) (some client.public_key) store ≡ ok trusted
      → receive_json json sock ≡ ok (there, sock')
      → accept_client c json store none sock ≡ ok (client_there, sock')
  unfolding accept_client required text_of
  server_accepts store sock sock' i n known got =
      rw
        (
          got,
          validate_hello-ordered_hello c sound json "client" client (c.ephemeral_public client_key)
              client_nonce none i (key_of client_key) n,
        )
        (rw (names_there.0, names_there.1) (rw known refl))

  pub server_finishes :
      (secret : Bytes) (sock : Socket)
      → c.exchange server_key (c.ephemeral_public client_key) ≡ ok secret
      → finish_server c json client_there server_key server_nonce back_here sock
        ≡ ok (
          record {
            key = session_key c json secret here back_here client_nonce server_nonce;
            peer_device_id = client.device_id;
          },
          sock,
        )
  unfolding finish_server
  server_finishes secret sock shared =
      rw
        (derived c json server_key (c.ephemeral_public client_key) secret here back_here there
          back_here client_nonce server_nonce shared same_there refl)
        refl

  names_back :
      (get "device_id" back_there ≡ str server.device_id)
      × (get "identity_key" back_there ≡ str server.public_key)
      × (get "peer_hello_hash" back_there ≡ str (c.hexdigest (canonical json there)))
  unfolding get
  names_back = (refl, refl, refl)

  itself : (s : String) → (s == s) ≡ true
  itself s = (eq_iff s s).1 refl

  hash_matches : (c.hexdigest (canonical json there) == c.hexdigest (canonical json here)) ≡ true
  hash_matches =
      (eq_iff (c.hexdigest (canonical json there)) (c.hexdigest (canonical json here))).1
        (ap c.hexdigest same_there)

  pub client_finishes :
      (peer : TrustedDevice) (secret : Bytes) (sock sock' : Socket)
      → IsIdentity c server
      → Is32Bytes server_nonce
      → peer.device_id ≡ server.device_id
      → peer.public_key ≡ server.public_key
      → c.exchange client_key (c.ephemeral_public server_key) ≡ ok secret
      → receive_json json sock ≡ ok (back_there, sock')
      → finish_client c json peer client_key client_nonce here sock
        ≡ ok (
          record {
            key = session_key c json secret here back_here client_nonce server_nonce;
            peer_device_id = server.device_id;
          },
          sock',
        )
  unfolding finish_client
  client_finishes peer secret sock sock' i n id key shared got =
      rw
        (
          got,
          validate_hello-ordered_hello c sound json "server" server (c.ephemeral_public server_key)
              server_nonce (some (c.hexdigest (canonical json there))) i (key_of server_key) n,
        )
        (rw (names_back.0, names_back.1, names_back.2, id, key)
          (rw
            (
              itself server.device_id,
              itself server.public_key,
              hash_matches,
              derived c json client_key (c.ephemeral_public server_key) secret here back_here here
                  back_there client_nonce server_nonce shared refl same_back,
            )
            refl))
