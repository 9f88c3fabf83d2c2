-- ===== src/Pairing/Proof.antt =====
-- core/pairing.py: what an exchange has proved of the peer.
use mesh_direct.Prelude.{
  ◌≡◌, ◌≤◌, sym, ap, ◌∙◌, String, true, not, ◌||◌, none, some, length, ◌==◌, eq_nat, eq_string,
  eq_iff, arith, ℕ, inl, inr,
}
use mesh_direct.Prelude.Python.{ok, raise_if, by_return, Result-cases}
use mesh_direct.Prelude.Int.{pos}
use mesh_direct.Json.{Fields, str, int, object, get, is_string, is_number}
use mesh_direct.Json.Laws.{eq_of_is_string}
use mesh_direct.Protocol.Checks.{required, text_of, text_of_iff, int_between, int_between_iff}
use mesh_direct.Frame.{Bytes}
use mesh_direct.Frame.Stream.{Socket}
use mesh_direct.Transfer.{JsonModule}
use mesh_direct.Primitives.{Primitives}
use mesh_direct.Identity.{
  DeviceIdentity, is_device_id, decode_public_key, device_id_from_public_key,
  fingerprint_from_public_key,
}
use mesh_direct.Session.{as_protocol_error, canonical, receive_json, send_json}
use mesh_direct.Session.Authenticity.{as_protocol_error-eq-ok, after_sending-eq-ok}
use mesh_direct.Pairing.{
  PairingIdentity, pairing_version, signed, pair_hello, decode_proof, validate, result, finish_pair,
  client_pair, server_pair,
}

-- What a hello shows of an identity: its ID and fingerprint are those of its key, its port is in
-- range, and the key verifies a signature of the hello.
pub record IsProven (c : Primitives) (json : JsonModule) (role : String) (hello : Fields)
    (identity : PairingIdentity) : Type 0 where
  pub role_is : get "role" hello ≡ str role
  pub device_id : get "device_id" hello ≡ str identity.device_id
  pub identity_key : get "identity_key" hello ≡ str identity.public_key
  pub transfer_port : get "transfer_port" hello ≡ int (pos identity.transfer_port)
  pub in_range : (1 ≤ identity.transfer_port) × (identity.transfer_port ≤ 65535)
  pub derived : device_id_from_public_key c identity.public_key ≡ ok identity.device_id
  pub fingerprint : fingerprint_from_public_key c identity.public_key ≡ ok identity.fingerprint
  pub key : Bytes
  pub signature : Bytes
  pub decoded : decode_public_key c identity.public_key ≡ ok key
  pub given : decode_proof c (get "signature" hello) ≡ ok signature
  pub verified : c.verify key signature (signed json hello) ≡ true

module _ (c : Primitives) (json : JsonModule) where
  record IsChecked (role id key_text : String) (value : Fields) : Type 0 where
    pub role_is : get "role" value ≡ str role
    pub device_id : get "device_id" value ≡ str id
    pub identity_key : get "identity_key" value ≡ str key_text
    pub derived : device_id_from_public_key c key_text ≡ ok id
    pub key : Bytes
    pub signature : Bytes
    pub decoded : decode_public_key c key_text ≡ ok key
    pub given : decode_proof c (get "signature" value) ≡ ok signature
    pub verified : c.verify key signature (signed json value) ≡ true

  validate-IsChecked :
      (role : String) (fields value : Fields)
      → validate c json (object fields) role ≡ ok value
      → (fields ≡ value) × (id : String) × (key_text : String) × IsChecked role id key_text value
  unfolding validate required
  validate-IsChecked role fields value h =
      by_return
        (raise_if
          (not (is_string (get "type" fields) "pair_hello")
            || not (is_number (get "version" fields) pairing_version)
            || not (is_string (get "role" fields) role))
          _)
        _ h
        λ u kind h. by_return (text_of (get "device_id" fields) _) _ h λ id named h.
          by_return (raise_if (not (is_device_id id)) _) _ h λ u a h.
            by_return (text_of (get "identity_key" fields) _) _ h λ key_text keyed h.
              by_return
                (as_protocol_error "Invalid pairing identity key" (decode_public_key c key_text)) _
                h
                λ key decoded h.
                  by_return
                    (as_protocol_error "Invalid pairing identity key"
                      (device_id_from_public_key c key_text))
                    _ h
                    λ own derived h. by_return (raise_if (not (own == id)) _) _ h λ u bound h.
                      by_return (decode_proof c (get "nonce" fields)) _ h λ nonce a h.
                        by_return (decode_proof c (get "signature" fields)) _ h λ signature given h.
                          by_return
                            (raise_if (not (length nonce == 32) || not (length signature == 64)) _)
                            _ h
                            λ u a h.
                              by_return (int_between 1 65535 (get "transfer_port" fields) _) _ h
                                λ port a h.
                                  by_return
                                    (raise_if (not (c.verify key signature (signed json fields))) _)
                                    _ h
                                    λ u verified h.
                                      let same : fields ≡ value = ground arith in
                                      let own_is : own ≡ id = (eq_iff own id).0 (ground arith) in
                                      (
                                        same,
                                        id,
                                        key_text,
                                        rw (← same) (record {
                                          role_is =
                                              eq_of_is_string (get "role" fields) role
                                                (ground arith);
                                          device_id =
                                              (text_of_iff (get "device_id" fields) _ id).0 named;
                                          identity_key =
                                              (text_of_iff (get "identity_key" fields) _ key_text).0
                                                keyed;
                                          derived =
                                              as_protocol_error-eq-ok _ _ derived ∙ ap ok own_is;
                                          key = key;
                                          signature = signature;
                                          decoded = as_protocol_error-eq-ok _ _ decoded;
                                          given = given;
                                          verified = ground arith;
                                        }),
                                      )

  result-IsProven :
      (role : String) (value : Fields) (peer_ip : String) (now : ℕ) {id key_text : String}
      (identity : PairingIdentity)
      → IsChecked role id key_text value
      → result c value peer_ip now ≡ ok identity
      → IsProven c json role value identity × (identity.peer_ip ≡ peer_ip)
  unfolding result
  result-IsProven role value peer_ip now {id} {key_text} identity k h =
      by_return (text_of (get "device_id" value) _) _ h λ id' named h.
        by_return (text_of (get "identity_key" value) _) _ h λ key_text' keyed h.
          by_return (fingerprint_from_public_key c key_text') _ h λ fingerprint printed h.
            by_return (int_between 1 65535 (get "transfer_port" value) _) _ h λ port ported h.
              let named' = (text_of_iff (get "device_id" value) _ id').0 named in
              let keyed' = (text_of_iff (get "identity_key" value) _ key_text').0 keyed in
              let (number, low, high) =
                (int_between_iff 1 65535 (get "transfer_port" value) _ port).0 ported in
              let same_id : id ≡ id' = ground (arith, k.device_id) in
              let same_key : key_text ≡ key_text' = ground (arith, k.identity_key) in
              let made : PairingIdentity = record {
                device_id = id';
                public_key = key_text';
                fingerprint = fingerprint;
                peer_ip = peer_ip;
                received_at = now;
                transfer_port = port;
              } in
              let same : made ≡ identity = ground arith in
              (
                rw (← same) (record {
                  role_is = k.role_is;
                  device_id = named';
                  identity_key = keyed';
                  transfer_port = number;
                  in_range = (low, high);
                  derived =
                      ap (device_id_from_public_key c) (sym same_key) ∙ k.derived ∙ ap ok same_id;
                  fingerprint = printed;
                  key = k.key;
                  signature = k.signature;
                  decoded = ap (decode_public_key c) (sym same_key) ∙ k.decoded;
                  given = k.given;
                  verified = k.verified;
                }),
                ap (λ (i : PairingIdentity). i.peer_ip) (sym same),
              )

  -- A client whose pairing returns gives, with the address that it was called with, an identity
  -- whose ID and fingerprint are those of its key and whose port is in range, from a hello of a
  -- server that it read from its stream, before the rest that it returns, that this key verifies,
  -- and that names the hash of the client's own.
  pub client_pair-IsProven :
      (identity : DeviceIdentity) (peer_ip : String) (local_port : ℕ) (nonce : Bytes) (now : ℕ)
      (sock rest : Socket) (peer : PairingIdentity)
      → (client_pair c json identity peer_ip local_port nonce now sock).1 ≡ ok (peer, rest)
      → (hello : Fields) × IsProven c json "server" hello peer
        × (receive_json json sock ≡ ok (hello, rest))
        × (peer.peer_ip ≡ peer_ip)
        × (get "peer_hello_hash" hello
            ≡ str (
                c.hexdigest
                  (canonical json (pair_hello c json identity "client" nonce local_port none))))
  unfolding client_pair finish_pair
  client_pair-IsProven identity peer_ip local_port nonce now sock rest peer h =
      let own = pair_hello c json identity "client" nonce local_port none in
      by_return (receive_json json sock) _
        (after_sending-eq-ok c json (send_json json own) (finish_pair c json own peer_ip now sock)
          h)
        λ got read h. by_return (validate c json (object got.0) "server") _ h λ response valid h.
          by_return
            (raise_if
              (not (is_string (get "peer_hello_hash" response) (c.hexdigest (canonical json own))))
              _)
            _ h
            λ u hashed h. by_return (result c response peer_ip now) _ h λ made done h.
              let (whole, id, key_text, checked) =
                validate-IsChecked "server" got.0 response valid in
              let same : made ≡ peer = ground arith in
              let (proven, from) =
                result-IsProven "server" response peer_ip now made checked done in
              (
                response,
                rw (← same) proven,
                ground (arith, read, whole),
                rw (← same) from,
                eq_of_is_string (get "peer_hello_hash" response) _ (ground arith),
              )

  -- A server whose pairing returns gives, with the address that it was called with, an identity
  -- whose ID and fingerprint are those of its key and whose port is in range, from the hello
  -- that it was called with, which is of a client and which this key verifies.
  pub server_pair-IsProven :
      (identity : DeviceIdentity) (peer_ip : String) (fields : Fields) (local_port : ℕ)
      (nonce : Bytes) (now : ℕ) (peer : PairingIdentity)
      → (server_pair c json identity peer_ip fields local_port nonce now).1 ≡ ok peer
      → IsProven c json "client" fields peer × (peer.peer_ip ≡ peer_ip)
  unfolding server_pair
  server_pair-IsProven identity peer_ip fields local_port nonce now peer h =
      elim (Result-cases (validate c json (object fields) "client")) [
        | inr (e, raised) ↦ let refused = rw raised at h in absurd (cc)
        | inl (request, valid) ↦
            let answer =
              pair_hello c json identity "server" nonce local_port
                (some (c.hexdigest (canonical json request))) in
            let done =
              after_sending-eq-ok c json (send_json json answer) (result c request peer_ip now)
                (rw valid at h) in
            let (whole, id, key_text, checked) = validate-IsChecked "client" fields request valid in
            let (proven, from) = result-IsProven "client" request peer_ip now peer checked done in
            (rw whole proven, from)
      ]
