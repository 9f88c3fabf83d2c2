-- ===== src/Session/Authenticity.antt =====
-- core/session.py with core/trust.py: whom a side that returns has talked to.
use mesh_direct.Prelude.{
  ◌≡◌, refl, sym, ap, ◌∙◌, String, true, not, ◌||◌, Option, none, some, List, [], any, ◌==◌, eq_nat,
  eq_string, eq_iff, arith, lookup, Bool-cases, inl, inr,
}
use mesh_direct.Prelude.Python.{Result, ok, raise, raise_if, by_return, Result-cases, value_error}
use mesh_direct.Json.{Fields, str, object, get, is_string, is_number}
use mesh_direct.Json.Laws.{eq_of_is_string}
use mesh_direct.Protocol.Checks.{required, text_of, text_of_iff}
use mesh_direct.Frame.{Bytes}
use mesh_direct.Frame.Stream.{Socket}
use mesh_direct.Transfer.{JsonModule}
use mesh_direct.Primitives.{Primitives}
use mesh_direct.Identity.{DeviceIdentity, is_device_id, decode_public_key}
use mesh_direct.Trust.{TrustStatus, trusted, TrustedDevice, TrustStore, assess, load}
use mesh_direct.Trust.Calls.{Op, run}
use mesh_direct.Trust.Decisions.{is_trust_of, IsUntrusted, trusted_needs_trust}
use mesh_direct.Session.{
  AuthenticatedSession, as_protocol_error, canonical, signed_bytes, receive_json, send_json,
  b64decode_field, validate_hello, derive_key, protocol_version, after_sending, is_trusted_status,
  client_hello, finish_client, client_handshake, first_hello, Client, accept_client, server_hello,
  finish_server, server_handshake,
}

pub as_protocol_error-eq-ok {ℓ} :
    {A : Type ℓ} (m : String) (r : Result A) {a : A} → as_protocol_error m r ≡ ok a → r ≡ ok a
as_protocol_error-eq-ok m (raise (value_error t)) h = cc
as_protocol_error-eq-ok m (raise e) h = cc
as_protocol_error-eq-ok m (ok a) h = h

only_trusted : (status : TrustStatus) → is_trusted_status status ≡ true → status ≡ trusted
only_trusted trusted h = refl
only_trusted status h = cc

-- a trust store with no file yet
abbrev pub new_store : TrustStore
new_store = record { devices = []; saved = none }

-- A hello in this role, under this ID and key, and under a signature that the key verifies.
pub record IsSigned (c : Primitives) (json : JsonModule) (role id key : String) (hello : Fields)
    : Type 0 where
  pub role_is : get "role" hello ≡ str role
  pub device_id : get "device_id" hello ≡ str id
  pub identity_key : get "identity_key" hello ≡ str key
  pub public_key : Bytes
  pub signature : Bytes
  pub decoded : decode_public_key c key ≡ ok public_key
  pub given : b64decode_field c (get "signature" hello) 64 "Invalid signature" ≡ ok signature
  pub verified : c.verify public_key signature (signed_bytes json hello) ≡ true

module _ (c : Primitives) (json : JsonModule) where
  validate_hello-IsSigned :
      (role : String) (fields hello : Fields) (ephemeral nonce : Bytes)
      → validate_hello c json (object fields) role ≡ ok (hello, ephemeral, nonce)
      → (fields ≡ hello) × (id : String) × (key : String) × IsSigned c json role id key hello
  unfolding validate_hello required
  validate_hello-IsSigned role fields hello ephemeral nonce h =
      by_return (raise_if (not (is_string (get "type" fields) "hello")) _) _ h λ u a h.
        by_return (raise_if (not (is_number (get "protocol" fields) protocol_version)) _) _ h
          λ u a h.
            by_return (raise_if (not (is_string (get "role" fields) role)) _) _ h λ u in_role h.
              by_return (text_of (get "device_id" fields) _) _ h λ id named h.
                by_return (raise_if (not (is_device_id id)) _) _ h λ u a h.
                  by_return (text_of (get "identity_key" fields) _) _ h λ key keyed h.
                    by_return
                      (as_protocol_error "Invalid peer identity key" (decode_public_key c key)) _ h
                      λ public decoded h.
                        by_return (b64decode_field c (get "ephemeral_key" fields) 32 _) _ h λ e a h.
                          by_return (b64decode_field c (get "nonce" fields) 32 _) _ h λ n a h.
                            by_return
                              (b64decode_field c (get "signature" fields) 64 "Invalid signature") _
                              h
                              λ signature given h.
                                by_return
                                  (raise_if
                                    (not (c.verify public signature (signed_bytes json fields))) _)
                                  _ h
                                  λ u verified h.
                                    let same : fields ≡ hello = ground arith in
                                    (
                                      same,
                                      id,
                                      key,
                                      rw (← same) (record {
                                        role_is =
                                            eq_of_is_string (get "role" fields) role (ground arith);
                                        device_id =
                                            (text_of_iff (get "device_id" fields) _ id).0 named;
                                        identity_key =
                                            (text_of_iff (get "identity_key" fields) _ key).0 keyed;
                                        public_key = public;
                                        signature = signature;
                                        decoded = as_protocol_error-eq-ok _ _ decoded;
                                        given = given;
                                        verified = ground arith;
                                      }),
                                    )

  -- The texts in a hello are its only ID and key.
  renamed :
      (role : String) (hello : Fields) {id key id' key' : String}
      → IsSigned c json role id key hello
      → get "device_id" hello ≡ str id'
      → get "identity_key" hello ≡ str key'
      → IsSigned c json role id' key' hello
  renamed role hello {id} {key} {id'} {key'} signed named keyed =
      let same : key ≡ key' = ground (arith, signed.identity_key) in
      record {
        role_is = signed.role_is;
        device_id = named;
        identity_key = keyed;
        public_key = signed.public_key;
        signature = signed.signature;
        decoded = ap (decode_public_key c) (sym same) ∙ signed.decoded;
        given = signed.given;
        verified = signed.verified;
      }

  pub after_sending-eq-ok {ℓ} :
      {A : Type ℓ} (r : Result Bytes) (rest : Result A) {a : A}
      → (after_sending r rest).1 ≡ ok a
      → rest ≡ ok a
  after_sending-eq-ok (raise e) rest h = cc
  after_sending-eq-ok (ok frame) rest h = h

  finish_client-IsSigned :
      (peer : TrustedDevice) (private_key nonce : Bytes) (own : Fields) (sock rest : Socket)
      (session : AuthenticatedSession)
      → finish_client c json peer private_key nonce own sock ≡ ok (session, rest)
      → (hello : Fields) × IsSigned c json "server" peer.device_id peer.public_key hello
        × (receive_json json sock ≡ ok (hello, rest))
        × (get "peer_hello_hash" hello ≡ str (c.hexdigest (canonical json own)))
        × (session.peer_device_id ≡ peer.device_id)
  unfolding finish_client
  finish_client-IsSigned peer private_key nonce own sock rest session h =
      by_return (receive_json json sock) _ h λ got read h.
        by_return (validate_hello c json (object got.0) "server") _ h λ r valid h.
          by_return
            (raise_if
              (not (is_string (get "device_id" r.0) peer.device_id)
                || not (is_string (get "identity_key" r.0) peer.public_key))
              _)
            _ h
            λ u right h.
              by_return
                (raise_if
                  (not (is_string (get "peer_hello_hash" r.0) (c.hexdigest (canonical json own))))
                  _)
                _ h
                λ u hashed h.
                  by_return (derive_key c json private_key r.1 own r.0 nonce r.2) _ h λ key a h.
                    let (same, id, k, signed) =
                      validate_hello-IsSigned "server" got.0 r.0 r.1 r.2 valid in
                    let id_is =
                      eq_of_is_string (get "device_id" r.0) peer.device_id (ground arith) in
                    let key_is =
                      eq_of_is_string (get "identity_key" r.0) peer.public_key (ground arith) in
                    (
                      r.0,
                      renamed "server" r.0 signed id_is key_is,
                      ground (arith, read, same),
                      eq_of_is_string (get "peer_hello_hash" r.0) _ (ground arith),
                      ground arith,
                    )

  -- A client whose handshake returns has asked for a trusted peer, returns its ID and the rest of
  -- its stream behind a hello that it read there, and this hello is of a server under the ID and the
  -- key of this peer, is signed under that key, and names the hash of the client's own hello.
  pub client_handshake-IsSigned :
      (identity : DeviceIdentity) (peer : TrustedDevice) (private_key nonce : Bytes)
      (sock rest : Socket) (session : AuthenticatedSession)
      → (client_handshake c json identity peer private_key nonce sock).1 ≡ ok (session, rest)
      → (peer.status ≡ "trusted")
        × (session.peer_device_id ≡ peer.device_id)
        × ((hello : Fields) × IsSigned c json "server" peer.device_id peer.public_key hello
            × (receive_json json sock ≡ ok (hello, rest))
            × (get "peer_hello_hash" hello
                ≡ str (
                    c.hexdigest (canonical json (client_hello c json identity private_key nonce)))))
  unfolding client_handshake
  client_handshake-IsSigned identity peer private_key nonce sock rest session h =
      elim (Bool-cases (peer.status == "trusted")) [
        | inr other ↦ let refused = rw other at h in absurd (cc)
        | inl known ↦
            let own = client_hello c json identity private_key nonce in
            let finished =
              after_sending-eq-ok (send_json json own)
                (finish_client c json peer private_key nonce own sock) (rw known at h) in
            let (hello, signed, read, hashed, same) =
              finish_client-IsSigned peer private_key nonce own sock rest session finished in
            ((eq_iff peer.status "trusted").0 known, same, (hello, signed, read, hashed))
      ]

  -- The hello that the listener read before, or that is read from the stream now, and what is left
  -- of the stream.
  abbrev pub IsGiven : Option Fields → Socket → Fields → Socket → Type 0
  IsGiven none sock hello rest = receive_json json sock ≡ ok (hello, rest)
  IsGiven (some initial) sock hello rest = (initial ≡ hello) × (sock ≡ rest)

  first_hello-IsGiven :
      (initial : Option Fields) (sock : Socket) (hello : Fields) (rest : Socket)
      → first_hello c json initial sock ≡ ok (hello, rest)
      → IsGiven initial sock hello rest
  first_hello-IsGiven none sock hello rest h = h
  first_hello-IsGiven (some initial) sock hello rest h = (ground arith, ground arith)

  accept_client-IsSigned :
      (store : TrustStore) (initial : Option Fields) (sock sock' : Socket) (client : Client)
      → accept_client c json store initial sock ≡ ok (client, sock')
      → (key : String) × IsSigned c json "client" client.device_id key client.hello
        × IsGiven initial sock client.hello sock'
        × (assess (some client.device_id) (some key) store ≡ ok trusted)
  unfolding accept_client
  accept_client-IsSigned store initial sock sock' client h =
      by_return (first_hello c json initial sock) _ h λ got read h.
        by_return (validate_hello c json (object got.0) "client") _ h λ r valid h.
          by_return (text_of (get "device_id" r.0) "Missing peer identity") _ h λ id named h.
            by_return (text_of (get "identity_key" r.0) "Missing peer identity") _ h λ key keyed h.
              by_return (assess (some id) (some key) store) _ h λ status assessed h.
                by_return (raise_if (not (is_trusted_status status)) _) _ h λ u right h.
                  let (whole, id', key', signed) =
                    validate_hello-IsSigned "client" got.0 r.0 r.1 r.2 valid in
                  let fine =
                    renamed "client" r.0 signed ((text_of_iff (get "device_id" r.0) _ id).0 named)
                      ((text_of_iff (get "identity_key" r.0) _ key).0 keyed) in
                  let known : status ≡ trusted = only_trusted status (ground arith) in
                  let same : record { hello = r.0; ephemeral = r.1; nonce = r.2; device_id = id }
                      ≡ client =
                    ground arith in
                  let left : got.1 ≡ sock' = ground arith in
                  let given = first_hello-IsGiven initial sock got.0 got.1 read in
                  (
                    key,
                    rw (← same) fine,
                    rw (← same, ← left, ← whole) given,
                    rw (← same) (assessed ∙ ap ok known),
                  )

  new_store-IsUntrusted : (id key : String) → IsUntrusted c id key new_store
  unfolding lookup load
  new_store-IsUntrusted id key = record { distinct = tt; file = tt; memory = refl; disk = refl }

  finish_server-peer :
      (client : Client) (private_key nonce : Bytes) (hello : Fields) (sock rest : Socket)
      (session : AuthenticatedSession)
      → finish_server c json client private_key nonce hello sock ≡ ok (session, rest)
      → (session.peer_device_id ≡ client.device_id) × (sock ≡ rest)
  unfolding finish_server
  finish_server-peer client private_key nonce hello sock rest session h =
      by_return
        (derive_key c json private_key client.ephemeral client.hello hello client.nonce nonce) _ h
        λ key a h. (ground arith, ground arith)

  answer-IsSigned :
      (identity : DeviceIdentity) (store : TrustStore) (initial : Option Fields)
      (private_key nonce : Bytes) (sock rest : Socket) (session : AuthenticatedSession)
      → (server_handshake c json identity store initial private_key nonce sock).1
        ≡ ok (session, rest)
      → (key : String) × (hello : Fields) × IsSigned c json "client" session.peer_device_id key
          hello
        × IsGiven initial sock hello rest
        × (assess (some session.peer_device_id) (some key) store ≡ ok trusted)
  unfolding server_handshake
  answer-IsSigned identity store initial private_key nonce sock rest session h =
      elim (Result-cases (accept_client c json store initial sock)) [
        | inr (e, raised) ↦ let refused = rw raised at h in absurd (cc)
        | inl ((client, sock'), taken) ↦
            let answer = server_hello c json identity private_key nonce client.hello in
            let finished =
              after_sending-eq-ok (send_json json answer)
                (finish_server c json client private_key nonce answer sock') (rw taken at h) in
            let (same, left) =
              finish_server-peer client private_key nonce answer sock' rest session finished in
            let (key, signed, given, known) =
              accept_client-IsSigned store initial sock sock' client taken in
            (key, client.hello, rw same signed, rw (← left) given, rw same known)
      ]

  -- On a trust store that started without a file, after any calls on it, restarts and failed writes
  -- included: when a server's handshake returns, then the hello that the listener passed on to it, or
  -- else the one that it read from its stream, before the rest that it returns, is of a client with
  -- the device ID that the handshake returns, is signed under the key that it names, and one of the
  -- calls trusted that ID under that key.
  pub server_handshake-needs_trust :
      (ops : List Op) (identity : DeviceIdentity) (initial : Option Fields)
      (private_key nonce : Bytes) (sock rest : Socket) (session : AuthenticatedSession)
      → (server_handshake c json identity (run c ops new_store) initial private_key nonce sock).1
        ≡ ok (session, rest)
      → (key : String) × (hello : Fields) × IsSigned c json "client" session.peer_device_id key
          hello
        × IsGiven initial sock hello rest
        × (any (is_trust_of session.peer_device_id key) ops ≡ true)
  server_handshake-needs_trust ops identity initial private_key nonce sock rest session h =
      let (key, hello, signed, given, known) =
        answer-IsSigned identity (run c ops new_store) initial private_key nonce sock rest session
          h in
      (
        key,
        hello,
        signed,
        given,
        elim (Bool-cases (any (is_trust_of session.peer_device_id key) ops)) [
          | inl called ↦ called
          | inr never ↦ absurd (
              trusted_needs_trust c session.peer_device_id key ops new_store
                (new_store-IsUntrusted session.peer_device_id key) never known)
        ],
      )
