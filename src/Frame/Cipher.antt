-- ===== src/Frame/Cipher.antt =====
-- utils/crypto.py: `encrypt_chunk` and `decrypt_chunk`, over the AES-GCM of the cryptography package.
use mesh_direct.Prelude.{
  ℕ, ◌+◌, ◌≡◌, ◌≤◌, sym, ◌∙◌, ap, ◌++◌, length, take, drop, arith, ltb, ◌==◌, eq_nat, not,
  length-append, take-append_length, drop-append_length,
}
use mesh_direct.Prelude.Python.{Result, ok, ◌>>=◌, ◌>>◌, raise_if, value_error, >>=-eq-ok}
use mesh_direct.Frame.{Bytes, pack_frame, unpack_frame}
use mesh_direct.Frame.Stream.{Socket, bytes_of, IsFlowing}
use mesh_direct.Frame.RoundTrip.{unpack_frame-pack_frame}

-- `AESGCM(key)`, with no associated data. A ciphertext that was not made under the key and the
-- nonce raises.
pub record Aead : Type 0 where
  pub encrypt : Bytes → Bytes → Bytes → Bytes  -- key, nonce, data
  pub decrypt : Bytes → Bytes → Bytes → Result Bytes  -- key, nonce, ciphertext
  pub decrypt-encrypt :
      (key nonce plain : Bytes) → decrypt key nonce (encrypt key nonce plain) ≡ ok plain
  pub length-encrypt :
      (key nonce plain : Bytes) → length (encrypt key nonce plain) ≡ length plain + 16

abbrev pub nonce_size : ℕ
nonce_size = 12

module _ (aead : Aead) where
  open aead use {encrypt, decrypt}

  -- `nonce` is what `os.urandom(NONCE_SIZE)` returns.
  unfoldable pub encrypt_chunk : Bytes → Bytes → Bytes → Result Bytes
  encrypt_chunk nonce plain key = do
    raise_if (not (length key == 32)) (value_error "AES-256-GCM requires a 32-byte key")
    ok (nonce ++ encrypt key nonce plain)

  unfoldable pub decrypt_chunk : Bytes → Bytes → Result Bytes
  decrypt_chunk payload key = do
    raise_if (not (length key == 32)) (value_error "AES-256-GCM requires a 32-byte key")
    raise_if (ltb (length payload) (nonce_size + 16)) (value_error "Encrypted frame is too short")
    decrypt key (take nonce_size payload) (drop nonce_size payload)

  chunk_parts :
      (nonce plain key : Bytes) {sealed : Bytes}
      → encrypt_chunk nonce plain key ≡ ok sealed
      → (length key ≡ 32) × (sealed ≡ nonce ++ encrypt key nonce plain)
  unfolding encrypt_chunk
  chunk_parts nonce plain key h = ground arith

  -- What one side encrypts under a 32-byte key and any 12-byte nonce, the other decrypts.
  pub decrypt_chunk-encrypt_chunk :
      (nonce plain key : Bytes) {sealed : Bytes}
      → length nonce ≡ 12
      → encrypt_chunk nonce plain key ≡ ok sealed
      → (decrypt_chunk sealed key ≡ ok plain) × (length sealed ≡ length plain + 28)
  unfolding encrypt_chunk decrypt_chunk
  decrypt_chunk-encrypt_chunk nonce plain key n h =
      let (key_32, shape) = chunk_parts nonce plain key h in
      let ct = encrypt key nonce plain in
      let front : take 12 (nonce ++ ct) ≡ nonce =
        ap (λ k. take k (nonce ++ ct)) (sym n) ∙ take-append_length nonce ct in
      let back : drop 12 (nonce ++ ct) ≡ ct =
        ap (λ k. drop k (nonce ++ ct)) (sym n) ∙ drop-append_length nonce ct in
      let size : length (nonce ++ ct) ≡ length plain + 28 =
        omega (arith, length-append nonce ct, aead.length-encrypt key nonce plain) in
      rw shape (rw (front, back, aead.decrypt-encrypt key nonce plain) (ground arith), size)

  -- `sock.sendall(pack_frame(encrypt_chunk(raw, key)))`: the bytes that are sent
  unfoldable pub send_frame : Bytes → Bytes → Bytes → Result Bytes
  unfolding encrypt_chunk
  send_frame nonce key raw = encrypt_chunk nonce raw key >>= pack_frame

  -- `decrypt_chunk(unpack_frame(sock, max_size), key)`
  unfoldable pub receive_frame : ℕ → Bytes → Socket → Result (Bytes × Socket)
  receive_frame max_size key sock = do
    (sealed, sock) ← unpack_frame max_size sock
    raw ← decrypt_chunk sealed key
    ok (raw, sock)

  -- Over a connection that only cuts the bytes, `receive_frame` returns what `send_frame` was given
  -- and leaves what follows, if the payload is within the reader's limit.
  pub receive_frame-send_frame :
      (nonce key raw rest sent : Bytes) (max_size : ℕ) (sock : Socket)
      → length nonce ≡ 12
      → send_frame nonce key raw ≡ ok sent
      → length raw + 28 ≤ max_size
      → IsFlowing sock
      → bytes_of sock ≡ sent ++ rest
      → (sock' : Socket) × (receive_frame max_size key sock ≡ ok (raw, sock'))
        × IsFlowing sock'
        × (bytes_of sock' ≡ rest)
  unfolding send_frame receive_frame
  receive_frame-send_frame nonce key raw rest sent max_size sock n h small f e =
      let (sealed, made, packed) = >>=-eq-ok (encrypt_chunk nonce raw key) pack_frame h in
      let (opens, size) = decrypt_chunk-encrypt_chunk nonce raw key n made in
      let (sock', got, flowing, left) =
        unpack_frame-pack_frame sealed rest max_size sent sock packed (omega arith) f e in
      (sock', rw (got, opens), flowing, left)
