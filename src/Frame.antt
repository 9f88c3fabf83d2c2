-- ===== src/Frame.antt =====
-- utils/crypto.py: length-prefixed frames, and the AES-GCM protection of their payload.
-- A byte is a number below 256. What a socket will deliver is a list of arrivals.
pub mod Stream
mod Receive
pub mod RoundTrip
pub mod Cipher
mod Tests
use mesh_direct.Prelude.{
  ℕ, zero, suc, ◌+◌, ◌-◌, ◌*◌, ◌/◌, ◌%◌, ◌^◌, Bool, true, false, List, [], ◌∷◌, ◌++◌, length, take,
  drop, leb, ltb, if◌then◌else◌, ◌==◌, ◌≡◌, eq_nat, not,
}
use mesh_direct.Prelude.Python.{
  Error, Result, ok, raise, ◌>>=◌, ◌>>◌, raise_if, value_error, connection_error, struct_error,
}
use mesh_direct.Frame.Stream.{Socket, recv}

abbrev pub Bytes : Type 0
Bytes = List ℕ

-- `struct.pack(">I", n)`
unfoldable pub pack_length : ℕ → Result Bytes
pack_length n =
    if ltb n (2 ^ 32)
    then ok (n / 2 ^ 24 ∷ n / 2 ^ 16 % 256 ∷ n / 2 ^ 8 % 256 ∷ n % 256 ∷ [])
    else raise (struct_error "argument out of range")

-- `struct.unpack(">I", raw)[0]`
unfoldable pub unpack_length : Bytes → Result ℕ
unpack_length (a ∷ b ∷ c ∷ d ∷ []) = ok (a * 2 ^ 24 + b * 2 ^ 16 + c * 2 ^ 8 + d)
unpack_length _ = raise (struct_error "unpack requires a buffer of 4 bytes")

unfoldable pub pack_frame : Bytes → Result Bytes
unfolding pack_length
pack_frame data' = do header ← pack_length (length data'); ok (header ++ data')

-- The loop of `_recv_exact`: `size` bytes are still wanted, and each round brings one at least.
recv_loop : ℕ → ℕ → Bytes → Socket → Result (Bytes × Socket)
recv_loop zero size result sock = ok (result, sock)
recv_loop (suc fuel) size result sock =
    let round = (do
      (chunk, sock') ← recv size sock
      let rest = recv_loop fuel (size - length chunk) (result ++ chunk) sock'
      if length chunk == 0 then ok (result, sock') else rest) in
    if size == 0 then ok (result, sock) else round

unfoldable pub recv_exact : ℕ → Socket → Result (Bytes × Socket)
unfolding recv_loop recv
recv_exact size sock = recv_loop size size [] sock

-- the second half of `unpack_frame`, behind the length
unfoldable pub recv_payload : ℕ → Socket → Result (Bytes × Socket)
recv_payload size sock = do
  (payload, sock) ← recv_exact size sock
  raise_if (not (length payload == size))
      (connection_error "Connection closed while reading frame data")
  ok (payload, sock)

unfoldable pub unpack_frame : ℕ → Socket → Result (Bytes × Socket)
unfolding recv_payload recv_exact unpack_length
unpack_frame max_size sock = do
  (raw_length, sock) ← recv_exact 4 sock
  raise_if (not (length raw_length == 4))
      (connection_error "Connection closed while reading frame length")
  size ← unpack_length raw_length
  raise_if (ltb max_size size) (value_error "Frame size exceeds the maximum allowed")
  recv_payload size sock
