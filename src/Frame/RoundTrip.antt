-- ===== src/Frame/RoundTrip.antt =====
-- utils/crypto.py: `unpack_frame` reads what `pack_frame` wrote.
use mathlib.Core.List.{append_assoc}
use mesh_direct.Prelude.{
  ℕ, ◌+◌, ◌*◌, ◌/◌, ◌%◌, ◌^◌, ◌≡◌, ◌≤◌, ◌<◌, ◌∙◌, ap, [], ◌∷◌, ◌++◌, length, drop, arith, eq_nat,
  take-append_length, drop-append_length,
}
use mesh_direct.Prelude.Python.{ok}
use mesh_direct.Frame.Stream.{Socket, bytes_of, IsFlowing}
use mesh_direct.Frame.{Bytes, recv_payload, unpack_length, pack_length, pack_frame, unpack_frame}
use mesh_direct.Frame.Receive.{recv_exact-take}

-- The four bytes of a length.
abbrev header_of : ℕ → Bytes
header_of n = n / 2 ^ 24 ∷ n / 2 ^ 16 % 256 ∷ n / 2 ^ 8 % 256 ∷ n % 256 ∷ []

header_sum :
    (n : ℕ)
    → n / 2 ^ 24 * 2 ^ 24 + n / 2 ^ 16 % 256 * 2 ^ 16 + n / 2 ^ 8 % 256 * 2 ^ 8 + n % 256 ≡ n
header_sum n = omega arith

pack_frame-parts :
    (payload : Bytes) {frame : Bytes}
    → pack_frame payload ≡ ok frame
    → (frame ≡ header_of (length payload) ++ payload) × (length payload < 2 ^ 32)
unfolding pack_frame
pack_frame-parts payload h = ground arith

-- A payload whose length has 32 bits is packed.
pub pack_frame-small :
    (payload : Bytes) → length payload < 2 ^ 32 → (frame : Bytes) × (pack_frame payload ≡ ok frame)
unfolding pack_frame pack_length
pack_frame-small payload h = (header_of (length payload) ++ payload, ground arith)

-- A reader that has the header at hand reads the length, and goes on from the byte behind it.
pub read_header :
    (n : ℕ) (tail : Bytes) (max_size : ℕ) (sock : Socket)
    → n ≤ max_size
    → IsFlowing sock
    → bytes_of sock ≡ header_of n ++ tail
    → (sock' : Socket) × IsFlowing sock'
      × (bytes_of sock' ≡ tail)
      × (unpack_frame max_size sock ≡ recv_payload n sock')
unfolding unpack_frame unpack_length
read_header n tail max_size sock h f e =
    let (sock', got, flowing, left) = recv_exact-take 4 sock f in
    (sock', flowing, left ∙ ap (drop 4) e, rw (got, e) (rw header_sum (ground arith)))

-- A frame of at most `max_size` bytes of payload, sent and followed by anything, is read back whole:
-- `unpack_frame` returns the payload and leaves what follows, however the network cut the bytes.
pub unpack_frame-pack_frame :
    (payload rest : Bytes) (max_size : ℕ) (frame : Bytes) (sock : Socket)
    → pack_frame payload ≡ ok frame
    → length payload ≤ max_size
    → IsFlowing sock
    → bytes_of sock ≡ frame ++ rest
    → (sock' : Socket) × (unpack_frame max_size sock ≡ ok (payload, sock'))
      × IsFlowing sock'
      × (bytes_of sock' ≡ rest)
unfolding recv_payload
unpack_frame-pack_frame payload rest max_size frame sock packed h f e =
    let (shape, small) = pack_frame-parts payload packed in
    let (after, flowing, left, reads) =
      read_header (length payload) (payload ++ rest) max_size sock h f
        (e ∙ ap (λ c. c ++ rest) shape ∙ append_assoc (header_of (length payload)) payload rest) in
    let (sock', got, flowing', left') = recv_exact-take (length payload) after flowing in
    (
      sock',
      reads ∙ rw (got, left, take-append_length payload rest) (ground arith),
      flowing',
      left' ∙ rw (left, drop-append_length payload rest),
    )

-- No payload above the limit gets through, whatever the peer sends.
pub unpack_frame-le :
    (max_size : ℕ) (sock : Socket) {payload : Bytes} {sock' : Socket}
    → unpack_frame max_size sock ≡ ok (payload, sock')
    → length payload ≤ max_size
unfolding unpack_frame
unpack_frame-le max_size sock h = ground arith
