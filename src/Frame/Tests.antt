-- ===== src/Frame/Tests.antt =====
-- Frames of utils/crypto.py on concrete bytes.
use mesh_direct.Prelude.{◌≡◌, ◌≤◌, refl, [], ◌∷◌, ◌++◌, take, drop, arith}
use mesh_direct.Prelude.Python.{ok, raise, timeout, value_error}
use mesh_direct.Frame.{Bytes, pack_frame, unpack_frame, recv_exact}
use mesh_direct.Frame.Stream.{Socket, segment, fault, bytes_of, IsFlowing}
use mesh_direct.Frame.Receive.{recv_exact-take}
use mesh_direct.Frame.RoundTrip.{unpack_frame-pack_frame, unpack_frame-le}
use mesh_direct.Frame.Cipher.{Aead, send_frame, receive_frame, receive_frame-send_frame}

-- Two frames, cut inside the headers and the payloads.
abbrev cuts : Socket
cuts = segment (0 ∷ 0 ∷ []) ∷ segment (0 ∷ 3 ∷ 10 ∷ []) ∷ segment (20 ∷ 30 ∷ 0 ∷ 0 ∷ []) ∷ []

unpack_cuts : unpack_frame 8 cuts ≡ ok (10 ∷ 20 ∷ 30 ∷ [], segment (0 ∷ 0 ∷ []) ∷ [])
unfolding unpack_frame
unpack_cuts = refl

unpack_too_long : unpack_frame 2 cuts ≡ raise (value_error "Frame size exceeds the maximum allowed")
unfolding unpack_frame
unpack_too_long = refl

unpack_fault :
    unpack_frame 8 (segment (0 ∷ []) ∷ fault (timeout "timed out") ∷ [])
    ≡ raise (timeout "timed out")
unfolding unpack_frame
unpack_fault = refl

cuts-IsFlowing : IsFlowing cuts
cuts-IsFlowing = (omega arith, (omega arith, (omega arith, tt)))

unpack_frame-pack_frame_example :
    (sock' : Socket) × (unpack_frame 8 cuts ≡ ok (10 ∷ 20 ∷ 30 ∷ [], sock'))
    × IsFlowing sock'
    × (bytes_of sock' ≡ 0 ∷ 0 ∷ [])
unfolding pack_frame
unpack_frame-pack_frame_example =
    unpack_frame-pack_frame (10 ∷ 20 ∷ 30 ∷ []) (0 ∷ 0 ∷ []) 8 (0 ∷ 0 ∷ 0 ∷ 3 ∷ 10 ∷ 20 ∷ 30 ∷ [])
      cuts refl (omega arith) cuts-IsFlowing refl

unpack_frame-le_example : 3 ≤ 8
unpack_frame-le_example = unpack_frame-le 8 cuts unpack_cuts

recv_exact-cuts :
    (sock' : Socket) × (recv_exact 6 cuts ≡ ok (0 ∷ 0 ∷ 0 ∷ 3 ∷ 10 ∷ 20 ∷ [], sock'))
    × IsFlowing sock'
    × (bytes_of sock' ≡ 30 ∷ 0 ∷ 0 ∷ [])
recv_exact-cuts = recv_exact-take 6 cuts cuts-IsFlowing

-- A stand-in cipher: sixteen bytes of tag in front of the data.
abbrev tag : Bytes
tag = 0 ∷ 0 ∷ 0 ∷ 0 ∷ 0 ∷ 0 ∷ 0 ∷ 0 ∷ 0 ∷ 0 ∷ 0 ∷ 0 ∷ 0 ∷ 0 ∷ 0 ∷ 0 ∷ []

abbrev pub plain_aead : Aead
plain_aead = record {
  encrypt = λ key nonce plain. tag ++ plain;
  decrypt = λ key nonce sealed. ok (drop 16 sealed);
  decrypt-encrypt = λ key nonce plain. refl;
  length-encrypt = λ key nonce plain. omega arith;
}

abbrev nonce : Bytes
nonce = 1 ∷ 2 ∷ 3 ∷ 4 ∷ 5 ∷ 6 ∷ 7 ∷ 8 ∷ 9 ∷ 10 ∷ 11 ∷ 12 ∷ []

abbrev pub key : Bytes
key = tag ++ tag

abbrev sent : Bytes
sent = 0 ∷ 0 ∷ 0 ∷ 30 ∷ nonce ++ tag ++ 7 ∷ 8 ∷ []

receive_frame-send_frame_example :
    (sock' : Socket) × (receive_frame plain_aead 100 key
        (segment (take 5 sent) ∷ segment (drop 5 sent) ∷ [])
      ≡ ok (7 ∷ 8 ∷ [], sock'))
    × IsFlowing sock'
    × (bytes_of sock' ≡ [])
unfolding send_frame pack_frame
receive_frame-send_frame_example =
    receive_frame-send_frame plain_aead nonce key (7 ∷ 8 ∷ []) [] sent 100
      (segment (take 5 sent) ∷ segment (drop 5 sent) ∷ []) refl refl (omega arith)
      (omega arith, (omega arith, tt)) refl
