-- ===== src/Frame/Receive.antt =====
-- utils/crypto.py: `_recv_exact` reassembles the stream, however the network cut it.
use mathlib.Core.List.{append_assoc, append-nil}
use mesh_direct.Prelude.{
  ℕ, zero, suc, ◌-◌, ◌≡◌, ◌≤◌, ◌<◌, refl, sym, ◌∙◌, ap, [], ◌∷◌, ◌++◌, length, take, drop, arith,
  Bool-cases, inl, inr, leb, ◌==◌, eq_nat, take-append-drop, take-append_ge, drop-append_ge,
  length-take, length-drop, take_nil, drop_nil, nil_of_length-zero,
}
use mesh_direct.Prelude.Python.{Result, ok}
use mesh_direct.Frame.Stream.{Socket, segment, fault, recv, bytes_of, IsFlowing}
use mesh_direct.Frame.{Bytes, recv_loop, recv_exact}

-- What one `recv` does: it moves a piece from the front of the stream, empty only at its end.
record Moved (n : ℕ) (sock : Socket) (chunk : Bytes) (sock' : Socket) : Type 0 where
  returns : recv n sock ≡ ok (chunk, sock')
  flowing : IsFlowing sock'
  split : bytes_of sock ≡ chunk ++ bytes_of sock'
  fits : length chunk ≤ n
  ended : length chunk ≡ 0 → bytes_of sock ≡ []

recv-Moved :
    (n : ℕ) (sock : Socket)
    → 0 < n
    → IsFlowing sock
    → (chunk : Bytes) × (sock' : Socket) × Moved n sock chunk sock'
unfolding recv
recv-Moved n [] pos f = (
  [],
  [],
  record { returns = refl; flowing = tt; split = refl; fits = omega arith; ended = λ _. refl },
)
recv-Moved n (segment b ∷ sock) pos f = elim (Bool-cases (leb (length b) n)) [
  | inl all ↦ (
    b,
    sock,
    record {
      returns = rw all;
      flowing = f.1;
      split = refl;
      fits = ground arith;
      ended = λ e. absurd (omega arith);
    },
  )
  | inr more ↦ (
    take n b,
    segment (drop n b) ∷ sock,
    record {
      returns = rw more;
      flowing = (ground (arith, length-drop n b), f.1);
      split =
          ap (λ c. c ++ bytes_of sock) (sym (take-append-drop n b))
          ∙ append_assoc (take n b) (drop n b) (bytes_of sock);
      fits = ground (arith, length-take n b);
      ended = λ e. absurd (ground (arith, length-take n b));
    },
  )
]
recv-Moved n (fault e ∷ sock) pos f = absurd f

record Taken (size : ℕ) (result : Bytes) (sock : Socket) (got : Result (Bytes × Socket))
    : Type 0 where
  sock' : Socket
  returns : got ≡ ok (result ++ take size (bytes_of sock), sock')
  flowing : IsFlowing sock'
  left : bytes_of sock' ≡ drop size (bytes_of sock)

Taken-end :
    {chunk : Bytes} {sock sock' : Socket} (size : ℕ) (result : Bytes)
    → Moved size sock chunk sock'
    → length chunk ≡ 0
    → Taken size result sock (ok (result, sock'))
Taken-end {chunk} {sock} {sock'} size result m e =
    let whole : bytes_of sock ≡ [] = m.ended e in
    let left : bytes_of sock' ≡ [] =
      ap (λ c. c ++ bytes_of sock') (sym (nil_of_length-zero chunk e)) ∙ sym m.split ∙ whole in
    record {
      sock' = sock';
      returns = rw (whole, take_nil, append-nil);
      flowing = m.flowing;
      left = rw (whole, drop_nil) left;
    }

Taken-more :
    {chunk : Bytes} {sock sock' : Socket} {got : Result (Bytes × Socket)} (size : ℕ)
    (result : Bytes)
    → Moved size sock chunk sock'
    → Taken (size - length chunk) (result ++ chunk) sock' got
    → Taken size result sock got
Taken-more {chunk} {sock} {sock'} size result m t = record {
  sock' = t.sock';
  returns =
      t.returns ∙ rw (m.split, take-append_ge size chunk (bytes_of sock') m.fits, append_assoc);
  flowing = t.flowing;
  left = t.left ∙ rw (m.split, drop-append_ge size chunk (bytes_of sock') m.fits);
}

recv_loop-Taken :
    (fuel size : ℕ) (result : Bytes) (sock : Socket)
    → size ≤ fuel
    → IsFlowing sock
    → Taken size result sock (recv_loop fuel size result sock)
unfolding recv_loop
recv_loop-Taken zero size result sock h f =
    let e : size ≡ 0 = omega arith in
    rw e (record { sock' = sock; returns = rw append-nil; flowing = f; left = refl })
recv_loop-Taken (suc fuel) size result sock h f = elim (Bool-cases (size == 0)) [
  | inl none_wanted ↦
      let e : size ≡ 0 = ground arith in
      rw e (record { sock' = sock; returns = rw append-nil; flowing = f; left = refl })
  | inr wanted ↦
      let (chunk, sock', m) = recv-Moved size sock (ground arith) f in
      rw wanted (
        rw m.returns (elim (Bool-cases (length chunk == 0)) [
          | inl end ↦ rw end (Taken-end size result m (ground arith))
          | inr more ↦ rw more (
              Taken-more size result m (
                recv_loop-Taken fuel (size - length chunk) (result ++ chunk) sock' (ground arith)
                  m.flowing))
        ]))
]

-- On a stream without faults `_recv_exact` returns the next `size` bytes, or all that are left if
-- the peer closes before, and leaves the bytes behind them, however the stream was cut.
pub recv_exact-take :
    (size : ℕ) (sock : Socket)
    → IsFlowing sock
    → (sock' : Socket) × (recv_exact size sock ≡ ok (take size (bytes_of sock), sock'))
      × IsFlowing sock'
      × (bytes_of sock' ≡ drop size (bytes_of sock))
unfolding recv_exact
recv_exact-take size sock f =
    let t = recv_loop-Taken size size [] sock (omega arith) f in
    (t.sock', t.returns, t.flowing, t.left)
