-- ===== src/Frame/Stream.antt =====
-- A connected TCP socket as its reader sees it.
use mesh_direct.Prelude.{ℕ, ◌<◌, List, [], ◌∷◌, ◌++◌, length, take, drop, leb, if◌then◌else◌}
use mesh_direct.Prelude.Python.{Error, Result, ok, raise}

-- What the next `recv` meets: bytes that arrived together, or an exception such as a timeout.
-- After the last arrival the peer has closed.
pub data Arrival : Type 0 where
  segment : List ℕ → Arrival
  fault : Error → Arrival

abbrev pub Socket : Type 0
Socket = List Arrival

-- `sock.recv(n)`: at most `n` of the bytes at hand, none at the end of the stream.
unfoldable pub recv : ℕ → Socket → Result (List ℕ × Socket)
recv n [] = ok ([], [])
recv n (fault e ∷ sock) = raise e
recv n (segment b ∷ sock) =
    if leb (length b) n then ok (b, sock) else ok (take n b, segment (drop n b) ∷ sock)

-- all bytes of the stream, where it has no fault
abbrev pub bytes_of : Socket → List ℕ
bytes_of [] = []
bytes_of (segment b ∷ sock) = b ++ bytes_of sock
bytes_of (fault e ∷ sock) = bytes_of sock

-- No fault, and no arrival without bytes: nothing but the cuts is up to the network.
abbrev pub IsFlowing : Socket → Type 0
IsFlowing [] = Unit
IsFlowing (segment b ∷ sock) = (0 < length b) × IsFlowing sock
IsFlowing (fault e ∷ sock) = ⊥
