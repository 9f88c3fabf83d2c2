-- ===== src/Transfer/Receiver.antt =====
-- core/transfer.py: what `_receive_v3_file_data` does to the partial file, whatever the peer sends.
use mesh_direct.Prelude.{
  ℕ, ◌+◌, ◌-◌, ◌≡◌, ◌≤◌, String, Option, [], ◌∷◌, ◌++◌, length, arith, eq_nat,
}
use mesh_direct.Prelude.Python.{Result, ok, by_return}
use mesh_direct.Frame.{Bytes}
use mesh_direct.Json.{Value}
use mesh_direct.Protocol.{validate_chunk_control}
use mesh_direct.Protocol.Chunks.{validate_chunk_control-le}
use mesh_direct.Transfer.{
  Connection, frame, Partial, receive_control_frame, receive_data_frame, check_cancel,
  receive_chunk, write_at,
}

-- At its front a connection carries chunks, each in a frame behind the frame of its header: their
-- bytes, and what is behind them.
pub data Carries : Connection → Bytes → Connection → Type 0 where
  nothing : (conn : Connection) → Carries conn [] conn
  chunk :
      (header raw added : Bytes) (control value : Option Value) (conn left : Connection)
      → Carries conn added left
      → Carries (frame header control ∷ frame raw value ∷ conn) (raw ++ added) left

module _ (size : ℕ) where
  -- What a file in reception has gained, and where it stands when the loop returns.
  pub record Gained (before after : Partial) (conn : Connection) (end : Result Connection)
      : Type 0 where
    pub added : Bytes
    pub left : Connection
    pub carried : Carries conn added left
    pub written : after.content ≡ write_at before.transferred added before.content
    pub transferred : after.transferred ≡ before.transferred + length added
    pub this_attempt : after.this_attempt ≡ before.this_attempt + length added
    pub within : after.transferred ≤ size
    pub short : length after.content ≤ size
    pub complete : (conn' : Connection) → end ≡ ok conn' → after.transferred ≡ size

module _ (transfer_id file_id : String) (size : ℕ) where
  pub receive_chunk-le :
      (index transferred : ℕ) (conn : Connection) {plaintext : Bytes} {conn' : Connection}
      → receive_chunk transfer_id file_id size index transferred conn ≡ ok (plaintext, conn')
      → (1 ≤ length plaintext) × (length plaintext ≤ size - transferred)
  unfolding receive_chunk
  receive_chunk-le index transferred conn h = by_return (receive_control_frame conn) _ h λ c _ h1.
      by_return (check_cancel transfer_id c.0) _ h1 λ _ _ h2.
        by_return
          (validate_chunk_control c.0 transfer_id file_id index transferred (size - transferred)) _
          h2
          λ n n_ok h3. by_return (receive_data_frame c.1) _ h3 λ d _ h4. ground (
            arith,
            validate_chunk_control-le c.0 transfer_id file_id index transferred (size - transferred)
                n n_ok,
          )
