-- ===== src/Transfer.antt =====
-- core/transfer.py: the loops that carry the bytes of a file, on the two sides of a session.
mod Writes
mod Receiver
mod RoundTrip
mod Offering
mod Resumption
mod Interruption
mod Batch
mod Approval
mod Tests
use mesh_direct.Prelude.{
  ℕ, zero, suc, ◌+◌, ◌-◌, ◌/◌, Bool, true, false, not, Option, none, some, List, [], ◌∷◌, ◌++◌,
  length, take, drop, leb, ltb, if◌then◌else◌, ◌==◌, eq_nat, String,
}
use mesh_direct.Prelude.Python.{
  Error, Result, ok, raise, ◌>>=◌, ◌>>◌, raise_if, value_error, connection_error, protocol_error,
  transfer_cancelled,
}
use mesh_direct.Config.{chunk_size, header_max_size}
use mesh_direct.Frame.{Bytes}
use mesh_direct.Json.{Value, object, get, is_dict, is_string, as_object, null, to_fields, text}
use mesh_direct.Protocol.Checks.{required}
use mesh_direct.Protocol.Frames.{chunk_frame, file_end_literals}
use mesh_direct.Protocol.{validate_chunk_control}

-- An encrypted frame on its way, or what the socket raises in its place: the decrypted bytes, and
-- what json.loads makes of them, none where it raises.
pub data Arrival : Type 0 where
  frame : Bytes → Option Value → Arrival
  fault : Error → Arrival

-- After the last arrival the peer has closed.
abbrev pub Connection : Type 0
Connection = List Arrival

-- The json module. A text that `dumps` made of a message is loaded as that message.
pub record JsonModule : Type 0 where
  pub dumps : Value → Bytes
  pub loads : Bytes → Option Value

-- The nonce and the tag that encryption adds.
abbrev pub overhead : ℕ
overhead = 28

-- `unpack_frame(sock, max_size)` and `decrypt_chunk`
unfoldable pub next_frame : ℕ → Connection → Result ((Bytes × Option Value) × Connection)
next_frame max_size [] = raise (connection_error "Connection closed while reading frame length")
next_frame max_size (fault e ∷ conn) = raise e
next_frame max_size (frame raw value ∷ conn) =
    if ltb max_size (length raw + overhead)
    then raise (value_error "Frame size exceeds the maximum allowed")
    else ok ((raw, value), conn)

unfoldable pub receive_control_frame : Connection → Result (Value × Connection)
unfolding next_frame required
receive_control_frame conn = do
  ((raw, value), conn) ← next_frame (header_max_size + 64) conn
  payload ← required value "Invalid transfer control frame"
  _ ← required (as_object payload) "Transfer control frame must be an object"
  ok (payload, conn)

unfoldable pub receive_data_frame : Connection → Result (Bytes × Connection)
unfolding next_frame
receive_data_frame conn = do
  ((raw, value), conn) ← next_frame (chunk_size + 64) conn
  ok (raw, conn)

-- `control.get(name)`
unfoldable pub field_of : String → Value → Value
field_of name (object fields) = get name fields
field_of name value = null

abbrev pub cancel_frame : String → Value
cancel_frame transfer_id =
    object (to_fields (("type", text "cancel") ∷ ("transfer_id", text transfer_id) ∷ []))

-- The sender's loop over the chunks of a file. `cancelled` is the cancel event as each round finds
-- it, by the bytes sent so far, and `read_at` what reading a chunk at a position returns. It runs on fuel: every round
-- sends one byte at least, so the bytes still to send are enough. It returns the frames sent, and how it ends.
module _ (json : JsonModule) (transfer_id file_id : String) (size : ℕ) (cancelled : ℕ → Bool)
    (read_at : ℕ → Bytes) where
  abbrev pub control : Value → Arrival
  control value = frame (json.dumps value) (some value)

  abbrev pub payload : Bytes → Arrival
  payload raw = frame raw (json.loads raw)

  unfoldable pub send_chunks : ℕ → ℕ → ℕ → Connection × Result ℕ
  send_chunks zero index transferred = ([], ok transferred)
  send_chunks (suc fuel) index transferred =
      let raw = read_at transferred in
      let (sent, end) = send_chunks fuel (suc index) (transferred + length raw) in
      if leb size transferred
      then ([], ok transferred)
      else if cancelled transferred
      then (
        control (cancel_frame transfer_id) ∷ [],
        raise (transfer_cancelled "Transfer cancelled"),
      )
      else if length raw == 0
      then ([], raise (protocol_error "Source file changed during transfer"))
      else (
        control (chunk_frame transfer_id file_id index transferred (length raw))
            ∷ payload raw
            ∷ sent,
        end,
      )

  -- from `file_handle.seek(offset)` on
  unfoldable pub send_file_data : ℕ → Connection × Result ℕ
  unfolding send_chunks
  send_file_data offset = send_chunks (size - offset) (offset / chunk_size) offset

-- What the receiver has of a file: the bytes of the partial file, and how many of them count.
pub record Partial : Type 0 where
  pub content : Bytes
  pub transferred : ℕ
  pub this_attempt : ℕ

abbrev pub zeros : ℕ → Bytes
zeros zero = []
zeros (suc n) = 0 ∷ zeros n

-- A write at a position of a file: a gap before it reads as zeros.
unfoldable pub write_at : ℕ → Bytes → Bytes → Bytes
write_at position raw content =
    take position (content ++ zeros (position - length content))
    ++ raw
    ++ drop (position + length raw) content

-- `if control.get("type") == "cancel"`
unfoldable pub check_cancel : String → Value → Result (Unit {0})
check_cancel transfer_id control =
    if is_string (field_of "type" control) "cancel"
    then (if is_string (field_of "transfer_id" control) transfer_id
        then raise (transfer_cancelled "Transfer cancelled by peer")
        else raise (protocol_error "Cancel transfer ID mismatch"))
    else ok tt

unfoldable pub store_chunk : Bytes → Partial → Partial
store_chunk plaintext partial = record {
  content = write_at partial.transferred plaintext partial.content;
  transferred = partial.transferred + length plaintext;
  this_attempt = partial.this_attempt + length plaintext;
}

unfoldable pub expect_file_end : String → String → Connection → Result Connection
expect_file_end transfer_id file_id conn = do
  (control, conn) ← receive_control_frame conn
  raise_if (not (is_dict control (file_end_literals transfer_id file_id)))
      (protocol_error "Invalid file finish")
  ok conn

module _ (transfer_id file_id : String) (size : ℕ) where
  -- A round of the receiver's loop, up to the write.
  unfoldable pub receive_chunk : ℕ → ℕ → Connection → Result (Bytes × Connection)
  receive_chunk index transferred conn = do
    (control, conn) ← receive_control_frame conn
    check_cancel transfer_id control
    declared_size ←
        validate_chunk_control control transfer_id file_id index transferred (size - transferred)
    (plaintext, conn) ← receive_data_frame conn
    raise_if (not (length plaintext == declared_size)) (protocol_error "Chunk length mismatch")
    ok (plaintext, conn)

  -- The loop, with the bytes that the file lacks as fuel: what is written stays when it ends in an error.
  unfoldable pub receive_chunks : ℕ → ℕ → Partial → Connection → Partial × Result Connection
  receive_chunks zero index partial conn = (partial, ok conn)
  receive_chunks (suc fuel) index partial conn =
      if leb size partial.transferred
      then (partial, ok conn)
      else elim (receive_chunk index partial.transferred conn) [
        | raise e ↦ (partial, raise e)
        | ok (plaintext, conn) ↦
            receive_chunks fuel (suc index) (store_chunk plaintext partial) conn
      ]

  -- `_receive_v3_file_data`, with the partial file and the byte count that it finds
  unfoldable pub receive_file_data : Partial → Connection → Partial × Result Connection
  unfolding receive_chunks
  receive_file_data partial conn =
      let (received, end) =
        receive_chunks (size - partial.transferred) (partial.transferred / chunk_size) partial
          conn in
      (received, end >>= expect_file_end transfer_id file_id)
