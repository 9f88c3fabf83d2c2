-- ===== src/Transfer/RoundTrip.antt =====
-- core/transfer.py: the receiver's loop against the frames of the sender's loop.
use mesh_direct.Prelude.{
  ℕ, zero, suc, ◌+◌, ◌-◌, ◌≡◌, ◌≤◌, ◌<◌, refl, ap, ◌∙◌, String, Bool, true, false, Option, some,
  ◌∷◌, ◌++◌, length, take, drop, arith, Bool-cases, inl, inr, leb, ◌==◌, eq_nat, length-take,
  length-drop,
}
use mesh_direct.Prelude.Python.{Result, ok}
use mesh_direct.Prelude.Int.{pos}
use mesh_direct.Config.{chunk_size, header_max_size}
use mesh_direct.Frame.{Bytes}
use mesh_direct.Json.{Value, Fields, get, str, int, object, field, end}
use mesh_direct.Protocol.Checks.{required}
use mesh_direct.Protocol.Frames.{chunk_frame}
use mesh_direct.Protocol.{validate_chunk_control, is_transfer_id, is_file_id}
use mesh_direct.Protocol.Chunks.{validate_chunk_control_iff}
use mesh_direct.Transfer.{
  JsonModule, Connection, Partial, frame, overhead, next_frame, receive_control_frame,
  receive_data_frame, field_of, check_cancel, receive_chunk, store_chunk, receive_chunks,
  send_chunks, write_at,
}
use mesh_direct.Transfer.Writes.{write_at-take}

-- A control message that a frame may carry.
abbrev pub Fits : JsonModule → Value → Type 0
Fits json value = length (json.dumps value) + overhead ≤ header_max_size + 64

pub control_received :
    (json : JsonModule) (fields : Fields) (conn : Connection)
    → Fits json (object fields)
    → receive_control_frame (frame (json.dumps (object fields)) (some (object fields)) ∷ conn)
      ≡ ok (object fields, conn)
unfolding receive_control_frame required next_frame
control_received json fields conn h = ground arith

data_received :
    (raw : Bytes) (value : Option Value) (conn : Connection)
    → length raw ≤ chunk_size
    → receive_data_frame (frame raw value ∷ conn) ≡ ok (raw, conn)
unfolding receive_data_frame next_frame
data_received raw value conn h = ground arith

module _ (transfer_id file_id : String) where
  unfoldable pub chunk_fields : ℕ → ℕ → ℕ → Fields
  chunk_fields index offset n = field "type" (str "chunk") (
      field "transfer_id" (str transfer_id) (
        field "file_id" (str file_id) (
          field "index" (int (pos index))
            (field "offset" (int (pos offset)) (field "size" (int (pos n)) end)))))

module _ (transfer_id file_id : String) (size : ℕ) where
  pub header_taken :
      (index transferred n : ℕ)
      → is_transfer_id transfer_id ≡ true
      → is_file_id file_id ≡ true
      → 1 ≤ n
      → n ≤ chunk_size
      → n ≤ size - transferred
      → validate_chunk_control
          (chunk_frame transfer_id file_id index transferred n)
          transfer_id
          file_id
          index
          transferred
          (size - transferred)
        ≡ ok n
  unfolding get chunk_fields
  header_taken index transferred n id_ok file_ok some_bytes one_chunk fits =
      (validate_chunk_control_iff (chunk_fields transfer_id file_id index transferred n) transfer_id
          file_id index transferred (size - transferred) n).1
        (
          id_ok,
          file_ok,
          record {
            kind = refl;
            transfer = refl;
            file = refl;
            at_index = refl;
            at_offset = refl;
            of_size = refl;
            some_bytes = some_bytes;
            one_chunk = one_chunk;
            no_overrun = fits;
          },
        )

module _ (json : JsonModule) (transfer_id file_id : String) (size : ℕ) where
  -- The two frames of a chunk are one round of the receiver.
  pub chunk_taken :
      (index transferred : ℕ) (raw : Bytes) (conn : Connection)
      → is_transfer_id transfer_id ≡ true
      → is_file_id file_id ≡ true
      → Fits json (chunk_frame transfer_id file_id index transferred (length raw))
      → 1 ≤ length raw
      → length raw ≤ chunk_size
      → length raw ≤ size - transferred
      → receive_chunk transfer_id file_id size index transferred (
          frame
            (json.dumps (chunk_frame transfer_id file_id index transferred (length raw)))
            (some (chunk_frame transfer_id file_id index transferred (length raw)))
          ∷ frame raw (json.loads raw)
          ∷ conn)
        ≡ ok (raw, conn)
  unfolding receive_chunk check_cancel field_of get chunk_fields
  chunk_taken index transferred raw conn id_ok file_ok header_fits some_bytes one_chunk fits =
      rw
        (
          control_received json (chunk_fields transfer_id file_id index transferred (length raw))
              (frame raw (json.loads raw) ∷ conn) header_fits,
          header_taken transfer_id file_id size index transferred (length raw) id_ok file_ok
              some_bytes one_chunk fits,
          data_received raw (json.loads raw) conn one_chunk,
        )
        (ground arith)

-- The partial file is the first part of the source.
pub record Holds (source : Bytes) (partial : Partial) : Type 0 where
  pub same : partial.content ≡ take partial.transferred source
  pub within : partial.transferred ≤ length source

-- What reading a chunk of a file at a position returns, while the file stays as it is.
abbrev pub read_source : Bytes → ℕ → Bytes
read_source source position = take chunk_size (drop position source)

-- Valid IDs, and headers that a frame may carry, of each chunk that a file of this size may have.
pub record IsSendable (json : JsonModule) (transfer_id file_id : String) (size : ℕ) : Type 0 where
  pub id : is_transfer_id transfer_id ≡ true
  pub file : is_file_id file_id ≡ true
  pub header :
      (index offset n : ℕ)
      → index ≤ offset
      → offset < size
      → n ≤ chunk_size
      → Fits json (chunk_frame transfer_id file_id index offset n)

pub store_chunk-Holds :
    (source : Bytes) (partial : Partial)
    → Holds source partial
    → Holds source (store_chunk (read_source source partial.transferred) partial)
unfolding store_chunk
store_chunk-Holds source partial h = record {
  same =
      ap (write_at partial.transferred (read_source source partial.transferred)) h.same
      ∙ write_at-take partial.transferred chunk_size source h.within;
  within = omega (
    arith,
    h.within,
    length-take chunk_size (drop partial.transferred source),
    length-drop partial.transferred source,
  );
}

-- Below the end of the source, what is read is a chunk that the receiver may take.
pub read_source-bounds :
    (source : Bytes) (position : ℕ)
    → leb (length source) position ≡ false
    → (1 ≤ length (read_source source position))
      × (length (read_source source position) ≤ chunk_size)
      × (length (read_source source position) ≤ length source - position)
read_source-bounds source position h =
    let below : suc position ≤ length source = ground arith in
    let counted = length-take chunk_size (drop position source) in
    let left = length-drop position source in (omega arith, omega arith, omega arith)

module _ (json : JsonModule) (transfer_id file_id : String) (source : Bytes)
    (ids : IsSendable json transfer_id file_id (length source)) where
  pub received_round :
      (index : ℕ) (partial : Partial) (conn : Connection)
      → index ≤ partial.transferred
      → leb (length source) partial.transferred ≡ false
      → (let raw = read_source source partial.transferred in
          receive_chunk transfer_id file_id (length source) index partial.transferred (
            frame
              (json.dumps (chunk_frame transfer_id file_id index partial.transferred (length raw)))
              (some (chunk_frame transfer_id file_id index partial.transferred (length raw)))
            ∷ frame raw (json.loads raw)
            ∷ conn)
          ≡ ok (raw, conn))
  received_round index partial conn early more =
      let raw = read_source source partial.transferred in
      let (some_bytes, one_chunk, fits) = read_source-bounds source partial.transferred more in
      chunk_taken json transfer_id file_id (length source) index partial.transferred raw conn ids.id
        ids.file (ids.header index partial.transferred (length raw) early (ground arith) one_chunk)
        some_bytes one_chunk fits

  -- A run to the end of both loops.
  pub record Delivered (sent : Connection × Result ℕ) (received : Partial × Result Connection)
      (rest : Connection) : Type 0 where
    pub sent_all : sent.1 ≡ ok (length source)
    pub received_all : received.1 ≡ ok rest
    pub whole : received.0.transferred ≡ length source
    pub holds : Holds source received.0

  module _ (cancelled : ℕ → Bool) (never : (n : ℕ) → cancelled n ≡ false) where
    pub chunks-Delivered :
        (fuel index : ℕ) (partial : Partial) (rest : Connection)
        → length source ≤ partial.transferred + fuel
        → index ≤ partial.transferred
        → Holds source partial
        → (let sent =
              send_chunks json transfer_id file_id
                (length source)
                cancelled
                (read_source source)
                fuel
                index
                partial.transferred in
            Delivered sent
              (receive_chunks transfer_id file_id
                (length source)
                fuel
                index
                partial
                (sent.0 ++ rest))
              rest)
    unfolding send_chunks receive_chunks store_chunk
    chunks-Delivered zero index partial rest enough early h = record {
      sent_all = ap ok (omega (arith, h.within));
      received_all = refl;
      whole = omega (arith, h.within);
      holds = h;
    }
    chunks-Delivered (suc fuel) index partial rest enough early h =
        elim (Bool-cases (leb (length source) partial.transferred)) [
          | inl done ↦ rw done (record {
            sent_all = ap ok (ground (arith, h.within));
            received_all = refl;
            whole = ground (arith, h.within);
            holds = h;
          })
          | inr more ↦
              let raw = read_source source partial.transferred in
              let (some_bytes, _, _) = read_source-bounds source partial.transferred more in
              let next =
                chunks-Delivered fuel (suc index) (store_chunk raw partial) rest
                  (omega (arith, some_bytes)) (omega (arith, some_bytes, early))
                  (store_chunk-Holds source partial h) in
              let read_some : (length raw == 0) ≡ false = ground arith in
              rw
                (
                  more,
                  never partial.transferred,
                  read_some,
                  received_round index partial
                      ((send_chunks json transfer_id file_id (length source) cancelled
                          (read_source source) fuel (suc index)
                          (partial.transferred + length raw)).0
                        ++ rest)
                      early more,
                )
                (record {
                  sent_all = next.sent_all;
                  received_all = next.received_all;
                  whole = next.whole;
                  holds = next.holds;
                })
        ]
