-- ===== src/Protocol/Chunks.antt =====
-- core/protocol.py: which chunk headers `validate_chunk_control` lets through.
use mesh_direct.Prelude.{
  ℕ, ◌≡◌, ◌≤◌, ◌↔◌, String, true, not, min, arith, eq_string, eq_nat, if◌then◌else◌,
}
use mesh_direct.Prelude.Int.{pos}
use mesh_direct.Prelude.Python.{ok, raise, raise_if, protocol_error, >>=-eq-ok, >>-eq-ok}
use mesh_direct.Config.{chunk_size}
use mesh_direct.Json.{Value, Fields, get, str, int, object}
use mesh_direct.Protocol.Checks.{
  required, checks, same_text, same_int, same_text_iff, same_int_iff, int_between_iff,
}
use mesh_direct.Protocol.{is_transfer_id, is_file_id, validate_chunk_control, validate_transfer_id}

-- A header for the chunk that the receiver expects next, of `size` bytes.
pub record IsChunk (payload : Fields) (transfer_id file_id : String)
    (index offset remaining size : ℕ) : Type 0 where
  pub kind : get "type" payload ≡ str "chunk"
  pub transfer : get "transfer_id" payload ≡ str transfer_id
  pub file : get "file_id" payload ≡ str file_id
  pub at_index : get "index" payload ≡ int (pos index)
  pub at_offset : get "offset" payload ≡ int (pos offset)
  pub of_size : get "size" payload ≡ int (pos size)
  pub some_bytes : 1 ≤ size
  pub one_chunk : size ≤ chunk_size
  pub no_overrun : size ≤ remaining

abbrev m : String
m = "Invalid chunk metadata"

validate_transfer_id_str :
    (s : String)
    → validate_transfer_id (str s)
      ≡ (if is_transfer_id s then ok s else raise (protocol_error "Invalid transfer ID"))
unfolding validate_transfer_id checks
validate_transfer_id_str s = ground arith

module _ (payload : Fields) (transfer_id file_id : String) (index offset remaining size : ℕ) where
  sound :
      validate_chunk_control (object payload) transfer_id file_id index offset remaining ≡ ok size
      → (is_transfer_id transfer_id ≡ true)
        × (is_file_id file_id ≡ true)
        × IsChunk payload transfer_id file_id index offset remaining size
  unfolding validate_chunk_control required
  sound h =
      let (kind, h1) = >>-eq-ok (same_text (get "type" payload) "chunk" m) h in
      let (id, id_is, h2) = >>=-eq-ok (validate_transfer_id (str transfer_id)) _ h1 in
      let (file_ok, h3) =
        >>-eq-ok (raise_if (not (is_file_id file_id)) (protocol_error "Invalid file ID")) h2 in
      let (transfer, h4) = >>-eq-ok (same_text (get "transfer_id" payload) transfer_id m) h3 in
      let (file, h5) = >>-eq-ok (same_text (get "file_id" payload) file_id m) h4 in
      let (at_index, h6) = >>-eq-ok (same_int (get "index" payload) index m) h5 in
      let (at_offset, h7) = >>-eq-ok (same_int (get "offset" payload) offset m) h6 in
      let (of_size, some_bytes, fits) =
        (int_between_iff 1 (min chunk_size remaining) (get "size" payload) m size).0 h7 in
      (
        ground (arith, validate_transfer_id_str transfer_id),
        ground arith,
        record {
          kind = (same_text_iff (get "type" payload) "chunk" m).0 kind;
          transfer = (same_text_iff (get "transfer_id" payload) transfer_id m).0 transfer;
          file = (same_text_iff (get "file_id" payload) file_id m).0 file;
          at_index = (same_int_iff (get "index" payload) index m).0 at_index;
          at_offset = (same_int_iff (get "offset" payload) offset m).0 at_offset;
          of_size = of_size;
          some_bytes = some_bytes;
          one_chunk = omega arith;
          no_overrun = omega arith;
        },
      )

  complete :
      (is_transfer_id transfer_id ≡ true)
        × (is_file_id file_id ≡ true)
        × IsChunk payload transfer_id file_id index offset remaining size
      → validate_chunk_control (object payload) transfer_id file_id index offset remaining ≡ ok size
  unfolding validate_chunk_control required
  complete (id_ok, file_ok, c) =
      rw
        (
          (same_text_iff (get "type" payload) "chunk" m).1 c.kind,
          validate_transfer_id_str transfer_id,
          id_ok,
          file_ok,
          (same_text_iff (get "transfer_id" payload) transfer_id m).1 c.transfer,
          (same_text_iff (get "file_id" payload) file_id m).1 c.file,
          (same_int_iff (get "index" payload) index m).1 c.at_index,
          (same_int_iff (get "offset" payload) offset m).1 c.at_offset,
        )
        ((int_between_iff 1 (min chunk_size remaining) (get "size" payload) m size).1
          (c.of_size, c.some_bytes, omega (arith, c.one_chunk, c.no_overrun)))

-- The receiver of a file takes a chunk header, and with it a size, exactly if it is the header of
-- the next chunk, of at least one byte and no more than a chunk or than what the file still lacks,
-- under a transfer ID and a file ID of the right form.
pub validate_chunk_control_iff :
    (payload : Fields) (transfer_id file_id : String) (index offset remaining size : ℕ)
    → (validate_chunk_control (object payload) transfer_id file_id index offset remaining ≡ ok size)
      ↔ ((is_transfer_id transfer_id ≡ true)
          × (is_file_id file_id ≡ true)
          × IsChunk payload transfer_id file_id index offset remaining size)
validate_chunk_control_iff payload transfer_id file_id index offset remaining size = (
  sound payload transfer_id file_id index offset remaining size,
  complete payload transfer_id file_id index offset remaining size,
)

-- A size that is taken fits into the file, whatever value came in.
pub validate_chunk_control-le :
    (value : Value) (transfer_id file_id : String) (index offset remaining size : ℕ)
    → validate_chunk_control value transfer_id file_id index offset remaining ≡ ok size
    → (1 ≤ size) × (size ≤ remaining)
unfolding validate_chunk_control required
validate_chunk_control-le (object payload) transfer_id file_id index offset remaining size h =
    let (_, _, c) = sound payload transfer_id file_id index offset remaining size h in
    (c.some_bytes, c.no_overrun)
validate_chunk_control-le value transfer_id file_id index offset remaining size h =
    absurd (ground arith)
