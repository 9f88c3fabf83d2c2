-- ===== src/Protocol.antt =====
-- core/protocol.py: the validated offer, response and chunk controls of protocol v3.
pub mod Text
pub mod Checks
mod Names
pub mod Frames
pub mod Offers
pub mod OfferRoundTrip
pub mod Chunks
mod Responses
pub mod PlainNames
mod Tests
use mesh_direct.Prelude.{
  ℕ, ◌+◌, ◌*◌, ◌≡◌, ◌↔◌, refl, String, Bool, true, false, not, ◌&&◌, ◌||◌, Option, none, some, List,
  [], ◌∷◌, ◌++◌, length, any, ltb, leb, min, ◌==◌, eq_nat, eq_string, if◌then◌else◌, is_some,
}
use mesh_direct.Prelude.Int.{between, is_nat}
use mesh_direct.Prelude.Python.{
  Result, ok, raise, ◌>>=◌, ◌>>◌, raise_if, protocol_error, unicode_error,
}
use mesh_direct.Config.{
  chunk_size, max_files_per_session, max_file_size, max_session_size, protocol_version,
  max_transfer_message_length,
}
use mesh_direct.Inbox.{IncomingFile}
use mesh_direct.Json.{
  Value, Items, nil, cons, null, bool, Fields, end, field, str, as_object, as_array, as_string,
  as_int, as_bool, get, is_string, is_number, count_items, object,
}
use mesh_direct.Protocol.Checks.{required, same_text, same_int, int_between, text_of}
use mesh_direct.Protocol.Text.{
  count_chars, count_bytes, all_chars, is_hex, is_file_id_char, prefix, ends_in_dot_or_space,
}

-- `TRANSFER_ID_PATTERN.fullmatch(value)` and `FILE_ID_PATTERN.fullmatch(value)`
unfoldable pub is_transfer_id : String → Bool
is_transfer_id s = count_chars s == 32 && all_chars is_hex s

unfoldable pub is_file_id : String → Bool
is_file_id s = leb 1 (count_chars s) && leb (count_chars s) 64 && all_chars is_file_id_char s

-- `len(digest) == 64`, of characters from 0-9 and a-f
unfoldable pub is_digest : String → Bool
is_digest s = count_chars s == 64 && all_chars is_hex s

-- What the program asks of Python's text and path libraries about a file name.
pub record FileNames : Type 0 where
  pub is_encodable : String → Bool  -- `value.encode("utf-8")` returns: no lone surrogate
  pub is_printable : String → Bool  -- `value.isprintable()`
  pub native_name : String → String  -- `Path(value).name`
  pub windows_name : String → String  -- `PureWindowsPath(value).name`
  pub is_reserved : String → Bool  -- `_is_reserved_filename(value)`

pub record TransferOffer : Type 0 where
  pub transfer_id : String
  pub files : List IncomingFile
  pub total_size : ℕ
  pub message : Option String

unfoldable pub validate_transfer_id : Value → Result String
validate_transfer_id value = do
  s ← text_of value "Invalid transfer ID"
  raise_if (not (is_transfer_id s)) (protocol_error "Invalid transfer ID")
  ok s

unfoldable pub validate_message : Value → Result (Option String)
validate_message null = ok none
validate_message (str s) = do
  raise_if (ltb max_transfer_message_length (count_chars s))
      (protocol_error "Invalid transfer message")
  ok (some s)
validate_message _ = raise (protocol_error "Invalid transfer message")

module _ (names : FileNames) where
  open names use {is_encodable, is_printable, native_name, windows_name, is_reserved}

  unfoldable pub sanitize_filename : String → Result String
  sanitize_filename value = do
    raise_if (count_chars value == 0 || ltb 255 (count_chars value))
        (protocol_error "Invalid filename")
    raise_if (not (is_encodable value)) (unicode_error "surrogates not allowed")
    raise_if (ltb 255 (count_bytes value) || not (is_printable value) || ends_in_dot_or_space value)
        (protocol_error "Invalid filename")
    raise_if
        (not (native_name value == value)
          || not (windows_name value == value)
          || is_reserved value
          || value == "."
          || value == "..")
        (protocol_error "Invalid filename")
    ok value

  unfoldable pub validate_filename : Value → Result String
  validate_filename value = do s ← text_of value "Invalid filename"; sanitize_filename s

  -- The body of the loop over `raw_files`: the file, if it may follow those before it.
  unfoldable pub validate_file : Value → List String → ℕ → Result IncomingFile
  validate_file raw_file seen_file_ids computed_total = do
    raw ← required (as_object raw_file) "Invalid file metadata"
    file_id ← text_of (get "file_id" raw) "Invalid file ID"
    raise_if (not (is_file_id file_id) || any (λ seen. seen == file_id) seen_file_ids)
        (protocol_error "Invalid file ID")
    filename ← validate_filename (get "name" raw)
    size ← int_between 0 max_file_size (get "size" raw) "Invalid file size"
    digest ← text_of (get "sha256" raw) "Invalid SHA-256 digest"
    raise_if (not (is_digest digest)) (protocol_error "Invalid SHA-256 digest")
    raise_if (ltb max_session_size (computed_total + size))
        (protocol_error "Transfer session exceeds size limit")
    ok (record { file_id = file_id; name = filename; size = size; sha256 = digest })

  -- The loop: the files, and their total size. `seen` and `total` are what the rounds before left.
  unfoldable pub validate_files : Items → List String → ℕ → Result (List IncomingFile × ℕ)
  validate_files nil seen total = ok ([], total)
  validate_files (cons raw_file items) seen total = do
    file ← validate_file raw_file seen total
    (files, computed_total) ← validate_files items (file.file_id ∷ seen) (total + file.size)
    ok (file ∷ files, computed_total)

  unfoldable pub validate_offer : Value → Result TransferOffer
  validate_offer value = do
    payload ← required (as_object value) "Expected transfer offer"
    same_text (get "type" payload) "transfer_offer" "Expected transfer offer"
    raise_if (not (is_number (get "version" payload) protocol_version))
        (protocol_error "Protocol version mismatch")
    transfer_id ← validate_transfer_id (get "transfer_id" payload)
    raw_files ← required (as_array (get "files" payload)) "Invalid file count"
    count ← int_between 1 max_files_per_session (get "count" payload) "Invalid file count"
    raise_if (not (count == count_items raw_files)) (protocol_error "Invalid file count")
    (files, computed_total) ← validate_files raw_files [] 0
    same_int (get "total_size" payload) computed_total "Invalid total transfer size"
    message ← validate_message (get "message" payload)
    ok (record {
      transfer_id = transfer_id;
      files = files;
      total_size = computed_total;
      message = message;
    })

-- The other fields of a chunk control are checked against what the receiver expects next.
unfoldable pub validate_chunk_control : Value → String → String → ℕ → ℕ → ℕ → Result ℕ
validate_chunk_control value transfer_id file_id expected_index expected_offset remaining = do
  payload ← required (as_object value) "Invalid chunk metadata"
  same_text (get "type" payload) "chunk" "Invalid chunk metadata"
  _ ← validate_transfer_id (str transfer_id)
  raise_if (not (is_file_id file_id)) (protocol_error "Invalid file ID")
  same_text (get "transfer_id" payload) transfer_id "Invalid chunk metadata"
  same_text (get "file_id" payload) file_id "Invalid chunk metadata"
  same_int (get "index" payload) expected_index "Invalid chunk metadata"
  same_int (get "offset" payload) expected_offset "Invalid chunk metadata"
  int_between 1 (min chunk_size remaining) (get "size" payload) "Invalid chunk metadata"

-- `if reason: payload["reason"] = reason[:512]`
unfoldable pub reason_field : Option String → Fields
reason_field none = end
reason_field (some r) = if count_chars r == 0 then end else field "reason" (str (prefix 512 r)) end

unfoldable pub build_response : String → Bool → Option String → Result Value
build_response transfer_id accepted reason = do
  transfer_id ← validate_transfer_id (str transfer_id)
  ok (
      object (
        field "type" (str "transfer_response") (
          field "transfer_id" (str transfer_id)
            (field "accepted" (bool accepted) (reason_field reason)))))

unfoldable pub validate_reason : Value → Result (Option String)
validate_reason null = ok none
validate_reason (str s) = do
  raise_if (ltb 512 (count_chars s)) (protocol_error "Invalid transfer response reason")
  ok (some s)
validate_reason _ = raise (protocol_error "Invalid transfer response reason")

unfoldable pub validate_response : Value → String → Result (Bool × Option String)
validate_response value transfer_id = do
  payload ← required (as_object value) "Invalid transfer response"
  same_text (get "type" payload) "transfer_response" "Invalid transfer response"
  transfer_id ← validate_transfer_id (str transfer_id)
  same_text (get "transfer_id" payload) transfer_id "Transfer response ID mismatch"
  accepted ← required (as_bool (get "accepted" payload)) "Invalid transfer response"
  reason ← validate_reason (get "reason" payload)
  ok (accepted, reason)
