-- ===== src/Protocol/Tests.antt =====
-- The messages of core/protocol.py on concrete values.
use mesh_direct.Prelude.{◌≡◌, ◌↔◌, refl, String, true, false, some, List, [], ◌∷◌}
use mesh_direct.Prelude.Python.{ok, raise, protocol_error}
use mesh_direct.Inbox.{IncomingFile}
use mesh_direct.Json.{get, Value, Fields, str, object, to_fields, text, number, bool, field, end}
use mesh_direct.Protocol.Text.{ends_in_dot_or_space, prefix}
use mesh_direct.Protocol.PlainNames.{last_part, last_part_plain, plain_names}
use mesh_direct.Protocol.Checks.{checks}
use mesh_direct.Protocol.Frames.{offer_frame, file_items, message_field}
use mesh_direct.Protocol.Names.{IsSafeName, sanitize_filename-IsSafeName}
use mesh_direct.Protocol.Chunks.{IsChunk, validate_chunk_control_iff}
use mesh_direct.Protocol.Responses.{validate_response-build_response}
use mesh_direct.Protocol.Offers.{IsOffer, validate_offer-IsOffer}
use mesh_direct.Protocol.OfferRoundTrip.{validate_offer-offer_frame}
use mesh_direct.Protocol.{
  validate_transfer_id, validate_files, validate_file, validate_filename, is_digest,
  validate_message, reason_field, validate_reason, TransferOffer, sanitize_filename, validate_offer,
  validate_chunk_control, build_response, validate_response, is_transfer_id, is_file_id,
}

sanitize_plain : sanitize_filename plain_names "notes.txt" ≡ ok "notes.txt"
unfolding sanitize_filename last_part ends_in_dot_or_space
sanitize_plain = refl

sanitize_up :
    sanitize_filename plain_names "../notes.txt" ≡ raise (protocol_error "Invalid filename")
unfolding sanitize_filename last_part ends_in_dot_or_space
sanitize_up = refl

abbrev name : String
name = "notes.txt"

sanitize_filename-IsSafeName_example : (name ≡ name) × IsSafeName plain_names name
unfolding sanitize_filename last_part ends_in_dot_or_space
sanitize_filename-IsSafeName_example =
    sanitize_filename-IsSafeName plain_names last_part_plain name name refl

abbrev pub id : String
id = "0123456789abcdef0123456789abcdef"

abbrev digest : String
digest = "0123456789abcdef0123456789abcdef0123456789abcdef0123456789abcdef"

abbrev pub notes : IncomingFile
notes = record { file_id = "file-0"; name = "notes.txt"; size = 5; sha256 = digest }

abbrev pub photo : IncomingFile
photo = record { file_id = "file-1"; name = "photo.png"; size = 70000; sha256 = digest }

abbrev files : List IncomingFile
files = notes ∷ photo ∷ []

-- opens the validators
unfoldable tested : Unit {0}
unfolding validate_offer offer_frame checks last_part get validate_transfer_id is_transfer_id
    file_items validate_files validate_file is_file_id validate_filename sanitize_filename
    ends_in_dot_or_space is_digest validate_message message_field validate_chunk_control
    build_response validate_response reason_field validate_reason prefix
tested = tt

abbrev pub offer : TransferOffer
offer = record { transfer_id = id; files = files; total_size = 70005; message = some "hello" }

read_back : validate_offer plain_names (offer_frame id files (some "hello")) ≡ ok offer
unfolding tested
read_back = refl

validate_offer-IsOffer_example : IsOffer plain_names offer
validate_offer-IsOffer_example =
    validate_offer-IsOffer plain_names (offer_frame id files (some "hello")) offer read_back

offer_read_back : validate_offer plain_names (offer_frame id files (some "hello")) ≡ ok offer
offer_read_back = validate_offer-offer_frame plain_names offer validate_offer-IsOffer_example

abbrev chunk : Fields
chunk = to_fields (
    ("type", text "chunk")
    ∷ ("transfer_id", text id)
    ∷ ("file_id", text "file-1")
    ∷ ("index", number 1)
    ∷ ("offset", number 65536)
    ∷ ("size", number 4464)
    ∷ [])

-- The second and last chunk of the photo is taken.
validate_chunk_control_iff_example :
    (validate_chunk_control (object chunk) id "file-1" 1 65536 4464 ≡ ok 4464) ↔ (
      (is_transfer_id id ≡ true)
      × (is_file_id "file-1" ≡ true)
      × IsChunk chunk id "file-1" 1 65536 4464 4464)
validate_chunk_control_iff_example = validate_chunk_control_iff chunk id "file-1" 1 65536 4464 4464

chunk_taken : validate_chunk_control (object chunk) id "file-1" 1 65536 4464 ≡ ok 4464
unfolding tested
chunk_taken = refl

chunk_late :
    validate_chunk_control (object chunk) id "file-1" 0 0 70000
    ≡ raise (protocol_error "Invalid chunk metadata")
unfolding tested
chunk_late = refl

abbrev response : Value
response = object (
    field "type" (str "transfer_response") (
      field "transfer_id" (str id)
        (field "accepted" (bool false) (field "reason" (str "busy") end))))

validate_response-build_response_example : validate_response response id ≡ ok (false, some "busy")
unfolding tested
validate_response-build_response_example =
    validate_response-build_response id id false (some "busy") response refl refl
