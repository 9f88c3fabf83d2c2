-- ===== src/Resume.antt =====
-- core/resume.py: what the two sides agree on before the chunks, where each file is resumed.
mod Offsets
pub mod Store
mod States
mod Prepared
pub mod RoundTrip
mod Tests
mod StoreTests
use mesh_direct.Prelude.{
  ℕ, ◌+◌, String, Bool, true, false, not, ◌&&◌, ◌||◌, Option, none, some, List, [], ◌∷◌, length,
  all, Dict, lookup, insert, is_some, ◌==◌, eq_nat, eq_string, if◌then◌else◌,
}
use mesh_direct.Prelude.Int.{pos}
use mesh_direct.Prelude.Python.{
  Result, ok, raise, ◌>>=◌, ◌>>◌, raise_if, protocol_error, type_error,
}
use mesh_direct.Inbox.{IncomingFile}
use mesh_direct.Json.{
  Value, Items, nil, cons, str, array, object, as_object, as_array, get, count_items, is_dict,
  field, end, int, text, number, to_fields,
}
use mesh_direct.Protocol.Checks.{required, same_text, int_between}
use mesh_direct.Protocol.Frames.{file_literals}
use mesh_direct.Protocol.{TransferOffer}

-- `files == expected`, for the dicts that describe the files of the offer
unfoldable pub same_files : Items → List IncomingFile → Bool
same_files nil [] = true
same_files (cons item items) (f ∷ files) = is_dict item (file_literals f) && same_files items files
same_files _ _ = false

unfoldable pub is_file_list : Value → List IncomingFile → Bool
is_file_list (array items) files = same_files items files
is_file_list _ files = false

unfoldable pub validate_resume_query : Value → TransferOffer → Result (Unit {0})
validate_resume_query value offer = do
  payload ← required (as_object value) "Expected resume query"
  same_text (get "type" payload) "resume_query" "Expected resume query"
  same_text (get "transfer_id" payload) offer.transfer_id "Resume transfer ID mismatch"
  raise_if (not (is_file_list (get "files" payload) offer.files))
      (protocol_error "Resume metadata mismatch")
  ok tt

-- `expected[file_id].size`, in a dict that a later file with the same ID would replace
unfoldable pub expected_size : String → List IncomingFile → Option ℕ
expected_size file_id [] = none
expected_size file_id (f ∷ files) = elim (expected_size file_id files) [
  | some size ↦ some size
  | none ↦ if f.file_id == file_id then some f.size else none
]

-- `item.get("file_id") not in expected`: a list or a dict has no hash.
unfoldable pub expected_file : Value → List IncomingFile → Result (String × ℕ)
expected_file (str file_id) files = do
  size ← required (expected_size file_id files) "Invalid resume file ID"
  ok (file_id, size)
expected_file (array items) files = raise (type_error "unhashable type: 'list'")
expected_file (object fields) files = raise (type_error "unhashable type: 'dict'")
expected_file _ files = raise (protocol_error "Invalid resume file ID")

-- The body of the loop over `raw_files`.
unfoldable pub resume_item : Value → List IncomingFile → Dict String ℕ → Result (Dict String ℕ)
resume_item raw files offsets = do
  item ← required (as_object raw) "Invalid resume file ID"
  (file_id, size) ← expected_file (get "file_id" item) files
  raise_if (is_some (lookup file_id offsets)) (protocol_error "Invalid resume offset")
  offset ← int_between 0 size (get "offset" item) "Invalid resume offset"
  ok (insert file_id offset offsets)

unfoldable pub resume_items : Items → List IncomingFile → Dict String ℕ → Result (Dict String ℕ)
resume_items nil files offsets = ok offsets
resume_items (cons raw items) files offsets = do
  offsets ← resume_item raw files offsets
  resume_items items files offsets

-- `offsets.keys() == expected.keys()`
unfoldable pub same_keys : Dict String ℕ → List IncomingFile → Bool
same_keys offsets files =
    all (λ f. is_some (lookup f.file_id offsets)) files
    && all (λ entry. is_some (expected_size entry.0 files)) offsets

unfoldable pub validate_resume_state : Value → TransferOffer → Result (Dict String ℕ)
validate_resume_state value offer = do
  payload ← required (as_object value) "Expected resume state"
  same_text (get "type" payload) "resume_state" "Expected resume state"
  same_text (get "transfer_id" payload) offer.transfer_id "Resume transfer ID mismatch"
  raw_files ← required (as_array (get "files" payload)) "Invalid resume state"
  raise_if (not (count_items raw_files == length offer.files))
      (protocol_error "Invalid resume state")
  offsets ← resume_items raw_files offer.files []
  raise_if (not (same_keys offsets offer.files)) (protocol_error "Incomplete resume state")
  ok offsets

-- What `_receive_v3_session` answers, from the offset of each file.
unfoldable pub state_items : (String → ℕ) → List IncomingFile → Items
state_items offset_of [] = nil
state_items offset_of (f ∷ files) =
    cons
      (object
        (to_fields (("file_id", text f.file_id) ∷ ("offset", number (offset_of f.file_id)) ∷ [])))
      (state_items offset_of files)

unfoldable pub resume_state_frame : (String → ℕ) → TransferOffer → Value
resume_state_frame offset_of offer = object (
    field "type" (str "resume_state") (
      field "transfer_id" (str offer.transfer_id)
        (field "files" (array (state_items offset_of offer.files)) end)))
