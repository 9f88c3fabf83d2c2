-- ===== src/Resume/Tests.antt =====
-- The resume messages of core/resume.py for a small offer.
use mesh_direct.Prelude.{
  ℕ, ◌≡◌, ◌≤◌, refl, String, none, some, [], ◌∷◌, All, Dict, lookup, arith, if◌then◌else◌, ◌==◌,
  eq_string,
}
use mesh_direct.Prelude.Python.{ok, raise, type_error}
use mesh_direct.Inbox.{IncomingFile}
use mesh_direct.Json.{nil, object, array, field, end, get}
use mesh_direct.Protocol.{TransferOffer}
use mesh_direct.Protocol.Offers.{DistinctIds}
use mesh_direct.Protocol.Frames.{resume_query_frame}
use mesh_direct.Protocol.Checks.{checks}
use mesh_direct.Resume.{
  validate_resume_query, validate_resume_state, resume_state_frame, resume_item, expected_file,
}
use mesh_direct.Resume.Offsets.{validate_resume_state-bounded}
use mesh_direct.Resume.RoundTrip.{
  validate_resume_query-resume_query_frame, validate_resume_state-resume_state_frame,
}

abbrev notes : IncomingFile
notes = record { file_id = "file-0"; name = "notes.txt"; size = 5; sha256 = "00" }

abbrev photo : IncomingFile
photo = record { file_id = "file-1"; name = "photo.png"; size = 70000; sha256 = "11" }

abbrev offer : TransferOffer
offer = record {
  transfer_id = "0123";
  files = notes ∷ photo ∷ [];
  total_size = 70005;
  message = none;
}

offsets : String → ℕ
offsets id = if id == "file-0" then 5 else 65536

abbrev state : Dict String ℕ
state = ("file-0", 5) ∷ ("file-1", 65536) ∷ []

distinct : DistinctIds offer.files
distinct = ((refl, tt), (tt, tt))

query_accepted :
    validate_resume_query (resume_query_frame "0123" (notes ∷ photo ∷ [])) offer ≡ ok tt
query_accepted = validate_resume_query-resume_query_frame offer

validate_resume_state-resume_state_frame_example :
    validate_resume_state (resume_state_frame offsets offer) offer ≡ ok state
unfolding offsets
validate_resume_state-resume_state_frame_example =
    validate_resume_state-resume_state_frame offsets offer distinct (omega arith, (omega arith, tt))

validate_resume_state-bounded_example :
    All (λ f. (n : ℕ) × (lookup f.file_id state ≡ some n) × (n ≤ f.size)) (notes ∷ photo ∷ [])
validate_resume_state-bounded_example =
    validate_resume_state-bounded (resume_state_frame offsets offer) offer state distinct
      validate_resume_state-resume_state_frame_example

-- A file ID that has no hash is not turned into a protocol error.
unhashable :
    resume_item (object (field "file_id" (array nil) end)) (notes ∷ []) []
    ≡ raise (type_error "unhashable type: 'list'")
unfolding resume_item expected_file checks get
unhashable = refl
