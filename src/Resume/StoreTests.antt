-- ===== src/Resume/StoreTests.antt =====
-- The partial files of core/resume.py for a small offer.
use mesh_direct.Prelude.{
  ◌≡◌, refl, String, Bool, true, false, none, some, [], ◌∷◌, All, Dict, lookup, insert, eq_string,
}
use mesh_direct.Prelude.Python.{ok}
use mesh_direct.Inbox.{IncomingFile}
use mesh_direct.Protocol.{TransferOffer}
use mesh_direct.Protocol.Offers.{DistinctIds}
use mesh_direct.Frame.{Bytes}
use mesh_direct.Primitives.Samples.{samples}
use mesh_direct.Resume.{validate_resume_state, resume_state_frame}
use mesh_direct.Resume.RoundTrip.{told}
use mesh_direct.Resume.Store.{
  Stored, files_of, SessionDir, ResumeFileState, read_metadata, is_same_file, open_at,
  prepare_partial, is_final, prepare_final, prepare_known, prepare_file, prepare_files, prepare,
  mark_completed,
}
use mesh_direct.Resume.Prepared.{offset_in, IsIn, prepare-resumes}

abbrev zero_hash : String
zero_hash = samples.hexdigest []

abbrev notes : IncomingFile
notes = record { file_id = "file-0"; name = "notes.txt"; size = 5; sha256 = zero_hash }

abbrev photo : IncomingFile
photo = record { file_id = "file-1"; name = "photo.png"; size = 2; sha256 = zero_hash }

abbrev offer : TransferOffer
offer = record { transfer_id = "0123"; files = notes ∷ photo ∷ []; total_size = 7; message = none }

abbrev stored_notes : Stored
stored_notes = record { name = "notes.txt"; size = 5; sha256 = zero_hash; final_path = none }

abbrev stored_photo : Stored
stored_photo = record { name = "photo.png"; size = 2; sha256 = zero_hash; final_path = none }

-- Three bytes of the notes have arrived, and the whole photo.
abbrev half : SessionDir
half = record {
  metadata = files_of (("file-0", stored_notes) ∷ ("file-1", stored_photo) ∷ []);
  parts = ("file-0", 1 ∷ 2 ∷ 3 ∷ []) ∷ [];
}

abbrev received : Dict String Bytes
received = ("photo.png", 8 ∷ 9 ∷ []) ∷ []

abbrev resolve : String → String
resolve path = path

abbrev is_inside : String → Bool
is_inside path = true

marked : (mark_completed false "file-1" "photo.png" half).0 ≡ record half {
  metadata = files_of (
      ("file-0", stored_notes)
      ∷ ("file-1", record stored_photo { final_path = some "photo.png" })
      ∷ []);
}
unfolding mark_completed read_metadata lookup insert
marked = refl

prepare-half :
    (prepare samples resolve is_inside received false offer
      (mark_completed false "file-1" "photo.png" half).0).1
    ≡ ok (
        ("file-0", open_at notes 3)
        ∷ (
          "file-1",
          record {
            file_id = "file-1";
            offset = 2;
            partial_path = none;
            final_path = some "photo.png";
          },
        )
        ∷ [])
unfolding prepare prepare_files prepare_file prepare_known prepare_final prepare_partial is_final
    is_same_file mark_completed read_metadata lookup insert
prepare-half = refl

distinct : DistinctIds offer.files
distinct = ((refl, tt), (tt, tt))

abbrev stored : Dict String Stored
stored = ("file-0", stored_notes) ∷ ("file-1", stored_photo) ∷ []

half-readable : read_metadata half.metadata ≡ ok stored
unfolding read_metadata
half-readable = refl

prepare-resumes_example :
    (states : Dict String ResumeFileState) × ((prepare samples resolve is_inside received false
        offer half).1
      ≡ ok states)
    × All (IsIn samples resolve is_inside received stored half.parts states) offer.files
    × (validate_resume_state (resume_state_frame (offset_in states) offer) offer
        ≡ ok (told (offset_in states) offer.files))
prepare-resumes_example =
    prepare-resumes samples resolve is_inside received offer half stored distinct half-readable
