-- ===== src/Resume/Store.antt =====
-- core/resume.py: PartialTransferStore, on the directory of one transfer. The files that were
-- received are a dict from their paths to their bytes.
use mesh_direct.Prelude.{
  ℕ, String, Bool, true, false, ◌&&◌, Option, none, some, List, [], ◌∷◌, length, ltb, ◌==◌, eq_nat,
  eq_string, if◌then◌else◌, Dict, lookup, insert, without,
}
use mesh_direct.Prelude.Python.{Result, ok, raise, protocol_error, os_error}
use mesh_direct.Inbox.{IncomingFile}
use mesh_direct.Protocol.{TransferOffer}
use mesh_direct.Frame.{Bytes}
use mesh_direct.Primitives.{Primitives}

-- What metadata.json holds of a file. An entry of another form matches no file.
pub record Stored : Type 0 where
  pub name : String
  pub size : ℕ
  pub sha256 : String
  pub final_path : Option String

-- metadata.json: not there, no JSON object with "files", or its files
pub data Metadata : Type 0 where
  missing invalid : Metadata
  files_of : Dict String Stored → Metadata

-- The directory of a transfer: `parts` has the bytes of each `.part` file, by its file ID.
pub record SessionDir : Type 0 where
  pub metadata : Metadata
  pub parts : Dict String Bytes

-- `partial_path` is the file ID that names the `.part` file.
pub record ResumeFileState : Type 0 where
  pub file_id : String
  pub offset : ℕ
  pub partial_path : Option String
  pub final_path : Option String

unfoldable pub read_metadata : Metadata → Result (Dict String Stored)
read_metadata missing = ok []
read_metadata invalid = raise (protocol_error "Invalid resume metadata")
read_metadata (files_of files) = ok files

-- `stored` describes the offered file.
unfoldable pub is_same_file : IncomingFile → Stored → Bool
is_same_file offered stored =
    stored.name == offered.name && stored.size == offered.size && stored.sha256 == offered.sha256

-- `partial.unlink(missing_ok=True)`
abbrev pub unlink : String → SessionDir → SessionDir
unlink file_id dir = record dir { parts = without file_id dir.parts }

abbrev pub stored_as : IncomingFile → Option String → Stored
stored_as offered final_path = record {
  name = offered.name;
  size = offered.size;
  sha256 = offered.sha256;
  final_path = final_path;
}

-- what `prepare` finds of a file that goes on from an offset
abbrev pub open_at : IncomingFile → ℕ → ResumeFileState
open_at offered offset = record {
  file_id = offered.file_id;
  offset = offset;
  partial_path = some offered.file_id;
  final_path = none;
}

-- The branch for a file without a final path: a partial file above the size is dropped.
unfoldable pub prepare_partial :
    IncomingFile → Option Bytes → SessionDir → ResumeFileState × SessionDir
prepare_partial offered none dir = (open_at offered 0, dir)
prepare_partial offered (some content) dir =
    if ltb offered.size (length content)
    then (open_at offered 0, unlink offered.file_id dir)
    else (open_at offered (length content), dir)

-- `resolve path` is the text of `Path(path).resolve()`, and `is_inside path` tells that a resolved path
-- is below the receive directory.
module _ (c : Primitives) (resolve : String → String) (is_inside : String → Bool)
    (received : Dict String Bytes) where
  -- The file was received whole, and is still what it was.
  unfoldable pub is_final : IncomingFile → String → Option Bytes → Bool
  is_final offered path none = false
  is_final offered path (some content) =
      is_inside path && length content == offered.size && c.hexdigest content == offered.sha256

  unfoldable pub prepare_final : IncomingFile → String → SessionDir → ResumeFileState × SessionDir
  unfolding is_final
  prepare_final offered path dir =
      let candidate = resolve path in
      if is_final offered candidate (lookup candidate received)
      then (
        record {
          file_id = offered.file_id;
          offset = offered.size;
          partial_path = none;
          final_path = some candidate;
        },
        dir,
      )
      else (open_at offered 0, dir)

  -- by the final path that the metadata has
  unfoldable pub prepare_known :
      IncomingFile → Option String → SessionDir → ResumeFileState × SessionDir
  unfolding prepare_final prepare_partial
  prepare_known offered (some path) dir = prepare_final offered path dir
  prepare_known offered none dir = prepare_partial offered (lookup offered.file_id dir.parts) dir

  -- the body of the loop of `prepare`
  unfoldable pub prepare_file :
      IncomingFile → Option Stored → SessionDir → ResumeFileState × SessionDir
  unfolding prepare_known
  prepare_file offered none dir = (open_at offered 0, unlink offered.file_id dir)
  prepare_file offered (some stored) dir =
      if is_same_file offered stored
      then prepare_known offered stored.final_path dir
      else (open_at offered 0, unlink offered.file_id dir)

-- what the loop of `prepare` has come to
pub record Prepared : Type 0 where
  pub result : Dict String ResumeFileState
  pub updated_files : Dict String Stored
  pub dir : SessionDir

abbrev pub add_prepared : IncomingFile → ResumeFileState × SessionDir → Prepared → Prepared
add_prepared offered (state, dir) prepared = record {
  result = insert offered.file_id state prepared.result;
  updated_files =
      insert offered.file_id (stored_as offered state.final_path) prepared.updated_files;
  dir = dir;
}

module _ (c : Primitives) (resolve : String → String) (is_inside : String → Bool)
    (received : Dict String Bytes) where
  unfoldable pub prepare_files : List IncomingFile → Dict String Stored → Prepared → Prepared
  unfolding prepare_file
  prepare_files [] stored_files prepared = prepared
  prepare_files (offered ∷ files) stored_files prepared = prepare_files files stored_files (
      add_prepared offered
        (prepare_file c resolve is_inside received offered (lookup offered.file_id stored_files)
          prepared.dir)
        prepared)

  -- `fails` tells that metadata.json cannot be written.
  abbrev pub write_prepared : Bool → Prepared → SessionDir × Result (Dict String ResumeFileState)
  write_prepared true prepared = (prepared.dir, raise (os_error "metadata.json cannot be written"))
  write_prepared false prepared =
      (record prepared.dir { metadata = files_of prepared.updated_files }, ok prepared.result)

  abbrev pub prepare_from :
      Bool
      → TransferOffer
      → SessionDir
      → Result (Dict String Stored)
      → SessionDir × Result (Dict String ResumeFileState)
  prepare_from fails offer dir (raise e) = (dir, raise e)
  prepare_from fails offer dir (ok stored_files) = write_prepared fails (
      prepare_files offer.files stored_files
        (record { result = []; updated_files = []; dir = dir }))

  unfoldable pub prepare :
      Bool → TransferOffer → SessionDir → SessionDir × Result (Dict String ResumeFileState)
  unfolding prepare_files read_metadata
  prepare fails offer dir = prepare_from fails offer dir (read_metadata dir.metadata)

abbrev pub complete_record :
    Bool
    → String
    → String
    → Dict String Stored
    → Option Stored
    → SessionDir
    → SessionDir × Result (Unit {0})
complete_record fails file_id final_path files none dir =
    (dir, raise (protocol_error "Missing resume metadata"))
complete_record true file_id final_path files (some stored) dir =
    (dir, raise (os_error "metadata.json cannot be written"))
complete_record false file_id final_path files (some stored) dir = (
  record dir {
    metadata = files_of (insert file_id (record stored { final_path = some final_path }) files);
  },
  ok tt,
)

abbrev pub mark_in :
    Bool
    → String
    → String
    → SessionDir
    → Result (Dict String Stored)
    → SessionDir × Result (Unit {0})
mark_in fails file_id final_path dir (raise e) = (dir, raise e)
mark_in fails file_id final_path dir (ok files) =
    complete_record fails file_id final_path files (lookup file_id files) dir

unfoldable pub mark_completed : Bool → String → String → SessionDir → SessionDir × Result (Unit {0})
unfolding read_metadata
mark_completed fails file_id final_path dir =
    mark_in fails file_id final_path dir (read_metadata dir.metadata)

-- The directory is removed.
unfoldable pub complete_session : SessionDir → SessionDir
complete_session dir = record { metadata = missing; parts = [] }
