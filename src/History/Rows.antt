-- ===== src/History/Rows.antt =====
-- core/history.py: the rows of the two tables, and what its SQL expressions do to them.
use mesh_direct.Prelude.{
  ℕ, max, String, Bool, false, ◌&&◌, ◌||◌, Option, none, some, List, [], ◌∷◌, any, ◌+◌, ◌==◌,
  eq_string, if◌then◌else◌,
}

pub record TransferRecord : Type 0 where
  pub transfer_id : String
  pub peer_device_id : Option String
  pub peer_ip : String
  pub peer_hostname : Option String
  pub direction : String
  pub status : String
  pub message : Option String
  pub file_count : ℕ
  pub total_size : ℕ
  pub bytes_transferred : ℕ
  pub started_at : ℕ
  pub completed_at : Option ℕ
  pub error : Option String
  pub resumed : Bool
  pub resume_offset : ℕ

-- what a caller stores of a file; the table gives the ID
pub record FileRecord : Type 0 where
  pub transfer_id : String
  pub file_id : String
  pub filename : String
  pub final_path : Option String
  pub filesize : ℕ
  pub sha256 : Option String
  pub bytes_transferred : ℕ
  pub status : String

pub record FileRow : Type 0 where
  pub id : ℕ
  pub transfer_id : String
  pub file_id : String
  pub filename : String
  pub final_path : Option String
  pub filesize : ℕ
  pub sha256 : Option String
  pub bytes_transferred : ℕ
  pub status : String

-- `_INTERRUPTIBLE`
abbrev pub interruptible : List String
interruptible =
    "pending" ∷ "pending_approval" ∷ "accepted" ∷ "active" ∷ "interrupted" ∷ "resuming" ∷ []

-- the statuses that an upsert does not put over a complete row
abbrev pub unfinished : List String
unfinished = "interrupted" ∷ "resuming" ∷ "active" ∷ "pending" ∷ "pending_approval" ∷ []

abbrev pub is_in : String → List String → Bool
is_in s ts = any (λ t. t == s) ts

-- `COALESCE(a, b)`
abbrev pub coalesce {ℓ} : {A : Type ℓ} → Option A → Option A → Option A
coalesce none b = b
coalesce (some a) b = some a

-- a value that is given, or the one that is there
abbrev pub or_kept {ℓ} : {A : Type ℓ} → Option A → A → A
or_kept none b = b
or_kept (some a) b = a

-- a test of a value that is given
abbrev pub or_kept_some : (String → List String → Bool) → Option String → List String → Bool
or_kept_some test none ts = false
or_kept_some test (some s) ts = test s ts

-- `ON CONFLICT(transfer_id) DO UPDATE SET ...`: the new row over the old
unfoldable pub merge_transfer : TransferRecord → TransferRecord → TransferRecord
merge_transfer old new =
    let stays = old.status == "complete" && is_in new.status unfinished in
    record {
      transfer_id = old.transfer_id;
      peer_device_id = new.peer_device_id;
      peer_ip = new.peer_ip;
      peer_hostname = coalesce new.peer_hostname old.peer_hostname;
      direction = new.direction;
      status = if stays then old.status else new.status;
      message = coalesce new.message old.message;
      file_count = max new.file_count old.file_count;
      total_size = max new.total_size old.total_size;
      bytes_transferred =
          if old.status == "complete"
          then max old.bytes_transferred new.bytes_transferred
          else new.bytes_transferred;
      started_at = old.started_at;
      completed_at = coalesce old.completed_at new.completed_at;
      error = if stays then old.error else new.error;
      resumed = old.resumed || new.resumed;
      resume_offset = max old.resume_offset new.resume_offset;
    }

unfoldable pub merge_file : FileRow → FileRecord → FileRow
merge_file old new =
    let stays = old.status == "complete" && is_in new.status unfinished in
    record old {
      final_path = coalesce new.final_path old.final_path;
      sha256 = coalesce new.sha256 old.sha256;
      bytes_transferred =
          if old.status == "complete"
          then max old.bytes_transferred new.bytes_transferred
          else new.bytes_transferred;
      status = if stays then old.status else new.status;
    }

unfoldable pub find : String → List TransferRecord → Option TransferRecord
find transfer_id [] = none
find transfer_id (row ∷ rows) =
    if row.transfer_id == transfer_id then some row else find transfer_id rows

unfoldable pub has_transfer : String → List TransferRecord → Bool
has_transfer transfer_id rows = any (λ row. row.transfer_id == transfer_id) rows

-- `INSERT INTO transfers ... ON CONFLICT`
unfoldable pub put_transfer : TransferRecord → List TransferRecord → List TransferRecord
put_transfer new [] = new ∷ []
put_transfer new (row ∷ rows) =
    if row.transfer_id == new.transfer_id
    then merge_transfer row new ∷ rows
    else row ∷ put_transfer new rows

-- `INSERT INTO transfer_files ... ON CONFLICT`, with the ID that a new row gets
unfoldable pub put_file : ℕ → FileRecord → List FileRow → List FileRow
put_file id new [] =
    record {
      id = id;
      transfer_id = new.transfer_id;
      file_id = new.file_id;
      filename = new.filename;
      final_path = new.final_path;
      filesize = new.filesize;
      sha256 = new.sha256;
      bytes_transferred = new.bytes_transferred;
      status = new.status;
    }
    ∷ []
put_file id new (row ∷ rows) =
    if row.transfer_id == new.transfer_id && row.file_id == new.file_id
    then merge_file row new ∷ rows
    else row ∷ put_file id new rows

module _ {ℓ} {A : Type ℓ} (test : A → Bool) where
  unfoldable pub update_where : (A → A) → List A → List A
  update_where f [] = []
  update_where f (row ∷ rows) = (if test row then f row else row) ∷ update_where f rows

  unfoldable pub count_where : List A → ℕ
  count_where [] = 0
  count_where (row ∷ rows) = (if test row then 1 else 0) + count_where rows

  unfoldable pub keep_where : List A → List A
  keep_where [] = []
  keep_where (row ∷ rows) = let rest = keep_where rows in if test row then row ∷ rest else rest
