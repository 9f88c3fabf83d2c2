-- ===== src/History.antt =====
-- core/history.py: the SQLite history of transfers and their files. A table is the list of its rows,
-- and a statement is what SQLite documents of it.
pub mod Rows
pub mod Queries
pub mod Tables
mod Keys
mod FileKeys
mod Consistency
mod Runs
mod Complete
mod Abstract
mod Refinement
mod Start
mod Listing
mod Tests
use mesh_direct.Prelude.{
  ℕ, zero, suc, ◌+◌, ◌≤◌, min, max, String, Bool, true, false, not, ◌&&◌, ◌||◌, Option, none, some,
  List, [], ◌∷◌, map, length, take, any, leb, ltb, ◌==◌, eq_nat, eq_string, eq_option,
  if◌then◌else◌, is_some,
}
use mesh_direct.Prelude.Python.{Result, ok, raise, ◌>>=◌, ◌>>◌, raise_if, database_error}
use mesh_direct.Prelude.Sorting.{sorted_desc}
use mesh_direct.History.Rows.{
  TransferRecord, FileRecord, FileRow, interruptible, is_in, coalesce, or_kept, or_kept_some, find,
  has_transfer, put_transfer, put_file, update_where, count_where, keep_where,
}

pub record Database : Type 0 where
  pub user_version : ℕ
  pub transfers : List TransferRecord
  pub files : List FileRow
  pub next_id : ℕ  -- of AUTOINCREMENT

-- `TransferHistoryStore`, with the file that it opens
pub record Store : Type 0 where
  pub available : Bool
  pub db : Database

-- The upsert of a file. A new row needs its transfer: FOREIGN KEY.
unfoldable pub upsert_file : FileRecord → Database → Result Database
upsert_file record' db =
    if not
        (any (λ f. f.transfer_id == record'.transfer_id && f.file_id == record'.file_id) db.files)
      && not (has_transfer record'.transfer_id db.transfers)
    then raise (database_error "FOREIGN KEY constraint failed")
    else ok (record db { files = put_file db.next_id record' db.files; next_id = suc db.next_id })

unfoldable pub upsert_files : List FileRecord → Database → Result Database
upsert_files [] db = ok db
upsert_files (f ∷ files) db = do db ← upsert_file f db; upsert_files files db

-- A call as its caller sees it: `fails` tells that SQLite raises DatabaseError in it, and the `with`
-- block of `_connection` then rolls the transaction back.
unfoldable pub transact : Bool → Store → Result (Database × Bool) → Store × Bool
transact fails store (raise e) = (store, false)
transact fails store (ok (db, result)) =
    if store.available && not fails then (record store { db = db }, result) else (store, false)

unfoldable pub create_transfer : Bool → TransferRecord → List FileRecord → Store → Store × Bool
create_transfer fails row files store = transact fails store (do
  db ← upsert_files files (record store.db { transfers = put_transfer row store.db.transfers })
  ok (db, true))

-- The keyword arguments of `update_transfer` that it allows; others are dropped.
pub record Changes : Type 0 where
  pub peer_hostname : Option (Option String)
  pub status : Option String
  pub bytes_transferred : Option ℕ
  pub completed_at : Option (Option ℕ)
  pub error : Option (Option String)
  pub file_count : Option ℕ
  pub total_size : Option ℕ
  pub resumed : Option Bool
  pub resume_offset : Option ℕ

unfoldable pub has_values : Changes → Bool
has_values c =
    is_some c.peer_hostname
    || is_some c.status
    || is_some c.bytes_transferred
    || is_some c.completed_at
    || is_some c.error
    || is_some c.file_count
    || is_some c.total_size
    || is_some c.resumed
    || is_some c.resume_offset

unfoldable pub assign : Changes → TransferRecord → TransferRecord
assign c row = record row {
  peer_hostname = or_kept c.peer_hostname row.peer_hostname;
  status = or_kept c.status row.status;
  bytes_transferred = or_kept c.bytes_transferred row.bytes_transferred;
  completed_at = or_kept c.completed_at row.completed_at;
  error = or_kept c.error row.error;
  file_count = or_kept c.file_count row.file_count;
  total_size = or_kept c.total_size row.total_size;
  resumed = or_kept c.resumed row.resumed;
  resume_offset = or_kept c.resume_offset row.resume_offset;
}

-- `WHERE transfer_id = ?`, and the extra condition for a status of unfinished work
unfoldable pub is_updated : String → Changes → TransferRecord → Bool
is_updated transfer_id c row =
    row.transfer_id == transfer_id
    && not (or_kept_some is_in c.status interruptible && row.status == "complete")

unfoldable pub set_file_status : String → String → List FileRow → List FileRow
set_file_status transfer_id status files =
    update_where (λ f. f.transfer_id == transfer_id) (λ f. record f { status = status }) files

-- the two statements of `update_transfer`, each where there is something to write
unfoldable pub write_changes : String → Changes → List TransferRecord → List TransferRecord
write_changes transfer_id c rows =
    if has_values c then update_where (is_updated transfer_id c) (assign c) rows else rows

unfoldable pub write_file_status : String → Option String → List FileRow → List FileRow
write_file_status transfer_id none files = files
write_file_status transfer_id (some status) files = set_file_status transfer_id status files

unfoldable pub update_transfer : Bool → String → Option String → Changes → Store → Store × Bool
update_transfer fails transfer_id file_status c store =
    let rowcount =
      if has_values c then count_where (is_updated transfer_id c) store.db.transfers else 0 in
    if not (has_values c) && not (is_some file_status)
    then (store, false)
    else transact fails store (
        ok (
          record store.db {
            transfers = write_changes transfer_id c store.db.transfers;
            files = write_file_status transfer_id file_status store.db.files;
          },
          ltb 0 rowcount || is_some file_status,
        ))

unfoldable pub update_transfer_files_status : Bool → String → String → Store → Store × Bool
unfolding set_file_status
update_transfer_files_status fails transfer_id status store = transact fails store (
    ok (
      record store.db { files = set_file_status transfer_id status store.db.files },
      ltb 0 (count_where (λ f. f.transfer_id == transfer_id) store.db.files),
    ))

unfoldable pub add_file : Bool → FileRecord → Store → Store × Bool
unfolding upsert_file
add_file fails row store = transact fails store (do db ← upsert_file row store.db; ok (db, true))

pub record FileChanges : Type 0 where
  pub final_path : Option (Option String)
  pub bytes_transferred : Option ℕ
  pub status : Option String
  pub sha256 : Option (Option String)

unfoldable pub assign_file : FileChanges → FileRow → FileRow
assign_file c f = record f {
  final_path = or_kept c.final_path f.final_path;
  bytes_transferred = or_kept c.bytes_transferred f.bytes_transferred;
  status = or_kept c.status f.status;
  sha256 = or_kept c.sha256 f.sha256;
}

unfoldable pub update_file : Bool → String → String → FileChanges → Store → Store × Bool
update_file fails transfer_id file_id c store =
    let hits = λ (f : FileRow). f.transfer_id == transfer_id && f.file_id == file_id in
    if not
      (is_some c.final_path || is_some c.bytes_transferred || is_some c.status || is_some c.sha256)
    then (store, false)
    else transact fails store (
        ok (
          record store.db { files = update_where hits (assign_file c) store.db.files },
          ltb 0 (count_where hits store.db.files),
        ))

-- ON DELETE CASCADE takes the files along.
unfoldable pub delete : Bool → String → Store → Store × Bool
delete fails transfer_id store =
    let hits = λ (row : TransferRecord). row.transfer_id == transfer_id in
    transact fails store (
      ok (
        record store.db {
          transfers = keep_where (λ row. not (hits row)) store.db.transfers;
          files = keep_where (λ f. not (f.transfer_id == transfer_id)) store.db.files;
        },
        ltb 0 (count_where hits store.db.transfers),
      ))

unfoldable pub clear : Bool → Store → Store × Bool
clear fails store = transact fails store (
    ok (
      record store.db {
        transfers = [];
        files =
            keep_where (λ f. not (has_transfer f.transfer_id store.db.transfers)) store.db.files;
      },
      true,
    ))
