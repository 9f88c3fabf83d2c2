-- ===== src/History/Runs.antt =====
-- core/history.py: any sequence of calls on the history.
use mesh_direct.Prelude.{
  ◌≡◌, ◌<◌, refl, String, Bool, true, not, ◌&&◌, ◌||◌, Option, none, some, List, [], ◌∷◌, All, ◌==◌,
  eq_string, is_some, Bool-cases, inl, inr,
}
use mesh_direct.Prelude.Python.{ok}
use mesh_direct.History.Rows.{
  TransferRecord, FileRecord, FileRow, has_transfer, update_where, keep_where,
}
use mesh_direct.History.{
  Database, Store, Changes, FileChanges, transact, create_transfer, has_values, write_changes,
  write_file_status, assign, is_updated, set_file_status, update_transfer,
  update_transfer_files_status, add_file, assign_file, update_file, delete, clear,
}
use mesh_direct.History.Tables.{IsConsistent}
use mesh_direct.History.Keys.{
  has_transfer-update_where, update_where-DistinctTransfers, has_transfer-keep_where,
  keep_where-DistinctTransfers,
}
use mesh_direct.History.FileKeys.{
  All-keep_where, All-update_where, keep_where-DistinctFiles, keep_where-IsAscending,
  update_where-DistinctFiles, update_where-IsAscending,
}
use mesh_direct.History.Consistency.{
  referenced_still, create_transfer-IsConsistent, add_file-IsConsistent,
}

-- A change of files that keeps their keys.
module _ (test : FileRow → Bool) (f : FileRow → FileRow)
    (ids : (row : FileRow) → (f row).id ≡ row.id)
    (of : (row : FileRow) → (f row).transfer_id ≡ row.transfer_id)
    (names : (row : FileRow) → (f row).file_id ≡ row.file_id) where
  update_files-IsConsistent :
      (db : Database)
      → IsConsistent db
      → IsConsistent (record db { files = update_where test f db.files })
  update_files-IsConsistent db c = record {
    transfers = c.transfers;
    files = update_where-DistinctFiles test f ids of names db.files c.files;
    referenced =
        All-update_where (λ g. has_transfer g.transfer_id db.transfers ≡ true) test f
          (λ g h. rw (of g) h) db.files c.referenced;
    ascending = update_where-IsAscending test f ids of names db.files c.ascending;
    below = All-update_where (λ g. g.id < db.next_id) test f (λ g h. rw (ids g) h) db.files c.below;
  }

set_file_status-IsConsistent :
    (transfer_id status : String) (db : Database)
    → IsConsistent db
    → IsConsistent (record db { files = set_file_status transfer_id status db.files })
unfolding set_file_status
set_file_status-IsConsistent transfer_id status db c =
    update_files-IsConsistent _ (λ f. record f { status = status }) (λ f. refl) (λ f. refl)
      (λ f. refl) db c

assign-transfer_id :
    (c : Changes) (row : TransferRecord) → (assign c row).transfer_id ≡ row.transfer_id
unfolding assign
assign-transfer_id c row = refl

write_changes-IsConsistent :
    (transfer_id : String) (c : Changes) (db : Database)
    → IsConsistent db
    → IsConsistent (record db { transfers = write_changes transfer_id c db.transfers })
unfolding write_changes
write_changes-IsConsistent transfer_id c db v = elim (Bool-cases (has_values c)) [
  | inr none' ↦ rw none' v
  | inl some' ↦ rw some' (record {
    transfers =
        update_where-DistinctTransfers (is_updated transfer_id c) (assign c) (assign-transfer_id c)
          db.transfers v.transfers;
    files = v.files;
    referenced =
        referenced_still db.transfers _
          (λ id h.
            rw
              (has_transfer-update_where (is_updated transfer_id c) (assign c)
                (assign-transfer_id c) id db.transfers)
              h)
          db.files v.referenced;
    ascending = v.ascending;
    below = v.below;
  })
]

write_file_status-IsConsistent :
    (transfer_id : String) (status : Option String) (db : Database)
    → IsConsistent db
    → IsConsistent (record db { files = write_file_status transfer_id status db.files })
unfolding write_file_status
write_file_status-IsConsistent transfer_id none db v = v
write_file_status-IsConsistent transfer_id (some status) db v =
    set_file_status-IsConsistent transfer_id status db v

-- A call that does not raise.
transact_ok :
    (fails : Bool) (store : Store) (db : Database) (b : Bool)
    → IsConsistent db
    → IsConsistent store.db
    → IsConsistent (transact fails store (ok (db, b))).0.db
unfolding transact
transact_ok fails store db b new old = elim (Bool-cases (store.available && not fails)) [
  | inl done ↦ rw done new
  | inr undone ↦ rw undone old
]

update_transfer-IsConsistent :
    (fails : Bool) (transfer_id : String) (file_status : Option String) (c : Changes)
    (store : Store)
    → IsConsistent store.db
    → IsConsistent (update_transfer fails transfer_id file_status c store).0.db
unfolding update_transfer
update_transfer-IsConsistent fails transfer_id file_status c store v =
    elim (Bool-cases (not (has_values c) && not (is_some file_status))) [
      | inl nothing ↦ rw nothing v
      | inr something ↦ rw something (
          transact_ok fails store _ _
            (write_file_status-IsConsistent transfer_id file_status _
              (write_changes-IsConsistent transfer_id c store.db v))
            v)
    ]

update_file-IsConsistent :
    (fails : Bool) (transfer_id file_id : String) (c : FileChanges) (store : Store)
    → IsConsistent store.db
    → IsConsistent (update_file fails transfer_id file_id c store).0.db
unfolding update_file assign_file
update_file-IsConsistent fails transfer_id file_id c store v =
    elim (Bool-cases (
      is_some c.final_path
      || is_some c.bytes_transferred
      || is_some c.status
      || is_some c.sha256)) [
        | inl some' ↦ rw some' (
            transact_ok fails store _ _
              (update_files-IsConsistent _ (assign_file c) (λ f. refl) (λ f. refl) (λ f. refl)
                store.db v)
              v)
        | inr none' ↦ rw none' v
      ]

-- A file of a kept transfer keeps its reference.
kept_references :
    (gone : String) (rows : List TransferRecord) (files : List FileRow)
    → All (λ f. has_transfer f.transfer_id rows ≡ true) files
    → All
        (λ f.
          has_transfer f.transfer_id (keep_where (λ row. not (row.transfer_id == gone)) rows)
          ≡ true)
        (keep_where (λ f. not (f.transfer_id == gone)) files)
unfolding keep_where
kept_references gone rows [] h = tt
kept_references gone rows (f ∷ files) h = elim (Bool-cases (f.transfer_id == gone)) [
  | inl same ↦ rw same (kept_references gone rows files h.1)
  | inr other ↦ rw other (
    rw (has_transfer-keep_where gone f.transfer_id rows, h.0, other) refl,
    kept_references gone rows files h.1,
  )
]

delete-IsConsistent :
    (fails : Bool) (transfer_id : String) (store : Store)
    → IsConsistent store.db
    → IsConsistent (delete fails transfer_id store).0.db
unfolding delete
delete-IsConsistent fails transfer_id store v =
    transact_ok fails store _ _
      (record {
        transfers = keep_where-DistinctTransfers transfer_id store.db.transfers v.transfers;
        files = keep_where-DistinctFiles _ store.db.files v.files;
        referenced = kept_references transfer_id store.db.transfers store.db.files v.referenced;
        ascending = keep_where-IsAscending _ store.db.files v.ascending;
        below = All-keep_where _ _ store.db.files v.below;
      })
      v

cleared :
    (rows : List TransferRecord) (files : List FileRow)
    → All (λ f. has_transfer f.transfer_id rows ≡ true) files
    → keep_where (λ f. not (has_transfer f.transfer_id rows)) files ≡ []
unfolding keep_where
cleared rows [] h = refl
cleared rows (f ∷ files) h = rw h.0 (cleared rows files h.1)

clear-IsConsistent :
    (fails : Bool) (store : Store) → IsConsistent store.db → IsConsistent (clear fails store).0.db
unfolding clear
clear-IsConsistent fails store v =
    transact_ok fails store _ _
      (rw (cleared store.db.transfers store.db.files v.referenced)
        (record { transfers = tt; files = tt; referenced = tt; ascending = tt; below = tt }))
      v

-- The calls that write. The first flag of each tells whether SQLite raises in it.
pub data Op : Type 0 where
  create : Bool → TransferRecord → List FileRecord → Op
  update : Bool → String → Option String → Changes → Op
  mark_files : Bool → String → String → Op
  add : Bool → FileRecord → Op
  change_file : Bool → String → String → FileChanges → Op
  remove : Bool → String → Op
  remove_all : Bool → Op

unfoldable pub apply : Op → Store → Store
apply (create fails row files) s = (create_transfer fails row files s).0
apply (update fails id file_status c) s = (update_transfer fails id file_status c s).0
apply (mark_files fails id status) s = (update_transfer_files_status fails id status s).0
apply (add fails file) s = (add_file fails file s).0
apply (change_file fails id file_id c) s = (update_file fails id file_id c s).0
apply (remove fails id) s = (delete fails id s).0
apply (remove_all fails) s = (clear fails s).0

unfoldable pub run : List Op → Store → Store
unfolding apply
run [] s = s
run (op ∷ ops) s = run ops (apply op s)

apply-IsConsistent : (op : Op) (s : Store) → IsConsistent s.db → IsConsistent (apply op s).db
unfolding apply update_transfer_files_status
apply-IsConsistent (create fails row files) s v = create_transfer-IsConsistent fails row files s v
apply-IsConsistent (update fails id file_status c) s v =
    update_transfer-IsConsistent fails id file_status c s v
apply-IsConsistent (mark_files fails id status) s v =
    transact_ok fails s _ _ (set_file_status-IsConsistent id status s.db v) v
apply-IsConsistent (add fails file) s v = add_file-IsConsistent fails file s v
apply-IsConsistent (change_file fails id file_id c) s v =
    update_file-IsConsistent fails id file_id c s v
apply-IsConsistent (remove fails id) s v = delete-IsConsistent fails id s v
apply-IsConsistent (remove_all fails) s v = clear-IsConsistent fails s v

-- From a consistent database, after any calls, with or without failures of SQLite: no two transfers
-- share an ID, no two files of a transfer share a file ID, every file has its transfer, and the
-- files stand in the order of their row IDs, which are below the next one.
pub run-IsConsistent : (ops : List Op) (s : Store) → IsConsistent s.db → IsConsistent (run ops s).db
unfolding run
run-IsConsistent [] s v = v
run-IsConsistent (op ∷ ops) s v = run-IsConsistent ops (apply op s) (apply-IsConsistent op s v)
