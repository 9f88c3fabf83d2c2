-- ===== src/History/Consistency.antt =====
-- core/history.py: the keys and references of the tables hold after any calls.
use mesh_direct.Prelude.{
  ℕ, suc, ◌≡◌, ◌<◌, refl, String, Bool, true, not, ◌&&◌, List, [], ◌∷◌, All, ◌==◌, eq_string,
  eq_iff, Bool-cases, inl, inr, arith,
}
use mesh_direct.Prelude.Python.{Result, ok, raise, by_return}
use mesh_direct.History.Rows.{
  TransferRecord, FileRecord, FileRow, merge_file, has_transfer, put_transfer, put_file,
}
use mesh_direct.History.{
  Database, Store, upsert_file, upsert_files, transact, create_transfer, add_file,
}
use mesh_direct.History.Tables.{IsConsistent, has_file}
use mesh_direct.History.Keys.{has_transfer-put_transfer, put_transfer-DistinctTransfers}
use mesh_direct.History.FileKeys.{All-put_file, put_file-DistinctFiles, put_file-IsAscending}

-- The references of files hold where no transfer is lost.
pub referenced_still :
    (old new : List TransferRecord)
    → ((id : String) → has_transfer id old ≡ true → has_transfer id new ≡ true)
    → (files : List FileRow) → All (λ f. has_transfer f.transfer_id old ≡ true) files
    → All (λ f. has_transfer f.transfer_id new ≡ true) files
referenced_still old new more [] h = tt
referenced_still old new more (f ∷ files) h =
    (more f.transfer_id h.0, referenced_still old new more files h.1)

put_transfer-IsConsistent :
    (row : TransferRecord) (db : Database)
    → IsConsistent db
    → IsConsistent (record db { transfers = put_transfer row db.transfers })
put_transfer-IsConsistent row db c = record {
  transfers = put_transfer-DistinctTransfers row db.transfers c.transfers;
  files = c.files;
  referenced =
      referenced_still db.transfers (put_transfer row db.transfers)
        (λ id h. ground (arith, has_transfer-put_transfer id row db.transfers)) db.files
        c.referenced;
  ascending = c.ascending;
  below = c.below;
}

-- A file that is there has its transfer.
has_file-has_transfer :
    (transfer_id file_id : String) (transfers : List TransferRecord) (files : List FileRow)
    → All (λ f. has_transfer f.transfer_id transfers ≡ true) files
    → has_file transfer_id file_id files ≡ true
    → has_transfer transfer_id transfers ≡ true
has_file-has_transfer transfer_id file_id transfers [] h there = cc
has_file-has_transfer transfer_id file_id transfers (f ∷ files) h there =
    elim (Bool-cases (f.transfer_id == transfer_id)) [
      | inl same ↦ rw (← (eq_iff f.transfer_id transfer_id).0 same) h.0
      | inr other ↦ has_file-has_transfer transfer_id file_id transfers files h.1 (ground arith)
    ]

below_suc :
    (n : ℕ) (files : List FileRow) → All (λ f. f.id < n) files → All (λ f. f.id < suc n) files
below_suc n [] h = tt
below_suc n (f ∷ files) h = (omega (arith, h.0), below_suc n files h.1)

upsert_file-IsConsistent :
    (new : FileRecord) (db db' : Database)
    → upsert_file new db ≡ ok db'
    → IsConsistent db
    → IsConsistent db'
unfolding upsert_file merge_file put_file
upsert_file-IsConsistent new db db' h c =
    let e : db' ≡ record db { files = put_file db.next_id new db.files; next_id = suc db.next_id } =
      ground arith in
    let there : has_transfer new.transfer_id db.transfers ≡ true = ground (
      arith,
      has_file-has_transfer new.transfer_id new.file_id db.transfers db.files c.referenced,
    ) in
    rw e (record {
      transfers = c.transfers;
      files = put_file-DistinctFiles db.next_id new db.files c.files;
      referenced =
          All-put_file (λ f. has_transfer f.transfer_id db.transfers ≡ true) db.next_id new db.files
            (λ old r. r) (there, tt) c.referenced;
      ascending = put_file-IsAscending db.next_id new db.files c.below c.ascending;
      below =
          All-put_file (λ f. f.id < suc db.next_id) db.next_id new db.files (λ old r. r)
            (omega arith, tt) (below_suc db.next_id db.files c.below);
    })

upsert_files-IsConsistent :
    (files : List FileRecord) (db db' : Database)
    → upsert_files files db ≡ ok db'
    → IsConsistent db
    → IsConsistent db'
unfolding upsert_files
upsert_files-IsConsistent [] db db' h c = let e : db' ≡ db = ground arith in rw e c
upsert_files-IsConsistent (f ∷ files) db db' h c =
    by_return (upsert_file f db) _ h λ next first rest.
      upsert_files-IsConsistent files next db' rest (upsert_file-IsConsistent f db next first c)

-- A call keeps what its statements keep: a rollback keeps everything.
pub transact-IsConsistent :
    (fails : Bool) (store : Store) (action : Result (Database × Bool))
    → ((db : Database) (b : Bool) → action ≡ ok (db, b) → IsConsistent db)
    → IsConsistent store.db
    → IsConsistent (transact fails store action).0.db
unfolding transact
transact-IsConsistent fails store (raise e) keeps c = c
transact-IsConsistent fails store (ok (db, b)) keeps c =
    elim (Bool-cases (store.available && not fails)) [
      | inl done ↦ rw done (keeps db b refl)
      | inr undone ↦ rw undone c
    ]

pub create_transfer-IsConsistent :
    (fails : Bool) (row : TransferRecord) (files : List FileRecord) (store : Store)
    → IsConsistent store.db
    → IsConsistent (create_transfer fails row files store).0.db
unfolding create_transfer
create_transfer-IsConsistent fails row files store c =
    transact-IsConsistent fails store _
      (λ db b h.
        by_return
          (upsert_files files (record store.db { transfers = put_transfer row store.db.transfers }))
          _ h
          λ next first last.
            let e : db ≡ next = ground arith in
            rw e (
              upsert_files-IsConsistent files _ next first
                (put_transfer-IsConsistent row store.db c)))
      c

pub add_file-IsConsistent :
    (fails : Bool) (new : FileRecord) (store : Store)
    → IsConsistent store.db
    → IsConsistent (add_file fails new store).0.db
unfolding add_file
add_file-IsConsistent fails new store c =
    transact-IsConsistent fails store _
      (λ db b h. by_return (upsert_file new store.db) _ h λ next first last.
        let e : db ≡ next = ground arith in
        rw e (upsert_file-IsConsistent new store.db next first c))
      c
