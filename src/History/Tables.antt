-- ===== src/History/Tables.antt =====
-- core/history.py: what the schema asks of the two tables.
use mesh_direct.Prelude.{
  ◌≡◌, ◌<◌, String, Bool, true, false, ◌&&◌, List, [], ◌∷◌, All, any, ◌==◌, eq_string,
}
use mesh_direct.History.Rows.{TransferRecord, FileRow, has_transfer}
use mesh_direct.History.{Database}

-- No other row has the primary key.
abbrev pub DistinctTransfers : List TransferRecord → Type 0
DistinctTransfers [] = Unit
DistinctTransfers (row ∷ rows) =
    (has_transfer row.transfer_id rows ≡ false) × DistinctTransfers rows

abbrev pub has_file : String → String → List FileRow → Bool
has_file transfer_id file_id files =
    any (λ f. f.transfer_id == transfer_id && f.file_id == file_id) files

abbrev pub DistinctFiles : List FileRow → Type 0
DistinctFiles [] = Unit
DistinctFiles (f ∷ files) = (has_file f.transfer_id f.file_id files ≡ false) × DistinctFiles files

-- In the order of their IDs, in which they were inserted.
abbrev pub IsAscending : List FileRow → Type 0
IsAscending [] = Unit
IsAscending (f ∷ files) = All (λ g. f.id < g.id) files × IsAscending files

-- `PRIMARY KEY`, `UNIQUE`, `FOREIGN KEY` and `AUTOINCREMENT` of the schema.
pub record IsConsistent (db : Database) : Type 0 where
  pub transfers : DistinctTransfers db.transfers
  pub files : DistinctFiles db.files
  pub referenced : All (λ f. has_transfer f.transfer_id db.transfers ≡ true) db.files
  pub ascending : IsAscending db.files
  pub below : All (λ f. f.id < db.next_id) db.files
