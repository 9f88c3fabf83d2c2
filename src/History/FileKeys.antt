-- ===== src/History/FileKeys.antt =====
-- core/history.py: the keys, the references and the order of the files after a statement.
use mesh_direct.Prelude.{
  ℕ, ◌≡◌, ◌<◌, refl, String, Bool, false, ◌&&◌, ◌||◌, List, [], ◌∷◌, All, ◌==◌, eq_string, eq_iff,
  Bool-cases, inl, inr, arith,
}
use mesh_direct.History.Rows.{FileRecord, FileRow, merge_file, put_file, update_where, keep_where}
use mesh_direct.History.Tables.{DistinctFiles, IsAscending, has_file}

module _ {ℓ κ} {A : Type ℓ} (P : A → Type κ) (test : A → Bool) where
  pub All-keep_where : (rows : List A) → All P rows → All P (keep_where test rows)
  unfolding keep_where
  All-keep_where [] h = tt
  All-keep_where (row ∷ rows) h = elim (Bool-cases (test row)) [
    | inl kept ↦ rw kept (h.0, All-keep_where rows h.1)
    | inr gone ↦ rw gone (All-keep_where rows h.1)
  ]

  pub All-update_where :
      (f : A → A) (keeps : (row : A) → P row → P (f row)) (rows : List A)
      → All P rows
      → All P (update_where test f rows)
  unfolding update_where
  All-update_where f keeps [] h = tt
  All-update_where f keeps (row ∷ rows) h = elim (Bool-cases (test row)) [
    | inl hit ↦ rw hit (keeps row h.0, All-update_where f keeps rows h.1)
    | inr miss ↦ rw miss (h.0, All-update_where f keeps rows h.1)
  ]

has_file-put_file :
    (transfer_id file_id : String) (id : ℕ) (new : FileRecord) (files : List FileRow)
    → has_file transfer_id file_id (put_file id new files) ≡ (
        new.transfer_id == transfer_id && new.file_id == file_id
        || has_file transfer_id file_id files)
unfolding put_file merge_file
has_file-put_file transfer_id file_id id new [] = ground arith
has_file-put_file transfer_id file_id id new (f ∷ files) = ground (
  arith,
  has_file-put_file transfer_id file_id id new files,
  eq_iff f.transfer_id new.transfer_id,
  eq_iff f.file_id new.file_id,
  eq_iff f.transfer_id transfer_id,
  eq_iff f.file_id file_id,
  eq_iff new.transfer_id transfer_id,
  eq_iff new.file_id file_id,
)

pub put_file-DistinctFiles :
    (id : ℕ) (new : FileRecord) (files : List FileRow)
    → DistinctFiles files
    → DistinctFiles (put_file id new files)
unfolding put_file merge_file
put_file-DistinctFiles id new [] d = (refl, tt)
put_file-DistinctFiles id new (f ∷ files) d =
    elim (Bool-cases (f.transfer_id == new.transfer_id && f.file_id == new.file_id)) [
      | inl same ↦ rw same d
      | inr other ↦ rw other (
        ground (
          arith,
          d.0,
          has_file-put_file f.transfer_id f.file_id id new files,
          eq_iff f.transfer_id new.transfer_id,
          eq_iff new.transfer_id f.transfer_id,
          eq_iff f.file_id new.file_id,
          eq_iff new.file_id f.file_id,
        ),
        put_file-DistinctFiles id new files d.1,
      )
    ]

-- What holds of every file, and of a new one, and does not see what a merge changes.
pub All-put_file {κ} :
    (P : FileRow → Type κ) (id : ℕ) (new : FileRecord) (files : List FileRow)
    → ((old : FileRow) → P old → P (merge_file old new))
    → All P (put_file id new [])
    → All P files
    → All P (put_file id new files)
unfolding put_file
All-put_file P id new [] keeps fresh h = fresh
All-put_file P id new (f ∷ files) keeps fresh h =
    elim (Bool-cases (f.transfer_id == new.transfer_id && f.file_id == new.file_id)) [
      | inl same ↦ rw same (keeps f h.0, h.1)
      | inr other ↦ rw other (h.0, All-put_file P id new files keeps fresh h.1)
    ]

pub put_file-IsAscending :
    (id : ℕ) (new : FileRecord) (files : List FileRow)
    → All (λ f. f.id < id) files
    → IsAscending files
    → IsAscending (put_file id new files)
unfolding put_file merge_file
put_file-IsAscending id new [] below a = (tt, tt)
put_file-IsAscending id new (f ∷ files) below a =
    elim (Bool-cases (f.transfer_id == new.transfer_id && f.file_id == new.file_id)) [
      | inl same ↦ rw same a
      | inr other ↦ rw other (
        All-put_file (λ g. f.id < g.id) id new files (λ old h. h) (below.0, tt) a.0,
        put_file-IsAscending id new files below.1 a.1,
      )
    ]

module _ (test : FileRow → Bool) where
  has_file-keep_where :
      (transfer_id file_id : String) (files : List FileRow)
      → has_file transfer_id file_id files ≡ false
      → has_file transfer_id file_id (keep_where test files) ≡ false
  unfolding keep_where
  has_file-keep_where transfer_id file_id [] h = refl
  has_file-keep_where transfer_id file_id (f ∷ files) h =
      ground (arith, has_file-keep_where transfer_id file_id files)

  pub keep_where-DistinctFiles :
      (files : List FileRow) → DistinctFiles files → DistinctFiles (keep_where test files)
  unfolding keep_where
  keep_where-DistinctFiles [] d = tt
  keep_where-DistinctFiles (f ∷ files) d = elim (Bool-cases (test f)) [
    | inl kept ↦
        rw kept (
          has_file-keep_where f.transfer_id f.file_id files d.0,
          keep_where-DistinctFiles files d.1,
        )
    | inr gone ↦ rw gone (keep_where-DistinctFiles files d.1)
  ]

  pub keep_where-IsAscending :
      (files : List FileRow) → IsAscending files → IsAscending (keep_where test files)
  unfolding keep_where
  keep_where-IsAscending [] a = tt
  keep_where-IsAscending (f ∷ files) a = elim (Bool-cases (test f)) [
    | inl kept ↦
        rw kept (All-keep_where (λ g. f.id < g.id) test files a.0, keep_where-IsAscending files a.1)
    | inr gone ↦ rw gone (keep_where-IsAscending files a.1)
  ]

  -- A change of a row that keeps its keys.
  module _ (f : FileRow → FileRow) (ids : (row : FileRow) → (f row).id ≡ row.id)
      (of : (row : FileRow) → (f row).transfer_id ≡ row.transfer_id)
      (names : (row : FileRow) → (f row).file_id ≡ row.file_id) where
    has_file-update_where :
        (transfer_id file_id : String) (files : List FileRow)
        → has_file transfer_id file_id (update_where test f files)
          ≡ has_file transfer_id file_id files
    unfolding update_where
    has_file-update_where transfer_id file_id [] = refl
    has_file-update_where transfer_id file_id (row ∷ files) =
        ground (arith, has_file-update_where transfer_id file_id files, of row, names row)

    pub update_where-DistinctFiles :
        (files : List FileRow) → DistinctFiles files → DistinctFiles (update_where test f files)
    unfolding update_where
    update_where-DistinctFiles [] d = tt
    update_where-DistinctFiles (row ∷ files) d = (
      ground
          (arith, d.0, of row, names row, has_file-update_where row.transfer_id row.file_id files),
      update_where-DistinctFiles files d.1,
    )

    pub update_where-IsAscending :
        (files : List FileRow) → IsAscending files → IsAscending (update_where test f files)
    unfolding update_where
    update_where-IsAscending [] a = tt
    update_where-IsAscending (row ∷ files) a = elim (Bool-cases (test row)) [
      | inl hit ↦ rw hit (
        All-update_where (λ g. (f row).id < g.id) test f (λ g h. omega (arith, ids g)) files
            (rw (ids row) a.0),
        update_where-IsAscending files a.1,
      )
      | inr miss ↦ rw miss (
        All-update_where (λ g. row.id < g.id) test f (λ g h. omega (arith, ids g)) files a.0,
        update_where-IsAscending files a.1,
      )
    ]
