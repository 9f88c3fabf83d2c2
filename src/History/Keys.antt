-- ===== src/History/Keys.antt =====
-- core/history.py: which keys the tables have after a statement.
use mesh_direct.Prelude.{
  ◌≡◌, refl, String, Bool, not, ◌&&◌, ◌||◌, List, [], ◌∷◌, ◌==◌, eq_string, eq_iff, Bool-cases, inl,
  inr, arith,
}
use mesh_direct.History.Rows.{
  TransferRecord, merge_transfer, has_transfer, put_transfer, update_where, keep_where,
}
use mesh_direct.History.Tables.{DistinctTransfers}

pub has_transfer-put_transfer :
    (id : String) (new : TransferRecord) (rows : List TransferRecord)
    → has_transfer id (put_transfer new rows) ≡ (new.transfer_id == id || has_transfer id rows)
unfolding has_transfer put_transfer merge_transfer
has_transfer-put_transfer id new [] = ground arith
has_transfer-put_transfer id new (row ∷ rows) = ground (
  arith,
  has_transfer-put_transfer id new rows,
  eq_iff row.transfer_id new.transfer_id,
  eq_iff row.transfer_id id,
  eq_iff new.transfer_id id,
)

pub put_transfer-DistinctTransfers :
    (new : TransferRecord) (rows : List TransferRecord)
    → DistinctTransfers rows
    → DistinctTransfers (put_transfer new rows)
unfolding put_transfer has_transfer merge_transfer
put_transfer-DistinctTransfers new [] d = (refl, tt)
put_transfer-DistinctTransfers new (row ∷ rows) d =
    elim (Bool-cases (row.transfer_id == new.transfer_id)) [
      | inl same ↦ rw same d
      | inr other ↦ rw other (
        ground (
          arith,
          d.0,
          has_transfer-put_transfer row.transfer_id new rows,
          eq_iff row.transfer_id new.transfer_id,
          eq_iff new.transfer_id row.transfer_id,
        ),
        put_transfer-DistinctTransfers new rows d.1,
      )
    ]

-- A change of a row that keeps its keys.
module _ (test : TransferRecord → Bool) (f : TransferRecord → TransferRecord)
    (keeps : (row : TransferRecord) → (f row).transfer_id ≡ row.transfer_id) where
  pub has_transfer-update_where :
      (id : String) (rows : List TransferRecord)
      → has_transfer id (update_where test f rows) ≡ has_transfer id rows
  unfolding has_transfer update_where
  has_transfer-update_where id [] = refl
  has_transfer-update_where id (row ∷ rows) =
      ground (arith, has_transfer-update_where id rows, keeps row)

  pub update_where-DistinctTransfers :
      (rows : List TransferRecord)
      → DistinctTransfers rows
      → DistinctTransfers (update_where test f rows)
  unfolding update_where
  update_where-DistinctTransfers [] d = tt
  update_where-DistinctTransfers (row ∷ rows) d = (
    ground (arith, d.0, keeps row, has_transfer-update_where row.transfer_id rows),
    update_where-DistinctTransfers rows d.1,
  )

pub has_transfer-keep_where :
    (gone id : String) (rows : List TransferRecord)
    → has_transfer id (keep_where (λ row. not (row.transfer_id == gone)) rows)
      ≡ (has_transfer id rows && not (id == gone))
unfolding has_transfer keep_where
has_transfer-keep_where gone id [] = refl
has_transfer-keep_where gone id (row ∷ rows) = ground (
  arith,
  has_transfer-keep_where gone id rows,
  eq_iff row.transfer_id gone,
  eq_iff row.transfer_id id,
  eq_iff id gone,
)

pub keep_where-DistinctTransfers :
    (gone : String) (rows : List TransferRecord)
    → DistinctTransfers rows
    → DistinctTransfers (keep_where (λ row. not (row.transfer_id == gone)) rows)
unfolding keep_where
keep_where-DistinctTransfers gone [] d = tt
keep_where-DistinctTransfers gone (row ∷ rows) d = elim (Bool-cases (row.transfer_id == gone)) [
  | inl same ↦ rw same (keep_where-DistinctTransfers gone rows d.1)
  | inr other ↦ rw other (
    ground (arith, d.0, has_transfer-keep_where gone row.transfer_id rows),
    keep_where-DistinctTransfers gone rows d.1,
  )
]
