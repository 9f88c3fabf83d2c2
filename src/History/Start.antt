-- ===== src/History/Start.antt =====
-- core/history.py: what `_migrate` makes of the file that it finds.
use mesh_direct.Prelude.{
  ℕ, ◌≡◌, ◌≤◌, ◌<◌, refl, ap, ◌∙◌, String, Bool, true, false, ◌||◌, ◌⊎◌, Option, none, some, List,
  [], ◌∷◌, map, ltb, ◌==◌, eq_nat, eq_string, eq_iff, if◌then◌else◌, Bool-cases, inl, inr, arith,
}
use mesh_direct.Prelude.Python.{ok, raise, database_error}
use mesh_direct.History.Rows.{
  TransferRecord, interruptible, is_in, has_transfer, find, update_where,
}
use mesh_direct.History.Tables.{IsConsistent, DistinctTransfers}
use mesh_direct.History.Keys.{has_transfer-update_where, update_where-DistinctTransfers}
use mesh_direct.History.Consistency.{referenced_still}
use mesh_direct.History.Queries.{
  schema_version, with_defaults, create_tables, add_columns, interrupt_all, migrate,
}
use mesh_direct.History.{Database}

-- What opening the store makes of the row of a transfer: one that was in progress is interrupted, and
-- the columns that a file of version 1 lacks get their defaults.
abbrev is_in_progress : String → Bool
is_in_progress status =
    "pending" == status
    || "pending_approval" == status
    || "accepted" == status
    || "active" == status
    || "resuming" == status

abbrev upgraded : ℕ → TransferRecord → TransferRecord
upgraded version row = record row {
  status = if is_in_progress row.status then "interrupted" else row.status;
  resumed = if version == 1 then false else row.resumed;
  resume_offset = if version == 1 then 0 else row.resume_offset;
}

abbrev upgraded_at : ℕ → Option TransferRecord → Option TransferRecord
upgraded_at version none = none
upgraded_at version (some row) = some (upgraded version row)

has_transfer-map :
    (id : String) (rows : List TransferRecord)
    → has_transfer id (map with_defaults rows) ≡ has_transfer id rows
unfolding has_transfer
has_transfer-map id [] = refl
has_transfer-map id (row ∷ rows) = ground (arith, has_transfer-map id rows)

map-DistinctTransfers :
    (rows : List TransferRecord)
    → DistinctTransfers rows
    → DistinctTransfers (map with_defaults rows)
map-DistinctTransfers [] d = tt
map-DistinctTransfers (row ∷ rows) d =
    (rw (has_transfer-map row.transfer_id rows) d.0, map-DistinctTransfers rows d.1)

with_defaults-IsConsistent :
    (db : Database)
    → IsConsistent db
    → IsConsistent (record db { user_version = 2; transfers = map with_defaults db.transfers })
with_defaults-IsConsistent db c = record {
  transfers = map-DistinctTransfers db.transfers c.transfers;
  files = c.files;
  referenced =
      referenced_still db.transfers _ (λ id h. rw (has_transfer-map id db.transfers) h) db.files
        c.referenced;
  ascending = c.ascending;
  below = c.below;
}

interrupt_all-IsConsistent :
    (db : Database)
    → IsConsistent db
    → IsConsistent (record db { transfers = interrupt_all db.transfers })
unfolding interrupt_all
interrupt_all-IsConsistent db c = record {
  transfers = update_where-DistinctTransfers _ _ (λ row. refl) db.transfers c.transfers;
  files = c.files;
  referenced =
      referenced_still db.transfers _
        (λ id h.
          rw
            (has_transfer-update_where (λ (row : TransferRecord). is_in row.status interruptible)
              (λ row. record row { status = "interrupted" }) (λ row. refl) id db.transfers)
            h)
        db.files c.referenced;
  ascending = c.ascending;
  below = c.below;
}

-- The status "interrupted" is one of those that become "interrupted".
status_after :
    (status : String)
    → (if is_in status interruptible then "interrupted" else status)
      ≡ (if is_in_progress status then "interrupted" else status)
status_after status = ground (arith, eq_iff "interrupted" status)

row_after :
    (row : TransferRecord)
    → (if is_in row.status interruptible then record row { status = "interrupted" } else row)
      ≡ upgraded 2 row
row_after row = elim (Bool-cases (is_in row.status interruptible)) [
  | inl busy ↦ rw busy (ap (λ s. record row { status = s }) (rw busy at (status_after row.status)))
  | inr rest ↦ rw rest (ap (λ s. record row { status = s }) (rw rest at (status_after row.status)))
]

find-interrupt_all :
    (id : String) (rows : List TransferRecord)
    → find id (interrupt_all rows) ≡ upgraded_at 2 (find id rows)
unfolding find interrupt_all update_where
find-interrupt_all id [] = refl
find-interrupt_all id (row ∷ rows) = elim (Bool-cases (row.transfer_id == id)) [
  | inl here ↦ rw (row_after row, here) refl
  | inr other ↦ rw (row_after row, other) (find-interrupt_all id rows)
]

find-with_defaults :
    (id : String) (rows : List TransferRecord)
    → upgraded_at 2 (find id (map with_defaults rows)) ≡ upgraded_at 1 (find id rows)
unfolding find
find-with_defaults id [] = refl
find-with_defaults id (row ∷ rows) = elim (Bool-cases (row.transfer_id == id)) [
  | inl here ↦ rw here refl
  | inr other ↦ rw other (find-with_defaults id rows)
]

-- What is in the file that is opened: nothing in a new one, else the same files and the same
-- transfers, each as `upgraded` makes it.
abbrev pub IsUpgrade : Database → Database → Type 0
IsUpgrade db db' =
    ((db.user_version ≡ 0) × (db'.transfers ≡ []) × (db'.files ≡ []))
    ⊎ ((1 ≤ db.user_version)
        × (db.user_version ≤ 2)
        × (db'.files ≡ db.files)
        × ((id : String)
            → find id db'.transfers ≡ upgraded_at db.user_version (find id db.transfers)))

-- A migration that succeeds.
abbrev pub IsMigrated : Bool → Database → Database → Type 0
IsMigrated has_tables db db' =
    (migrate has_tables db ≡ ok db') × (db'.user_version ≡ 2) × IsConsistent db' × IsUpgrade db db'

new_file : (db : Database) → db.user_version ≡ 0 → (db' : Database) × IsMigrated false db db'
unfolding migrate create_tables add_columns interrupt_all schema_version update_where
new_file db new = (
  record { user_version = 2; transfers = []; files = []; next_id = 1 },
  (
    rw new refl,
    refl,
    record { transfers = tt; files = tt; referenced = tt; ascending = tt; below = tt },
    inl (new, refl, refl),
  ),
)

old_file :
    (has_tables : Bool) (db : Database)
    → IsConsistent db
    → 1 ≤ db.user_version
    → db.user_version ≤ 2
    → (db' : Database) × IsMigrated has_tables db db'
unfolding migrate create_tables add_columns schema_version
old_file has_tables db c low high = elim (Bool-cases (db.user_version == 1)) [
  | inl one ↦
      let first : db.user_version ≡ 1 = ground arith in
      (
        record db { user_version = 2; transfers = interrupt_all (map with_defaults db.transfers) },
        (
          rw first refl,
          refl,
          interrupt_all-IsConsistent
              (record db { user_version = 2; transfers = map with_defaults db.transfers })
              (with_defaults-IsConsistent db c),
          inr (
            low,
            high,
            refl,
            λ id. rw first (
                find-interrupt_all id (map with_defaults db.transfers)
                ∙ find-with_defaults id db.transfers),
          ),
        ),
      )
  | inr two ↦
      let second : db.user_version ≡ 2 = ground arith in
      (
        record db { transfers = interrupt_all db.transfers },
        (
          rw second refl,
          second,
          interrupt_all-IsConsistent db c,
          inr (low, high, refl, λ id. rw second (find-interrupt_all id db.transfers)),
        ),
      )
]

-- Of a file that keeps its keys and references, opening makes a file of version 2 that still keeps
-- them: an empty one of a file without tables, and of a file of version 1 or 2 one with the same files
-- and transfers, where a transfer that was pending, waiting for approval, accepted, active or
-- resuming is interrupted, and only that and the two columns that version 1 lacks change. A file of
-- version 0 that has tables and a file of a later version raise.
pub migrate-IsMigrated :
    (has_tables : Bool) (db : Database)
    → IsConsistent db
    → ((db' : Database) × IsMigrated has_tables db db')
      ⊎ (((2 < db.user_version) ⊎ ((db.user_version ≡ 0) × (has_tables ≡ true)))
          × ((m : String) × (migrate has_tables db ≡ raise (database_error m))))
unfolding migrate create_tables schema_version
migrate-IsMigrated has_tables db c = elim (Bool-cases (ltb 2 db.user_version)) [
  | inl newer ↦ inr (inl (ground arith), ("History schema is newer than this app", rw newer refl))
  | inr fine ↦ elim (Bool-cases (ltb db.user_version 1)) [
    | inr old ↦ inl (old_file has_tables db c (ground arith) (ground arith))
    | inl new ↦
        let zero_is : db.user_version ≡ 0 = ground arith in
        elim (Bool-cases has_tables) [
          | inl made ↦
              inr (inr (zero_is, made), ("table transfers already exists", rw (zero_is, made) refl))
          | inr none_yet ↦ inl (rw none_yet (new_file db zero_is))
        ]
  ]
]
