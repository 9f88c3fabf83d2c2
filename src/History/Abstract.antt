-- ===== src/History/Abstract.antt =====
-- core/history.py: the history as a function from transfer IDs to rows.
use mathlib.Core.Path.{fun_ext}
use mesh_direct.Prelude.{
  suc, ◌≡◌, refl, sym, ap, ◌∙◌, String, Bool, true, false, not, ◌&&◌, Option, none, some, List, [],
  ◌∷◌, All, ◌==◌, eq_string, eq_iff, if◌then◌else◌, is_some, Bool-cases, inl, inr, arith,
}
use mesh_direct.Prelude.Python.{ok}
use mesh_direct.History.Rows.{
  TransferRecord, FileRecord, merge_transfer, interruptible, is_in, or_kept_some, find,
  has_transfer, put_transfer, put_file, update_where, keep_where,
}
use mesh_direct.History.{
  Database, Store, Changes, upsert_file, upsert_files, transact, create_transfer, has_values,
  write_changes, assign, is_updated, update_transfer,
}
use mesh_direct.History.Keys.{has_transfer-put_transfer}
use mesh_direct.History.Runs.{Op, create, update, mark_files, add, change_file, remove, remove_all}

-- What is known of each transfer.
abbrev pub Book : Type 0
Book = String → Option TransferRecord

abbrev pub view : Store → Book
view s = λ id. find id s.db.transfers

-- a new row over what is there
abbrev pub recorded : TransferRecord → Option TransferRecord → TransferRecord
recorded new none = new
recorded new (some old) = merge_transfer old new

-- A status of unfinished work is not written over a complete row.
abbrev pub writes : Changes → TransferRecord → Bool
writes c row =
    has_values c && not (or_kept_some is_in c.status interruptible && row.status == "complete")

abbrev pub changed : Changes → Option TransferRecord → Option TransferRecord
changed c none = none
changed c (some row) = if writes c row then some (assign c row) else some row

-- The calls on a book. The calls on files do not show in it.
unfoldable pub replay_op : Op → Book → Book
replay_op (create fails row files) book =
    λ id. if row.transfer_id == id then some (recorded row (book id)) else book id
replay_op (update fails transfer_id file_status c) book =
    λ id. if transfer_id == id then changed c (book id) else book id
replay_op (remove fails transfer_id) book = λ id. if transfer_id == id then none else book id
replay_op (remove_all fails) book = λ id. none
replay_op _ book = book

abbrev pub fails : Op → Bool
fails (create f row files) = f
fails (update f id status c) = f
fails (mark_files f id status) = f
fails (add f file) = f
fails (change_file f id file_id c) = f
fails (remove f id) = f
fails (remove_all f) = f

unfoldable pub replay : List Op → Book → Book
replay [] book = book
replay (op ∷ ops) book = replay ops (if fails op then book else replay_op op book)

-- The files of a call belong to its transfer.
abbrev pub OwnFiles : Op → Type 0
OwnFiles (create f row files) =
    All (λ (file : FileRecord). file.transfer_id ≡ row.transfer_id) files
OwnFiles _ = Unit

find-put_transfer :
    (id : String) (new : TransferRecord) (rows : List TransferRecord)
    → find id (put_transfer new rows)
      ≡ (if new.transfer_id == id then some (recorded new (find id rows)) else find id rows)
unfolding find put_transfer merge_transfer
find-put_transfer id new [] = ground arith
find-put_transfer id new (row ∷ rows) = elim (Bool-cases (row.transfer_id == new.transfer_id)) [
  | inl same ↦
      let q : (new.transfer_id == id) ≡ (row.transfer_id == id) = ground (
        arith,
        eq_iff row.transfer_id id,
        eq_iff new.transfer_id id,
        eq_iff row.transfer_id new.transfer_id,
      ) in
      rw same (
        rw q (elim (Bool-cases (row.transfer_id == id)) [
          | inl here ↦ rw here refl
          | inr gone ↦ rw gone refl
        ]))
  | inr other ↦ rw other (
      ground (
        arith,
        find-put_transfer id new rows,
        eq_iff row.transfer_id id,
        eq_iff new.transfer_id id,
        eq_iff row.transfer_id new.transfer_id,
      ))
]

find-update_where :
    (id transfer_id : String) (c : Changes) (rows : List TransferRecord)
    → has_values c ≡ true
    → find id (update_where (is_updated transfer_id c) (assign c) rows)
      ≡ (if transfer_id == id then changed c (find id rows) else find id rows)
unfolding find update_where assign is_updated
find-update_where id transfer_id c [] some' = elim (Bool-cases (transfer_id == id)) [
  | inl y ↦ rw y refl
  | inr n ↦ rw n refl
]
find-update_where id transfer_id c (row ∷ rows) some' = elim (Bool-cases (row.transfer_id == id)) [
  | inl here ↦
      let same : (row.transfer_id == transfer_id) ≡ (transfer_id == id) = ground (
        arith,
        eq_iff row.transfer_id id,
        eq_iff row.transfer_id transfer_id,
        eq_iff transfer_id id,
      ) in
      (elim (Bool-cases (transfer_id == id)) [
        | inr other ↦ rw (same, other) (rw here refl)
        | inl this ↦
            (elim (Bool-cases
              (not (or_kept_some is_in c.status interruptible && row.status == "complete"))) [
                | inl go ↦ rw (same, this, go, here, some', go) refl
                | inr stop ↦ rw (same, this, stop, here, some', stop) refl
              ])
      ])
  | inr other ↦ (elim (Bool-cases (is_updated transfer_id c row)) [
    | inl hit ↦ rw (hit, other) (find-update_where id transfer_id c rows some')
    | inr miss ↦ rw (miss, other) (find-update_where id transfer_id c rows some')
  ])
]

unchanged : (c : Changes) (row : Option TransferRecord) → has_values c ≡ false → changed c row ≡ row
unchanged c none h = refl
unchanged c (some row) h = rw h refl

unchanged_at :
    (b : Bool) (c : Changes) (row : Option TransferRecord)
    → has_values c ≡ false
    → (if b then changed c row else row) ≡ row
unchanged_at true c row h = unchanged c row h
unchanged_at false c row h = refl

find-write_changes :
    (id transfer_id : String) (c : Changes) (rows : List TransferRecord)
    → find id (write_changes transfer_id c rows)
      ≡ (if transfer_id == id then changed c (find id rows) else find id rows)
unfolding write_changes
find-write_changes id transfer_id c rows = elim (Bool-cases (has_values c)) [
  | inl some' ↦ rw some' (find-update_where id transfer_id c rows some')
  | inr none' ↦ rw none' (sym (unchanged_at (transfer_id == id) c (find id rows) none'))
]

pub find-keep_where :
    (id gone : String) (rows : List TransferRecord)
    → find id (keep_where (λ row. not (row.transfer_id == gone)) rows)
      ≡ (if gone == id then none else find id rows)
unfolding find keep_where
find-keep_where id gone [] = ground arith
find-keep_where id gone (row ∷ rows) = ground (
  arith,
  find-keep_where id gone rows,
  eq_iff row.transfer_id id,
  eq_iff row.transfer_id gone,
  eq_iff gone id,
)

goes_in :
    (f : FileRecord) (db : Database)
    → has_transfer f.transfer_id db.transfers ≡ true
    → upsert_file f db
      ≡ ok (record db { files = put_file db.next_id f db.files; next_id = suc db.next_id })
unfolding upsert_file
goes_in f db there = ground arith

-- The files of a transfer that is there go in.
own_files :
    (row : TransferRecord) (files : List FileRecord) (db : Database)
    → All (λ (file : FileRecord). file.transfer_id ≡ row.transfer_id) files
    → has_transfer row.transfer_id db.transfers ≡ true
    → (db' : Database) × (upsert_files files db ≡ ok db') × (db'.transfers ≡ db.transfers)
unfolding upsert_files
own_files row [] db own there = (db, refl, refl)
own_files row (f ∷ files) db own there =
    let next : Database = record db {
      files = put_file db.next_id f db.files;
      next_id = suc db.next_id;
    } in
    let (db', done, same) = own_files row files next own.1 there in
    (db', rw (goes_in f db (rw own.0 there)) done, same)

-- The store after a call whose statements succeed.
pub view-transact :
    (fails : Bool) (s : Store) (db : Database) (b : Bool)
    → s.available ≡ true
    → view (transact fails s (ok (db, b))).0
      ≡ (if fails then view s else λ id. find id db.transfers)
unfolding transact
view-transact fails s db b on = elim (Bool-cases fails) [
  | inl bad ↦ rw (on, bad) refl
  | inr good ↦ rw (on, good) refl
]

has_transfer-put_transfer_self :
    (row : TransferRecord) (rows : List TransferRecord)
    → has_transfer row.transfer_id (put_transfer row rows) ≡ true
has_transfer-put_transfer_self row rows =
    rw
      (
        has_transfer-put_transfer row.transfer_id row rows,
        (eq_iff row.transfer_id row.transfer_id).1 refl,
      )
      refl

pub view-create :
    (fails : Bool) (row : TransferRecord) (files : List FileRecord) (s : Store)
    → s.available ≡ true
    → All (λ (file : FileRecord). file.transfer_id ≡ row.transfer_id) files
    → view (create_transfer fails row files s).0
      ≡ (if fails then view s else replay_op (create fails row files) (view s))
unfolding create_transfer replay_op
view-create fails row files s on own =
    let put : Database = record s.db { transfers = put_transfer row s.db.transfers } in
    let (db', done, same) =
      own_files row files put own (has_transfer-put_transfer_self row s.db.transfers) in
    rw done (
      view-transact fails s db' true on
      ∙ ap (λ (t : Book). if fails then view s else t)
          (fun_ext λ id. ap (find id) same ∙ find-put_transfer id row s.db.transfers))

pub view-update :
    (fails : Bool) (id : String) (file_status : Option String) (c : Changes) (s : Store)
    → s.available ≡ true
    → view (update_transfer fails id file_status c s).0
      ≡ (if fails then view s else replay_op (update fails id file_status c) (view s))
unfolding update_transfer replay_op
view-update fails id file_status c s on =
    elim (Bool-cases (not (has_values c) && not (is_some file_status))) [
      | inl nothing ↦
          let none' : has_values c ≡ false = ground arith in
          rw nothing (elim (Bool-cases fails) [
            | inl bad ↦ rw bad refl
            | inr good ↦
                rw good (fun_ext λ k. sym (unchanged_at (id == k) c (find k s.db.transfers) none'))
          ])
      | inr something ↦ rw something (
          view-transact fails s _ _ on
          ∙ ap (λ (t : Book). if fails then view s else t)
              (fun_ext λ k. find-write_changes k id c s.db.transfers))
    ]
