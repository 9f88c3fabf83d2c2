-- ===== src/History/Refinement.antt =====
-- core/history.py: the store does on its tables what the calls do to a function from IDs to rows.
use mathlib.Core.Path.{fun_ext}
use mesh_direct.Prelude.{
  ◌≡◌, refl, sym, ap, ◌∙◌, String, Bool, true, false, not, ◌&&◌, ◌||◌, List, [], ◌∷◌, All,
  eq_string, if◌then◌else◌, is_some, Bool-cases, inl, inr, arith,
}
use mesh_direct.Prelude.Python.{Result, ok, raise, Result-cases}
use mesh_direct.History.Rows.{FileRecord, find}
use mesh_direct.History.{
  Database, Store, FileChanges, upsert_file, transact, create_transfer, update_transfer,
  update_transfer_files_status, add_file, update_file, delete, clear,
}
use mesh_direct.History.Runs.{
  Op, create, update, mark_files, add, change_file, remove, remove_all, apply, run,
}
use mesh_direct.History.Abstract.{
  Book, view, replay_op, fails, replay, OwnFiles, view-transact, view-create, view-update,
  find-keep_where,
}

-- A call that leaves the table of transfers alone.
same_view :
    (b : Bool) (s : Store) (db : Database) (r : Bool)
    → s.available ≡ true
    → db.transfers ≡ s.db.transfers
    → view (transact b s (ok (db, r))).0 ≡ (if b then view s else view s)
same_view b s db r on e =
    view-transact b s db r on ∙ ap (λ t. if b then view s else λ id. find id t) e

either : (b : Bool) (book : Book) → (if b then book else book) ≡ book
either true book = refl
either false book = refl

upsert-transfers :
    (f : FileRecord) (db db' : Database) → upsert_file f db ≡ ok db' → db'.transfers ≡ db.transfers
unfolding upsert_file
upsert-transfers f db db' h = ground arith

view-add :
    (b : Bool) (file : FileRecord) (s : Store)
    → s.available ≡ true
    → view (add_file b file s).0 ≡ (if b then view s else view s)
unfolding add_file transact
view-add b file s on = elim (Result-cases (upsert_file file s.db)) [
  | inr (e, raised) ↦ rw raised (sym (either b (view s)))
  | inl (db, done) ↦ rw (done) (same_view b s db true on (upsert-transfers file s.db db done))
]

transact-available :
    (b : Bool) (s : Store) (a : Result (Database × Bool))
    → (transact b s a).0.available ≡ s.available
unfolding transact
transact-available b s (raise e) = refl
transact-available b s (ok (db, r)) = elim (Bool-cases (s.available && not b)) [
  | inl done ↦ rw done refl
  | inr undone ↦ rw undone refl
]

-- A call that has nothing to write leaves the store as it is.
guarded :
    (test b : Bool) (s : Store) (a : Result (Database × Bool))
    → (if test then (s, false) else transact b s a).0.available ≡ s.available
guarded true b s a = refl
guarded false b s a = transact-available b s a

unguarded :
    (test b : Bool) (s : Store) (a : Result (Database × Bool))
    → (if test then transact b s a else (s, false)).0.available ≡ s.available
unguarded true b s a = transact-available b s a
unguarded false b s a = refl

apply-available : (op : Op) (s : Store) → (apply op s).available ≡ s.available
unfolding apply create_transfer update_transfer update_transfer_files_status add_file update_file
    delete clear
apply-available (create b row files) s = transact-available b s _
apply-available (update b id file_status c) s = guarded _ b s _
apply-available (mark_files b id status) s = transact-available b s _
apply-available (add b file) s = transact-available b s _
apply-available (change_file b id file_id c) s = guarded _ b s _
apply-available (remove b id) s = transact-available b s _
apply-available (remove_all b) s = transact-available b s _

view-change_file :
    (b : Bool) (id file_id : String) (c : FileChanges) (s : Store)
    → s.available ≡ true
    → view (update_file b id file_id c s).0 ≡ (if b then view s else view s)
unfolding update_file
view-change_file b id file_id c s on =
    elim (Bool-cases (
      not (
        is_some c.final_path
        || is_some c.bytes_transferred
        || is_some c.status
        || is_some c.sha256))) [
          | inl nothing ↦ rw nothing (sym (either b (view s)))
          | inr something ↦ rw something (same_view b s _ _ on refl)
        ]

view-apply :
    (op : Op) (s : Store)
    → s.available ≡ true
    → OwnFiles op
    → view (apply op s) ≡ (if fails op then view s else replay_op op (view s))
unfolding apply replay_op find
view-apply (create b row files) s on own = view-create b row files s on own
view-apply (update b id file_status c) s on own = view-update b id file_status c s on
view-apply (mark_files b id status) s on own =
    unfold update_transfer_files_status in same_view b s _ _ on refl
view-apply (add b file) s on own = view-add b file s on
view-apply (change_file b id file_id c) s on own = view-change_file b id file_id c s on
view-apply (remove b id) s on own =
    unfold delete in
    (view-transact b s _ _ on
      ∙ ap (λ (t : Book). if b then view s else t)
          (fun_ext λ k. find-keep_where k id s.db.transfers))
view-apply (remove_all b) s on own = unfold clear in (view-transact b s _ _ on)

-- The store refines the book: on an available store, any calls whose files belong to their transfers,
-- some of which fail in SQLite, leave a store that reads, transfer by transfer, as the book reads
-- after the calls that did not fail.
pub run-refines-replay :
    (ops : List Op) (s : Store)
    → s.available ≡ true
    → All OwnFiles ops
    → view (run ops s) ≡ replay ops (view s)
unfolding run replay
run-refines-replay [] s on own = refl
run-refines-replay (op ∷ ops) s on own =
    run-refines-replay ops (apply op s) (apply-available op s ∙ on) own.1
    ∙ ap (replay ops) (view-apply op s on own.0)
