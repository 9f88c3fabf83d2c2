-- ===== src/History/Tests.antt =====
-- The history of core/history.py on concrete tables.
use mesh_direct.Prelude.{
  ℕ, ◌≡◌, ◌<◌, min, max, refl, String, Bool, true, false, ◌⊎◌, none, some, List, [], ◌∷◌, All, ◌==◌,
  eq_string, arith,
}
use mesh_direct.Prelude.Python.{ok, raise, database_error}
use mesh_direct.Prelude.Sorting.{IsDescending, sorted_desc}
use mesh_direct.History.Rows.{
  TransferRecord, FileRecord, FileRow, merge_transfer, put_transfer, put_file, has_transfer, find,
  update_where, count_where, keep_where,
}
use mesh_direct.History.Queries.{
  migrate, create_tables, add_columns, interrupt_all, schema_version, get_transfer, list_transfers,
  query_transfers, is_listed, filtered,
}
use mesh_direct.History.Tables.{IsConsistent}
use mesh_direct.History.{
  Database, Store, Changes, create_transfer, upsert_files, upsert_file, transact, update_transfer,
  write_changes, write_file_status, is_updated, assign, has_values, delete,
}
use mesh_direct.History.Runs.{Op, create, update, add, remove, run, run-IsConsistent}
use mesh_direct.History.Abstract.{view, replay}
use mesh_direct.History.Refinement.{run-refines-replay}
use mesh_direct.History.Complete.{is_complete, complete_stands}
use mesh_direct.History.Start.{IsMigrated, migrate-IsMigrated}
use mesh_direct.History.Listing.{get_transfer-view, passes, count_from, list_transfers-latest}

abbrev row : String → String → ℕ → TransferRecord
row id status started = record {
  transfer_id = id;
  peer_device_id = none;
  peer_ip = "10.0.0.2";
  peer_hostname = none;
  direction = "send";
  status = status;
  message = none;
  file_count = 1;
  total_size = 7;
  bytes_transferred = 7;
  started_at = started;
  completed_at = none;
  error = none;
  resumed = false;
  resume_offset = 0;
}

abbrev file : String → String → FileRecord
file id file_id = record {
  transfer_id = id;
  file_id = file_id;
  filename = "notes.txt";
  final_path = none;
  filesize = 7;
  sha256 = none;
  bytes_transferred = 7;
  status = "complete";
}

abbrev stored : ℕ → String → String → FileRow
stored id transfer_id file_id = record {
  id = id;
  transfer_id = transfer_id;
  file_id = file_id;
  filename = "notes.txt";
  final_path = none;
  filesize = 7;
  sha256 = none;
  bytes_transferred = 7;
  status = "complete";
}

abbrev one : Database
one = record {
  user_version = 2;
  transfers = row "a" "complete" 5 ∷ [];
  files = stored 1 "a" "f" ∷ [];
  next_id = 2;
}

abbrev two : Database
two = record {
  user_version = 2;
  transfers = row "a" "complete" 5 ∷ row "b" "active" 9 ∷ [];
  files = stored 1 "a" "f" ∷ stored 2 "b" "f" ∷ [];
  next_id = 3;
}

abbrev opened : Database → Store
opened db = record { available = true; db = db }

-- `update_transfer(..., status=...)`
abbrev status : String → Changes
status s = record {
  peer_hostname = none;
  status = some s;
  bytes_transferred = none;
  completed_at = none;
  error = none;
  file_count = none;
  total_size = none;
  resumed = none;
  resume_offset = none;
}

one-IsConsistent : IsConsistent one
unfolding has_transfer
one-IsConsistent = record {
  transfers = (refl, tt);
  files = (refl, tt);
  referenced = (refl, tt);
  ascending = (tt, tt);
  below = (omega arith, tt);
}

create_b :
    create_transfer false (row "b" "active" 9) (file "b" "f" ∷ []) (opened one) ≡ (opened two, true)
unfolding create_transfer upsert_files upsert_file transact put_transfer put_file has_transfer
create_b = refl

orphan :
    create_transfer false (row "b" "active" 9) (file "c" "f" ∷ []) (opened one)
    ≡ (opened one, false)
unfolding create_transfer upsert_files upsert_file transact put_transfer put_file has_transfer
orphan = refl

delete_b : delete false "b" (opened two) ≡ (opened (record one { next_id = 3 }), true)
unfolding delete transact keep_where count_where
delete_b = refl

-- update_transfer leaves the complete row, create_transfer with "accepted" does not.
update_a : (update_transfer false "a" none (status "accepted") (opened one)) ≡ (opened one, false)
unfolding update_transfer has_values transact write_changes write_file_status is_updated assign
    update_where count_where
update_a = refl

recreate_a :
    (create_transfer false (row "a" "accepted" 5) [] (opened one)).0.db.transfers
    ≡ row "a" "accepted" 5 ∷ []
unfolding create_transfer upsert_files transact put_transfer merge_transfer
recreate_a = refl

abbrev calls : List Op
calls =
    create false (row "b" "active" 9) (file "b" "f" ∷ [])
    ∷ update false "a" none (status "accepted")
    ∷ add true (file "b" "g")
    ∷ remove false "b"
    ∷ []

run-IsConsistent_example : IsConsistent (run calls (opened one)).db
run-IsConsistent_example = run-IsConsistent calls (opened one) one-IsConsistent

run-refines-replay_example : view (run calls (opened one)) ≡ replay calls (view (opened one))
run-refines-replay_example =
    run-refines-replay calls (opened one) refl ((refl, tt), (tt, (tt, (tt, tt))))

a-is_complete : is_complete (view (opened one) "a") ≡ true
unfolding find
a-is_complete = refl

complete_stands_example : is_complete (view (run calls (opened one)) "a") ≡ true
complete_stands_example =
    complete_stands "a" calls (opened one) refl ((refl, tt), (tt, (tt, (tt, tt)))) refl
      a-is_complete

migrate-IsMigrated_example :
    ((db' : Database) × IsMigrated true one db')
    ⊎ (((2 < 2) ⊎ ((two.user_version ≡ 0) × (true ≡ true)))
        × ((m : String) × (migrate true one ≡ raise (database_error m))))
migrate-IsMigrated_example = migrate-IsMigrated true one one-IsConsistent

migrate-two :
    migrate true two
    ≡ ok (record two { transfers = row "a" "complete" 5 ∷ row "b" "interrupted" 9 ∷ [] })
unfolding migrate create_tables add_columns interrupt_all schema_version update_where
migrate-two = refl

migrate_again :
    migrate true (record two { user_version = 0 })
    ≡ raise (database_error "table transfers already exists")
unfolding migrate create_tables schema_version
migrate_again = refl

get_transfer-view_example : get_transfer false "a" (opened one) ≡ view (opened one) "a"
get_transfer-view_example = get_transfer-view "a" (opened one) refl one-IsConsistent

abbrev same : String → String → Bool
same pattern s = s == pattern

list_two :
    list_transfers same false none none none 7 (opened two)
    ≡ row "b" "active" 9 ∷ row "a" "complete" 5 ∷ []
unfolding list_transfers query_transfers is_listed filtered keep_where sorted_desc
list_two = refl

list_transfers-latest_example :
    IsDescending (λ row. row.started_at) (list_transfers same false none none none 7 (opened two))
    × All
        (λ row. passes same none none none row ≡ true)
        (list_transfers same false none none none 7 (opened two))
    × (count_from (λ row. true) 6 (list_transfers same false none none none 7 (opened two))
        ≡ min
            (max 1 (min 7 5000))
            (count_from (passes same none none none) 6 (opened two).db.transfers))
list_transfers-latest_example = list_transfers-latest same none none none 7 6 (opened two) refl
