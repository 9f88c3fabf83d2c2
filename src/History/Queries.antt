-- ===== src/History/Queries.antt =====
-- core/history.py: reading the history, and the migration when it is opened.
use Prim.Native.String.{◌++◌ as text_append}
use mesh_direct.Prelude.{
  ℕ, min, max, String, Bool, true, false, not, ◌&&◌, ◌||◌, Option, none, some, List, [], ◌∷◌, take,
  ltb, ◌==◌, eq_nat, eq_string, eq_option, if◌then◌else◌, map,
}
use mesh_direct.Prelude.Python.{Result, ok, raise, ◌>>=◌, ◌>>◌, raise_if, database_error}
use mesh_direct.Prelude.Sorting.{sorted_desc}
use mesh_direct.Protocol.Text.{prefix, count_chars}
use mesh_direct.History.Rows.{
  TransferRecord, FileRow, interruptible, is_in, keep_where, update_where,
}
use mesh_direct.History.{Database, Store}

-- `ORDER BY started_at DESC LIMIT ?`. A limit below 1 counts as 1.
unfoldable pub query_transfers : Bool → (TransferRecord → Bool) → ℕ → Store → List TransferRecord
query_transfers fails test limit store =
    if store.available && not fails
    then take (max 1 (min limit 5000))
        (sorted_desc (λ row. row.started_at) (keep_where test store.db.transfers))
    else []

abbrev pub head? : List TransferRecord → Option TransferRecord
head? [] = none
head? (row ∷ rows) = some row

unfoldable pub get_transfer : Bool → String → Store → Option TransferRecord
get_transfer fails transfer_id store =
    head? (query_transfers fails (λ row. row.transfer_id == transfer_id) 1 store)

unfoldable pub get_files : Bool → String → Store → List FileRow
get_files fails transfer_id store =
    if store.available && not fails
    then keep_where (λ f. f.transfer_id == transfer_id) store.db.files
    else []

-- A filter is off when its text is None or empty.
unfoldable pub filtered : Option String → (String → Bool) → Bool
filtered none test = true
filtered (some s) test = count_chars s == 0 || test s

-- `LIKE` on a column that may be NULL
abbrev pub like_column : (String → String → Bool) → String → Option String → Bool
like_column like pattern none = false
like_column like pattern (some s) = like pattern s

-- `like pattern s` is SQLite's `s LIKE pattern`.
module _ (like : String → String → Bool) where
  unfoldable pub is_listed : Option String → Option String → Option String → TransferRecord → Bool
  unfolding filtered
  is_listed direction status search row =
      filtered direction (λ d. row.direction == d)
      && filtered status (λ s. row.status == s)
      && filtered search (λ s.
        let pattern = text_append "%" (text_append (prefix 128 s) "%") in
        like_column like pattern row.peer_hostname
        || like pattern row.peer_ip
        || like pattern row.transfer_id)

  unfoldable pub list_transfers :
      Bool → Option String → Option String → Option String → ℕ → Store → List TransferRecord
  unfolding query_transfers is_listed
  list_transfers fails direction status search limit store =
      query_transfers fails (is_listed direction status search) limit store

  unfoldable pub search : Bool → String → ℕ → Store → List TransferRecord
  unfolding list_transfers
  search fails query limit store = list_transfers fails none none (some query) limit store

-- `if peer_device_id:` the device or the address, else the address only
unfoldable pub is_of_peer : Option String → String → TransferRecord → Bool
is_of_peer none peer_ip row = row.peer_ip == peer_ip
is_of_peer (some id) peer_ip row =
    not (count_chars id == 0) && row.peer_device_id == some id || row.peer_ip == peer_ip

unfoldable pub list_for_peer : Bool → Option String → String → ℕ → Store → List TransferRecord
list_for_peer fails peer_device_id peer_ip limit store =
    query_transfers fails (is_of_peer peer_device_id peer_ip) limit store

unfoldable pub schema_version : ℕ
schema_version = 2

-- `if version < 1:`: CREATE TABLE raises where the file has the tables, and makes empty ones elsewhere.
unfoldable pub create_tables : Bool → Database → Result Database
create_tables has_tables db =
    if ltb db.user_version 1
    then (if has_tables
        then raise (database_error "table transfers already exists")
        else ok (record db { user_version = 1; transfers = []; files = []; next_id = 1 }))
    else ok db

abbrev pub with_defaults : TransferRecord → TransferRecord
with_defaults row = record row { resumed = false; resume_offset = 0 }

-- `if version < 2:`: the new columns have their defaults in every row.
unfoldable pub add_columns : Database → Database
add_columns db =
    if ltb db.user_version 2
    then record db { user_version = 2; transfers = map with_defaults db.transfers }
    else db

unfoldable pub interrupt_all : List TransferRecord → List TransferRecord
interrupt_all rows =
    update_where (λ (row : TransferRecord). is_in row.status interruptible)
      (λ row. record row { status = "interrupted" }) rows

-- `has_tables` tells whether the file has the tables.
unfoldable pub migrate : Bool → Database → Result Database
unfolding schema_version
migrate has_tables db = do
  raise_if (ltb schema_version db.user_version)
      (database_error "History schema is newer than this app")
  created ← create_tables has_tables db
  let current = add_columns created
  ok (record current { transfers = interrupt_all current.transfers })

-- `__init__`: if SQLite fails, `left` is what it leaves of the file, as executescript commits each of
-- its statements.
unfoldable pub open_store : Option Database → Bool → Database → Store
open_store (some left) has_tables db = record { available = false; db = left }
open_store none has_tables db = elim (migrate has_tables db) [
  | raise e ↦ record { available = false; db = db }
  | ok migrated ↦ record { available = true; db = migrated }
]
