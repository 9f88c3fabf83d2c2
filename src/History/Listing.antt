-- ===== src/History/Listing.antt =====
-- core/history.py: what the queries return.
use Prim.Native.String.{◌++◌ as text_append}
use mesh_direct.Prelude.{
  ℕ, zero, suc, min, max, ◌≡◌, ◌≤◌, ◌<◌, refl, sym, ap, ◌∙◌, String, Bool, true, false, ◌&&◌, ◌||◌,
  Option, none, some, List, [], ◌∷◌, All, take, sum_by, leb, ◌==◌, eq_nat, eq_string, eq_iff,
  if◌then◌else◌, Bool-cases, inl, inr, arith,
}
use mesh_direct.Prelude.Sorting.{
  sorted_desc, All-sorted_desc, sum_by-sorted_desc, IsDescending, sorted_desc-IsDescending,
}
use mesh_direct.Protocol.Text.{prefix, count_chars}
use mesh_direct.History.Rows.{TransferRecord, find, has_transfer, keep_where}
use mesh_direct.History.Tables.{IsConsistent, DistinctTransfers}
use mesh_direct.History.Queries.{
  query_transfers, get_transfer, list_transfers, is_listed, filtered, like_column, head?,
}
use mesh_direct.History.Abstract.{view}
use mesh_direct.History.{Store}

as_list : Option TransferRecord → List TransferRecord
as_list none = []
as_list (some row) = row ∷ []

none_kept :
    (id : String) (rows : List TransferRecord)
    → has_transfer id rows ≡ false
    → keep_where (λ row. row.transfer_id == id) rows ≡ []
unfolding keep_where has_transfer
none_kept id [] h = refl
none_kept id (row ∷ rows) h = ground (arith, none_kept id rows)

one_kept :
    (id : String) (rows : List TransferRecord)
    → DistinctTransfers rows
    → keep_where (λ row. row.transfer_id == id) rows ≡ as_list (find id rows)
unfolding keep_where find as_list
one_kept id [] d = refl
one_kept id (row ∷ rows) d = elim (Bool-cases (row.transfer_id == id)) [
  | inl here ↦ rw (here, none_kept id rows (rw (← (eq_iff row.transfer_id id).0 here) d.0)) refl
  | inr other ↦ rw other (one_kept id rows d.1)
]

first_of_one :
    (o : Option TransferRecord)
    → head? (take (max 1 (min 1 5000)) (sorted_desc (λ row. row.started_at) (as_list o))) ≡ o
unfolding as_list sorted_desc
first_of_one none = refl
first_of_one (some row) = refl

-- On an available store that keeps its keys and references, get_transfer returns the row of the ID
-- that the table holds, if SQLite does not fail, and none if it holds none.
pub get_transfer-view :
    (id : String) (s : Store)
    → s.available ≡ true
    → IsConsistent s.db
    → get_transfer false id s ≡ view s id
unfolding get_transfer query_transfers
get_transfer-view id s on c =
    rw (on, one_kept id s.db.transfers c.transfers) (first_of_one (find id s.db.transfers))

take-All {κ} :
    (P : TransferRecord → Type κ) (n : ℕ) (rows : List TransferRecord)
    → All P rows
    → All P (take n rows)
take-All P zero rows h = tt
take-All P (suc n) [] h = tt
take-All P (suc n) (row ∷ rows) h = (h.0, take-All P n rows h.1)

take-IsDescending :
    (n : ℕ) (rows : List TransferRecord)
    → IsDescending (λ row. row.started_at) rows
    → IsDescending (λ row. row.started_at) (take n rows)
take-IsDescending zero rows h = tt
take-IsDescending (suc n) [] h = tt
take-IsDescending (suc n) (row ∷ rows) h = (take-All _ n rows h.0, take-IsDescending n rows h.1)

keep_where-All :
    (test other : TransferRecord → Bool)
    → ((row : TransferRecord) → test row ≡ other row)
    → (rows : List TransferRecord) → All (λ row. other row ≡ true) (keep_where test rows)
unfolding keep_where
keep_where-All test other same [] = tt
keep_where-All test other same (row ∷ rows) = elim (Bool-cases (test row)) [
  | inl hit ↦ rw hit (sym (same row) ∙ hit, keep_where-All test other same rows)
  | inr miss ↦ rw miss (keep_where-All test other same rows)
]

-- A filter is off when it is None or empty.
abbrev is_off : Option String → Bool
is_off none = true
is_off (some s) = count_chars s == 0

abbrev is_text : Option String → String → Bool
is_text none field = false
is_text (some s) field = field == s

abbrev contains : (String → String → Bool) → Option String → String → Bool
contains like none field = false
contains like (some s) field = like (text_append "%" (text_append (prefix 128 s) "%")) field

abbrev contains? : (String → String → Bool) → Option String → Option String → Bool
contains? like search none = false
contains? like search (some field) = contains like search field

-- What the filters ask of a row: its direction, its status, and the pattern in the name of the peer's
-- host, in its address or in the transfer ID.
abbrev pub passes :
    (String → String → Bool) → Option String → Option String → Option String → TransferRecord → Bool
passes like direction status search row =
    (is_off direction || is_text direction row.direction)
    && (is_off status || is_text status row.status)
    && (is_off search
        || contains? like search row.peer_hostname
        || contains like search row.peer_ip
        || contains like search row.transfer_id)

filtered_text :
    (filter : Option String) (field : String)
    → filtered filter (λ s. field == s) ≡ (is_off filter || is_text filter field)
unfolding filtered
filtered_text none field = refl
filtered_text (some s) field = refl

filtered_search :
    (like : String → String → Bool) (search hostname : Option String) (ip id : String)
    → filtered search (λ s.
      let pattern = text_append "%" (text_append (prefix 128 s) "%") in
      like_column like pattern hostname || like pattern ip || like pattern id)
      ≡ (is_off search
          || contains? like search hostname
          || contains like search ip
          || contains like search id)
unfolding filtered
filtered_search like none hostname ip id = refl
filtered_search like (some s) none ip id = ground arith
filtered_search like (some s) (some h) ip id = ground arith

is_listed-passes :
    (like : String → String → Bool) (direction status search : Option String) (row : TransferRecord)
    → is_listed like direction status search row ≡ passes like direction status search row
unfolding is_listed
is_listed-passes like direction status search row =
    rw
      (
        filtered_text direction row.direction,
        filtered_text status row.status,
        filtered_search like search row.peer_hostname row.peer_ip row.transfer_id,
      )
      refl

-- how many of the rows start at this time or later, and pass a test
abbrev pub count_from : (TransferRecord → Bool) → ℕ → List TransferRecord → ℕ
count_from test time rows =
    sum_by (λ row. if test row && leb time row.started_at then 1 else 0) rows

abbrev any_row : TransferRecord → Bool
any_row row = true

count_from-keep_where :
    (test other : TransferRecord → Bool) (time : ℕ) (rows : List TransferRecord)
    → ((row : TransferRecord) → test row ≡ other row)
    → count_from any_row time (keep_where test rows) ≡ count_from other time rows
unfolding keep_where
count_from-keep_where test other time [] same = refl
count_from-keep_where test other time (row ∷ rows) same =
    ground (arith, same row, count_from-keep_where test other time rows same)

none_later :
    (bound time : ℕ) (rows : List TransferRecord)
    → All (λ row. row.started_at ≤ bound) rows
    → bound < time
    → count_from any_row time rows ≡ 0
none_later bound time [] all early = refl
none_later bound time (row ∷ rows) all early =
    ground (arith, all.0, none_later bound time rows all.1 early)

-- The first rows of a descending list are the latest.
count_from-take :
    (n time : ℕ) (rows : List TransferRecord)
    → IsDescending (λ row. row.started_at) rows
    → count_from any_row time (take n rows) ≡ min n (count_from any_row time rows)
count_from-take zero time rows d = omega arith
count_from-take (suc n) time [] d = omega arith
count_from-take (suc n) time (row ∷ rows) d = elim (Bool-cases (leb time row.started_at)) [
  | inl late ↦ rw late (omega (arith, count_from-take n time rows d.1))
  | inr early ↦ rw early (
      ground (
        arith,
        none_later row.started_at time rows d.0 (ground arith),
        none_later row.started_at time (take n rows) (take-All _ n rows d.0) (ground arith),
      ))
]

-- If SQLite does not fail, list_transfers of an available store returns rows that pass the filters,
-- the latest start first, and for any time as many of them that start then or later as the table has,
-- or as the limit allows, which is at least 1 and at most 5000.
pub list_transfers-latest :
    (like : String → String → Bool) (direction status search : Option String) (limit time : ℕ)
    (s : Store)
    → s.available ≡ true
    → IsDescending
        (λ row. row.started_at)
        (list_transfers like false direction status search limit s)
      × All
          (λ row. passes like direction status search row ≡ true)
          (list_transfers like false direction status search limit s)
      × (count_from (λ row. true) time (list_transfers like false direction status search limit s)
          ≡ min
              (max 1 (min limit 5000))
              (count_from (passes like direction status search) time s.db.transfers))
unfolding list_transfers query_transfers
list_transfers-latest like direction status search limit time s on =
    let test = is_listed like direction status search in
    let hits = keep_where test s.db.transfers in
    let sorted = sorted_desc-IsDescending (λ row. row.started_at) hits in
    let same = is_listed-passes like direction status search in
    rw on (
      take-IsDescending _ _ sorted,
      take-All _ _ _ (
          All-sorted_desc (λ row. row.started_at) _ hits
            (keep_where-All test _ same s.db.transfers)),
      count_from-take (max 1 (min limit 5000)) time (sorted_desc (λ row. row.started_at) hits)
            sorted
          ∙ ap (min (max 1 (min limit 5000))) (
              sum_by-sorted_desc (λ row. row.started_at) _ hits
              ∙ count_from-keep_where test (passes like direction status search) time s.db.transfers
                  same),
    )
