-- ===== src/Pairing/Pending.antt =====
-- core/pairing.py: the pairing inbox under any sequence of calls.
use mathlib.Core.List.{Perm}
use mesh_direct.Prelude.{
  ℕ, suc, ◌+◌, ◌≡◌, ◌≤◌, ◌∙◌, refl, String, Bool, not, ◌&&◌, Option, none, some, List, [], ◌∷◌, All,
  map, length, leb, ltb, ◌==◌, eq_nat, eq_string, eq_iff, if◌then◌else◌, is_some, Bool-cases, inl,
  inr, arith, Dict, lookup, insert, without, filter_values, IsDict, insert-IsDict, without-IsDict,
  filter_values-IsDict, keep_if, lookup-filter_values,
}
use mesh_direct.Prelude.Sorting.{IsDescending, sorted_desc-IsDescending, perm-sorted_desc}
use mesh_direct.Pairing.{PairingIdentity}
use mesh_direct.Pairing.Inbox.{
  Item, PairingInbox, is_fresh, prune_expired, add_item, publish, get, all, remove, reject,
}

-- An item stands under the ID of its device.
abbrev pub IsKeyed : String × Item → Type 0
IsKeyed item = item.0 ≡ item.1.0.device_id

pub record IsValid (inbox : PairingInbox) : Type 0 where
  pub distinct : IsDict inbox.items
  pub keyed : All IsKeyed inbox.items
  pub bounded : length inbox.items ≤ inbox.max_pending

length-insert :
    (k : String) (v : Item) (d : Dict String Item)
    → length (insert k v d) ≡ (if is_some (lookup k d) then length d else suc (length d))
unfolding insert lookup
length-insert k v [] = refl
length-insert k v ((j, w) ∷ d) = ground (arith, length-insert k v d)

length-filter_values-le :
    (p : Item → Bool) (d : Dict String Item) → length (filter_values p d) ≤ length d
unfolding filter_values
length-filter_values-le p [] = omega arith
length-filter_values-le p ((k, v) ∷ d) = ground (arith, length-filter_values-le p d)

length-without-le : (k : String) (d : Dict String Item) → length (without k d) ≤ length d
unfolding without
length-without-le k [] = omega arith
length-without-le k ((j, v) ∷ d) = ground (arith, length-without-le k d)

insert-IsKeyed :
    (identity : PairingIdentity) (deadline : ℕ) (d : Dict String Item)
    → All IsKeyed d
    → All IsKeyed (insert identity.device_id (identity, deadline) d)
unfolding insert
insert-IsKeyed identity deadline [] h = (refl, tt)
insert-IsKeyed identity deadline ((j, w) ∷ d) h = elim (Bool-cases (j == identity.device_id)) [
  | inl same ↦ rw same ((eq_iff j identity.device_id).0 same, h.1)
  | inr other ↦ rw other (h.0, insert-IsKeyed identity deadline d h.1)
]

filter-All {κ} :
    (P : String × Item → Type κ) (p : Item → Bool) (d : Dict String Item)
    → All P d
    → All P (filter_values p d)
unfolding filter_values
filter-All P p [] h = tt
filter-All P p ((k, v) ∷ d) h = elim (Bool-cases (p v)) [
  | inl kept ↦ rw kept (h.0, filter-All P p d h.1)
  | inr gone ↦ rw gone (filter-All P p d h.1)
]

without-All {κ} :
    (P : String × Item → Type κ) (k : String) (d : Dict String Item) → All P d → All P (without k d)
unfolding without
without-All P k [] h = tt
without-All P k ((j, v) ∷ d) h = elim (Bool-cases (j == k)) [
  | inl gone ↦ rw gone (without-All P k d h.1)
  | inr kept ↦ rw kept (h.0, without-All P k d h.1)
]

prune_expired-IsValid :
    (now : ℕ) (inbox : PairingInbox) → IsValid inbox → IsValid (prune_expired now inbox).0
unfolding prune_expired
prune_expired-IsValid now inbox v = record {
  distinct = filter_values-IsDict (is_fresh now) inbox.items v.distinct;
  keyed = filter-All IsKeyed (is_fresh now) inbox.items v.keyed;
  bounded = omega (arith, v.bounded, length-filter_values-le (is_fresh now) inbox.items);
}

add_item-IsValid :
    (later : ℕ) (identity : PairingIdentity) (inbox : PairingInbox)
    → IsValid inbox
    → IsValid (add_item later identity inbox).0
unfolding add_item
add_item-IsValid later identity inbox v =
    elim (Bool-cases (
      not (is_some (lookup identity.device_id inbox.items))
      && leb inbox.max_pending (length inbox.items))) [
        | inl full ↦ rw full v
        | inr room ↦ rw room (record {
          distinct =
              insert-IsDict identity.device_id (identity, later + inbox.ttl) inbox.items v.distinct;
          keyed = insert-IsKeyed identity (later + inbox.ttl) inbox.items v.keyed;
          bounded = ground (
            arith,
            v.bounded,
            length-insert identity.device_id (identity, later + inbox.ttl) inbox.items,
          );
        })
      ]

remove-IsValid :
    (device_id : String) (inbox : PairingInbox) → IsValid inbox → IsValid (remove device_id inbox).0
unfolding remove
remove-IsValid device_id inbox v = record {
  distinct = without-IsDict device_id inbox.items v.distinct;
  keyed = without-All IsKeyed device_id inbox.items v.keyed;
  bounded = omega (arith, v.bounded, length-without-le device_id inbox.items);
}

-- The calls on the inbox, with what their clock shows.
pub data Op : Type 0 where
  publishes : ℕ → ℕ → PairingIdentity → Op
  gets : ℕ → String → Op
  lists prunes : ℕ → Op
  removes rejects : String → Op

unfoldable pub apply : Op → PairingInbox → PairingInbox
apply (publishes now later identity) inbox = (publish now later identity inbox).0
apply (gets now device_id) inbox = (get now device_id inbox).0
apply (lists now) inbox = (all now inbox).0
apply (prunes now) inbox = (prune_expired now inbox).0
apply (removes device_id) inbox = (remove device_id inbox).0
apply (rejects device_id) inbox = (reject device_id inbox).0

unfoldable pub run : List Op → PairingInbox → PairingInbox
unfolding apply
run [] inbox = inbox
run (op ∷ ops) inbox = run ops (apply op inbox)

apply-IsValid : (op : Op) (inbox : PairingInbox) → IsValid inbox → IsValid (apply op inbox)
unfolding apply publish get all reject
apply-IsValid (publishes now later identity) inbox v =
    add_item-IsValid later identity (prune_expired now inbox).0 (prune_expired-IsValid now inbox v)
apply-IsValid (gets now device_id) inbox v = prune_expired-IsValid now inbox v
apply-IsValid (lists now) inbox v = prune_expired-IsValid now inbox v
apply-IsValid (prunes now) inbox v = prune_expired-IsValid now inbox v
apply-IsValid (removes device_id) inbox v = remove-IsValid device_id inbox v
apply-IsValid (rejects device_id) inbox v = remove-IsValid device_id inbox v

run-IsValid : (ops : List Op) (inbox : PairingInbox) → IsValid inbox → IsValid (run ops inbox)
unfolding run
run-IsValid [] inbox v = v
run-IsValid (op ∷ ops) inbox v = run-IsValid ops (apply op inbox) (apply-IsValid op inbox v)

-- what is left of an identity that waits, at this time
abbrev pub left_at : ℕ → Option Item → Option Item
left_at now none = none
left_at now (some item) = if ltb now item.1 then some item else none

keep_if-left_at : (now : ℕ) (o : Option Item) → keep_if (is_fresh now) o ≡ left_at now o
keep_if-left_at now none = refl
keep_if-left_at now (some item) = ground arith

-- From a valid inbox, after any calls, at most max_pending identities wait, each once, under the ID
-- of its device; and `all` then keeps, under each ID, the identity whose deadline is not over and no
-- other, and returns those that it keeps, the latest first.
pub all-run :
    (now : ℕ) (ops : List Op) (inbox : PairingInbox) (device_id : String)
    → IsValid inbox
    → IsValid (run ops inbox)
      × (lookup device_id (all now (run ops inbox)).0.items
          ≡ left_at now (lookup device_id (run ops inbox).items))
      × IsDescending (λ identity. identity.received_at) (all now (run ops inbox)).1
      × Perm
          (all now (run ops inbox)).1
          (map (λ (item : String × Item). item.1.0) (all now (run ops inbox)).0.items)
unfolding all prune_expired
all-run now ops inbox device_id v =
    let after = run-IsValid ops inbox v in
    (
      after,
      lookup-filter_values (is_fresh now) device_id (run ops inbox).items after.distinct
          ∙ keep_if-left_at now (lookup device_id (run ops inbox).items),
      sorted_desc-IsDescending (λ identity. identity.received_at) _,
      perm-sorted_desc (λ identity. identity.received_at) _,
    )
