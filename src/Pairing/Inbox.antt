-- ===== src/Pairing/Inbox.antt =====
-- core/pairing.py: PairingInbox. Its clock is an argument: `now` where it is read first, `later` where
-- it is read again.
use mesh_direct.Prelude.{
  ℕ, ◌+◌, String, Bool, not, ◌&&◌, Option, none, some, List, [], map, length, leb, ◌==◌, eq_nat,
  eq_string, if◌then◌else◌, is_some, Dict, lookup, insert, without, filter_values, sum_by,
}
use mesh_direct.Prelude.Python.{Result, ok, raise, ◌>>◌, raise_if, value_error, protocol_error}
use mesh_direct.Prelude.Sorting.{sorted_desc}
use mesh_direct.Pairing.{PairingIdentity}

-- an identity and its deadline
abbrev pub Item : Type 0
Item = PairingIdentity × ℕ

pub record PairingInbox : Type 0 where
  pub max_pending : ℕ
  pub ttl : ℕ
  pub items : Dict String Item

unfoldable pub init : ℕ → ℕ → Result PairingInbox
init max_pending ttl = do
  raise_if (max_pending == 0) (value_error "max_pending must be positive")
  raise_if (ttl == 0) (value_error "ttl must be positive")
  ok (record { max_pending = max_pending; ttl = ttl; items = [] })

abbrev pub is_fresh : ℕ → Item → Bool
is_fresh now item = not (leb item.1 now)

-- Each item whose deadline is over is popped; their number is returned.
unfoldable pub prune_expired : ℕ → PairingInbox → PairingInbox × ℕ
prune_expired now inbox = (
  record inbox { items = filter_values (is_fresh now) inbox.items },
  sum_by (λ (item : String × Item). if leb item.1.1 now then 1 else 0) inbox.items,
)

unfoldable pub add_item : ℕ → PairingIdentity → PairingInbox → PairingInbox × Result (Unit {0})
add_item later identity inbox =
    if not (is_some (lookup identity.device_id inbox.items))
      && leb inbox.max_pending (length inbox.items)
    then (inbox, raise (protocol_error "Pairing inbox is full"))
    else (
      record inbox { items = insert identity.device_id (identity, later + inbox.ttl) inbox.items },
      ok tt,
    )

unfoldable pub publish : ℕ → ℕ → PairingIdentity → PairingInbox → PairingInbox × Result (Unit {0})
publish now later identity inbox = add_item later identity (prune_expired now inbox).0

abbrev pub identity_of : Option Item → Option PairingIdentity
identity_of none = none
identity_of (some item) = some item.0

unfoldable pub get : ℕ → String → PairingInbox → PairingInbox × Option PairingIdentity
get now device_id inbox =
    let pruned = (prune_expired now inbox).0 in
    (pruned, identity_of (lookup device_id pruned.items))

unfoldable pub all : ℕ → PairingInbox → PairingInbox × List PairingIdentity
all now inbox =
    let pruned = (prune_expired now inbox).0 in
    (
      pruned,
      sorted_desc (λ identity. identity.received_at)
          (map (λ (item : String × Item). item.1.0) pruned.items),
    )

unfoldable pub remove : String → PairingInbox → PairingInbox × Bool
remove device_id inbox =
    (record inbox { items = without device_id inbox.items }, is_some (lookup device_id inbox.items))

unfoldable pub reject : String → PairingInbox → PairingInbox × Bool
reject device_id inbox = remove device_id inbox
