-- ===== src/Inbox/Dictionary.antt =====
-- core/inbox.py: how the number of pending requests follows the writes to `_entries`.
use mesh_direct.Prelude.{
  ℕ, ◌+◌, ◌≡◌, String, Bool, none, some, [], ◌∷◌, if◌then◌else◌, Dict, lookup, insert,
  filter_values, arith, eq_string, ◌==◌, Bool-cases, inl, inr, ◌≤◌,
}
use mesh_direct.Inbox.{PendingDecision, pending_count, is_pending}

abbrev pub weight : PendingDecision → ℕ
weight entry = if is_pending entry.request.status then 1 else 0

module _ (k : String) (v : PendingDecision) where
  pub pending_count-insert_new :
      (d : Dict String PendingDecision)
      → lookup k d ≡ none
      → pending_count (insert k v d) ≡ pending_count d + weight v
  unfolding pending_count insert lookup
  pending_count-insert_new [] h = omega arith
  pending_count-insert_new ((j, w) ∷ d) h = elim (Bool-cases (j == k)) [
    | inl same ↦ ground arith
    | inr other ↦ rw other (omega (arith, pending_count-insert_new d (rw other at h)))
  ]

  pub pending_count-insert_old :
      (d : Dict String PendingDecision) (w : PendingDecision)
      → lookup k d ≡ some w
      → pending_count (insert k v d) + weight w ≡ pending_count d + weight v
  unfolding pending_count insert lookup
  pending_count-insert_old [] w h = ground arith
  pending_count-insert_old ((j, u) ∷ d) w h = ground (arith, pending_count-insert_old d w)

pub pending_count-filter_values-le :
    (p : PendingDecision → Bool) (d : Dict String PendingDecision)
    → pending_count (filter_values p d) ≤ pending_count d
unfolding pending_count filter_values
pending_count-filter_values-le p [] = omega arith
pending_count-filter_values-le p ((k, e) ∷ d) = ground (arith, pending_count-filter_values-le p d)
