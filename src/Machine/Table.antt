-- ===== src/Machine/Table.antt =====
-- The two hash tables that the framework keeps its connections in: `google::dense_hash_map` for
-- the connections of one state machine and `tbb::concurrent_hash_map` for those that any machine
-- may take over. Neither is part of the repository, so the model takes them as a parameter.
use moon_state.Prelude.{◌≡◌, ◌↔◌, Bool, true, Option, none, some, if◌then◌else◌}
use mathlib.Core.Option

-- `ConnectionID::operator==`.
pub record Keys (K : Type 0) : Type 0 where
  pub same : K → K → Bool
  pub same_iff : (a b : K) → (same a b ≡ true) ↔ (a ≡ b)

-- `assign` is a write through the iterator that `find` returns. `usable` leaves out the keys that
-- `set_empty_key` and `set_deleted_key` reserve, for which the documentation promises nothing.
-- `insert` does not overwrite.
pub record Table {K : Type 0} (keys : Keys K) (V M : Type 0) : Type 0 where
  pub usable : K → Bool
  pub find : K → M → Option V
  pub insert : K → V → M → M
  pub assign : K → V → M → M
  pub erase : K → M → M
  pub find-insert :
      (j k : K) (v : V) (m : M)
      → usable j ≡ true
      → usable k ≡ true
      → find j (insert k v m)
        ≡ (if keys.same j k then some (Option.get_or (find k m) v) else find j m)
  pub find-assign :
      (j k : K) (v : V) (m : M)
      → usable j ≡ true
      → usable k ≡ true
      → find j (assign k v m) ≡ (if keys.same j k then Option.map (λ _. v) (find k m) else find j m)
  pub find-erase :
      (j k : K) (m : M)
      → usable j ≡ true
      → usable k ≡ true
      → find j (erase k m) ≡ (if keys.same j k then none else find j m)
