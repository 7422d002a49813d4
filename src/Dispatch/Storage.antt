-- ===== src/Dispatch/Storage.antt =====
-- fluxrpc/dispatch/__init__.py: `_storage`, which `pass_storage` binds to a function, and `__add__`.
-- The dicts are objects of a heap, each named by the number of those made before it.
use aiotinyrpc.Base.{ℕ, suc, ◌≡◌, ◌<◌, String, str_eq_refl, some, [], arith, if◌then◌else◌, ◌==◌}
use aiotinyrpc.Base.Dict.{
  Dict, lookup, insert, merge, NodupKeys, or_else, lookup-insert, lookup-merge,
}
use aiotinyrpc.Python.Value.{Value}

pub record Heap : Type 0 where
  pub count : ℕ
  pub dicts : ℕ → Dict Value

abbrev put : ℕ → Dict Value → (ℕ → Dict Value) → ℕ → Dict Value
put a d dicts b = if a == b then d else dicts b

-- A new dict, and its place.
unfoldable pub allocate : Dict Value → Heap → ℕ × Heap
allocate d h = (h.count, record { count = suc h.count; dicts = put h.count d h.dicts })

-- `__init__`: the place of `_storage`
unfoldable pub new_storage : Heap → ℕ × Heap
unfolding allocate
new_storage h = allocate [] h

-- `__add__`: the receiver's `_storage` is a new dict.
unfoldable pub add_storage : ℕ → ℕ → Heap → ℕ × Heap
unfolding allocate merge
add_storage a b h = allocate (merge (h.dicts a) (h.dicts b)) h

-- `pass_storage`: the function is bound to the dict that is `_storage` at that time. What it then
-- sets there:
unfoldable pub set_stored : ℕ → String → Value → Heap → Heap
unfolding insert
set_stored a k v h = record h { dicts = put a (insert k v (h.dicts a)) h.dicts }

module _ (a b : ℕ) (h : Heap) where
  -- After an addition the storage has the entries of both, those of the other dispatcher first.
  pub add_storage-lookup :
      (k : String)
      → NodupKeys (h.dicts b)
      → let (sum, h') = add_storage a b h in
        lookup k (h'.dicts sum) ≡ or_else (lookup k (h.dicts b)) (lookup k (h.dicts a))
  unfolding add_storage allocate
  add_storage-lookup k distinct = ground (arith, lookup-merge k (h.dicts a) (h.dicts b) distinct)

  -- A function that was bound before the addition keeps the dict it was bound to: what it sets is
  -- not in the storage of the sum, and functions that are bound to it after that do not see it.
  pub add_storage-set_stored :
      (k j : String) (v : Value)
      → a < h.count
      → let (sum, h') = add_storage a b h in
        let after = set_stored a k v h' in
        (lookup j (after.dicts sum) ≡ lookup j (h'.dicts sum)) × (lookup k (after.dicts a) ≡ some v)
  unfolding add_storage set_stored allocate
  add_storage-set_stored k j v known =
      (ground arith, ground (arith, lookup-insert k k v (h.dicts a), str_eq_refl k))
