-- ===== src/Socket/Cids.antt =====
-- socket.go, the table of pending requests: `cids` and `nextCid`. The list's order stands for the
-- order in which Go ranges over the map, which is left open.
use mezon_sdk_go.Prelude.{
  ℕ, ◌+◌, ◌-◌, ◌%◌, ◌^◌, List, [], ◌∷◌, Option, none, some, ◌==◌, if◌then◌else◌, lookup, delete,
  nat_eq,
}
use mezon_sdk_go.Socket.{Chan}

abbrev pub Cids : Type 0
Cids = List (ℕ × Chan)

-- atomic.AddInt32(&s.nextCid, 1) - 1: the new counter, and the cid.
unfoldable pub generate_cid : ℕ → ℕ × ℕ
generate_cid next_cid =
    let added = (next_cid + 1) % 2 ^ 32 in (added, (added + 2 ^ 32 - 1) % 2 ^ 32)

unfoldable pub clear_cid : ℕ → Cids → Cids
clear_cid cid cids = delete cid cids

unfoldable pub take_cid : ℕ → Cids → Option Chan × Cids
take_cid cid cids = elim (lookup cid cids) [
  | some ch ↦ (some ch, delete cid cids)
  | none ↦ (none, cids)
]

-- The range over the map for a key whose low 16 bits are `cid`.
unfoldable pub find_truncated : ℕ → Cids → Option (ℕ × Chan)
find_truncated cid [] = none
find_truncated cid ((k, ch) ∷ rest) =
    if k % 2 ^ 16 == cid then some (k, ch) else find_truncated cid rest

unfoldable pub take_truncated : ℕ → Cids → Option Chan × Cids
take_truncated cid cids = elim (find_truncated cid cids) [
  | some (k, ch) ↦ (some ch, delete k cids)
  | none ↦ (none, cids)
]

unfoldable pub take_raw_cid : ℕ → Cids → Option Chan × Cids
take_raw_cid cid cids = elim (lookup cid cids) [
  | some ch ↦ (some ch, delete cid cids)
  | none ↦ take_truncated cid cids
]
