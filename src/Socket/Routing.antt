-- ===== src/Socket/Routing.antt =====
-- socket.go, to whom a raw response goes: `takeRawCid` has only the low 16 bits of the cid.
use mezon_sdk_go.Prelude.{
  ℕ, ◌+◌, ◌%◌, ◌^◌, ◌≤◌, ◌<◌, ◌≡◌, refl, subst, sym, inl, inr, [], ◌∷◌, some, Option-cases, arith,
  lookup, delete, nat_eq,
}
use mezon_sdk_go.Socket.{Chan}
use mezon_sdk_go.Socket.Cids.{Cids, find_truncated, take_truncated, take_raw_cid}

-- Every pending cid is one of 2^16 consecutive ones.
abbrev pub InWindow : ℕ → Cids → Type 0
InWindow base [] = Unit
InWindow base ((k, ch) ∷ cids) = (base ≤ k) × (k < base + 2 ^ 16) × InWindow base cids

lookup-InWindow :
    (base k : ℕ) (ch : Chan) (cids : Cids)
    → InWindow base cids
    → lookup k cids ≡ some ch
    → (base ≤ k) × (k < base + 2 ^ 16)
unfolding lookup
lookup-InWindow base k ch [] w h = absurd (ground arith)
lookup-InWindow base k ch ((j, x) ∷ cids) w h = ground (arith, lookup-InWindow base k ch cids w.2)

find_truncated-window :
    (base k : ℕ) (ch : Chan) (cids : Cids)
    → InWindow base cids
    → base ≤ k
    → k < base + 2 ^ 16
    → lookup k cids ≡ some ch
    → find_truncated (k % 2 ^ 16) cids ≡ some (k, ch)
unfolding lookup find_truncated
find_truncated-window base k ch [] w low high h = absurd (ground arith)
find_truncated-window base k ch ((j, x) ∷ cids) w low high h =
    ground (arith, find_truncated-window base k ch cids w.2 low high)

pub take_raw_cid_hit :
    (cid : ℕ) (ch : Chan) (cids : Cids)
    → lookup cid cids ≡ some ch
    → take_raw_cid cid cids ≡ (some ch, delete cid cids)
unfolding take_raw_cid
take_raw_cid_hit cid ch cids h = rw (h, take_raw_cid) refl

-- While the pending cids lie in a window of 2^16, a raw response finds the request that it answers
-- by the low 16 bits alone, whatever order the map is ranged in, and takes only that one off.
pub take_raw_cid-routes :
    (base k : ℕ) (ch : Chan) (cids : Cids)
    → InWindow base cids
    → lookup k cids ≡ some ch
    → take_raw_cid (k % 2 ^ 16) cids ≡ (some ch, delete k cids)
unfolding take_raw_cid take_truncated
take_raw_cid-routes base k ch cids w h = elim (Option-cases (lookup (k % 2 ^ 16) cids)) [
  | inl absent ↦
      let at = lookup-InWindow base k ch cids w h in
      rw (absent, take_raw_cid, find_truncated-window base k ch cids w at.0 at.1 h, take_truncated)
        refl
  | inr (x, low) ↦
      let at = lookup-InWindow base k ch cids w h in
      let at' = lookup-InWindow base (k % 2 ^ 16) x cids w low in
      let same : k % 2 ^ 16 ≡ k = omega (arith, at.0, at.1, at'.0, at'.1) in
      subst (λ j. take_raw_cid j cids ≡ (some ch, delete k cids)) (sym same)
        (take_raw_cid_hit k ch cids h)
]
