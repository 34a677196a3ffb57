-- ===== src/Merkle/Tests.antt =====
-- The merkle theorems at three leaves, and with a stand-in for the hash.
use p2pool_go_vtc.Prelude.{
  ℕ, ◌≡◌, ◌⊎◌, refl, Option, none, some, List, [], ◌∷◌, ◌++◌, length, replicate, All, ◌==◌,
  if◌then◌else◌, arith,
}
use p2pool_go_vtc.Prelude.Bytes.{Bytes}
use p2pool_go_vtc.Merkle.{
  zero_hash, dbl_sha256, calculate_merkle_link, calculate_merkle_root, compute_root_from_link,
  wtxids, calculate_witness_commitment,
}
use p2pool_go_vtc.Merkle.Link.{calculate_merkle_link-root}
use p2pool_go_vtc.Merkle.Binding.{IsHash, Collision, compute_root_from_link_binding}
use p2pool_go_vtc.Merkle.Witness.{calculate_witness_commitment-branch}
use p2pool_go_vtc.Sample.{first_32, length-first_32}

abbrev leaf : ℕ → Bytes
leaf n = replicate 32 n

abbrev leaves : List Bytes
leaves = leaf 1 ∷ leaf 2 ∷ leaf 3 ∷ []

abbrev hash_if_32 : Bytes → Option Bytes
hash_if_32 b = if length b == 32 then some b else none

hash_if_32-IsHash : (b : Bytes) → IsHash b → hash_if_32 b ≡ some b
hash_if_32-IsHash b h = ground arith

abbrev all_leaves : All IsHash leaves
all_leaves = (refl, (refl, (refl, tt)))

calculate_merkle_link-root_example :
    (branch : List Bytes) × (calculate_merkle_link first_32 leaves 2 ≡ some branch)
    × (calculate_merkle_root first_32 leaves
        ≡ some (compute_root_from_link first_32 (leaf 3) branch 2))
calculate_merkle_link-root_example = calculate_merkle_link-root first_32 leaves 2 (leaf 3) refl

same_root :
    compute_root_from_link first_32 (leaf 1) (leaf 2 ∷ []) 0
    ≡ compute_root_from_link first_32 (leaf 1) (leaf 3 ∷ []) 0
unfolding compute_root_from_link dbl_sha256
same_root = refl

-- Two branches that the stand-in for the hash does not tell apart.
compute_root_from_link_binding_example :
    ((leaf 1 ≡ leaf 1) × (leaf 2 ∷ [] ≡ leaf 3 ∷ [])) ⊎ Collision first_32
compute_root_from_link_binding_example =
    compute_root_from_link_binding first_32 length-first_32 0 (leaf 1) (leaf 1) (leaf 2 ∷ [])
      (leaf 3 ∷ []) refl refl (refl, tt) (refl, tt) refl same_root

abbrev witness_hash : Bytes → Option Bytes
witness_hash tx = some (first_32 tx)

abbrev two_txs : List Bytes
two_txs = (5 ∷ []) ∷ (6 ∷ []) ∷ []

abbrev two_wtxids : List Bytes
two_wtxids = (5 ∷ replicate 31 0) ∷ (6 ∷ replicate 31 0) ∷ []

two_hashed : wtxids first_32 witness_hash two_txs ≡ some two_wtxids
unfolding wtxids
two_hashed = refl

calculate_witness_commitment-branch_example :
    (root : Bytes) × (wtxid : Bytes) × (branch : List Bytes) × (calculate_witness_commitment
        first_32 witness_hash two_txs
      ≡ some (root, dbl_sha256 first_32 (root ++ zero_hash)))
    × (witness_hash (6 ∷ []) ≡ some wtxid)
    × (calculate_merkle_link first_32 (zero_hash ∷ two_wtxids) 2 ≡ some branch)
    × (root ≡ compute_root_from_link first_32 wtxid branch 2)
calculate_witness_commitment-branch_example =
    calculate_witness_commitment-branch first_32 witness_hash two_txs two_wtxids 1 (6 ∷ [])
      two_hashed refl
