-- ===== src/Merkle/Link.antt =====
-- Where a branch made by `CalculateMerkleLinkFromHashes` of work/util.go leads.
use p2pool_go_vtc.Prelude.{
  ℕ, zero, suc, ◌/◌, ◌%◌, ◌<◌, ◌≡◌, refl, some, List, [], ◌∷◌, ◌++◌, length, get_elem?,
  get_elem?_total, get_elem?-lt, ◌==◌, if◌then◌else◌, arith,
}
use p2pool_go_vtc.Prelude.Bytes.{Bytes}
use p2pool_go_vtc.Merkle.{
  flip, pad, dbl_sha256, next_level, link_loop, calculate_merkle_link, root_loop,
  calculate_merkle_root, compute_root_from_link,
}
use p2pool_go_vtc.Merkle.Rows.{length-pad, pad-get, length-next_level, pair_up-get, flip-lt}

module _ (sha256 : Bytes → Bytes) where
  next_level-get :
      (hs : List Bytes) (i : ℕ) {h s : Bytes}
      → get_elem? hs i ≡ some h
      → get_elem? (pad hs) (flip i) ≡ some s
      → get_elem? (next_level sha256 hs) (i / 2)
        ≡ some (dbl_sha256 sha256 (if i % 2 == 0 then h ++ s else s ++ h))
  unfolding next_level
  next_level-get hs i p q = pair_up-get sha256 (pad hs) i (pad-get hs i p) q

  sibling :
      (hs : List Bytes) (i : ℕ)
      → i < length hs
      → (s : Bytes) × (get_elem? (pad hs) (flip i) ≡ some s)
  sibling hs i h =
      get_elem?_total (pad hs) (flip i)
        (flip-lt i (length (pad hs)) (omega (arith, length-pad hs)) (omega (arith, length-pad hs)))

  -- On fuel above the length both loops end, and the branch leads to the root.
  loops_agree :
      (fuel : ℕ) (hs : List Bytes) (i : ℕ) (leaf : Bytes)
      → length hs < fuel
      → i < length hs
      → get_elem? hs i ≡ some leaf
      → (branch : List Bytes) × (link_loop sha256 fuel hs i ≡ some branch)
        × (root_loop sha256 fuel hs ≡ some (compute_root_from_link sha256 leaf branch i))
  unfolding link_loop root_loop compute_root_from_link
  loops_agree zero hs i leaf f h e = elim f [ ]
  loops_agree (suc fuel) [] i leaf f h e = elim h [ ]
  loops_agree (suc fuel) (x ∷ []) zero leaf f h e = ([], refl, e)
  loops_agree (suc fuel) (x ∷ []) (suc i) leaf f h e = absurd (omega arith)
  loops_agree (suc fuel) (x ∷ y ∷ rest) i leaf f h e =
      let hs : List Bytes = x ∷ y ∷ rest in
      let (s, found) = sibling hs i h in
      let (branch, linked, rooted) =
        loops_agree fuel (next_level sha256 hs) (i / 2) _
          (omega (arith, length-next_level sha256 hs)) (omega (arith, length-next_level sha256 hs))
          (next_level-get hs i e found) in
      (s ∷ branch, ground arith, ground arith)

  -- For every position of a list of hashes the branch exists, and leads from the hash there to
  -- the root of the list.
  pub calculate_merkle_link-root :
      (hashes : List Bytes) (index : ℕ) (leaf : Bytes)
      → get_elem? hashes index ≡ some leaf
      → (branch : List Bytes) × (calculate_merkle_link sha256 hashes index ≡ some branch)
        × (calculate_merkle_root sha256 hashes
            ≡ some (compute_root_from_link sha256 leaf branch index))
  unfolding calculate_merkle_link calculate_merkle_root
  calculate_merkle_link-root [] index leaf e = cc
  calculate_merkle_link-root (h ∷ hashes) index leaf e =
      loops_agree (suc (length (h ∷ hashes))) (h ∷ hashes) index leaf (omega arith)
        (omega (arith, get_elem?-lt (h ∷ hashes) index e)) e
