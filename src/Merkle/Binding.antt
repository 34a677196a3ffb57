-- ===== src/Merkle/Binding.antt =====
-- What equal Merkle roots say of the branches: `ComputeMerkleRootFromLink` of util/util.go.
use p2pool_go_vtc.Prelude.{
  ℕ, ◌/◌, ◌%◌, ◌≡◌, refl, ◌≢◌, ◌⊎◌, inl, inr, List, [], ◌∷◌, ◌++◌, length, ◌==◌, if◌then◌else◌, All,
  arith, Bool-cases,
}
use p2pool_go_vtc.Prelude.Bytes.{Bytes, bytes_eq, bytes_eq→eq, bytes_eq_ne, append_cancel}
use p2pool_go_vtc.Merkle.{dbl_sha256, compute_root_from_link}

abbrev pub IsHash : Bytes → Type 0
IsHash b = length b ≡ 32

module _ (sha256 : Bytes → Bytes) where
  -- Two different inputs with one double hash.
  abbrev pub Collision : Type 0
  Collision = (x : Bytes) × (y : Bytes) × (x ≢ y) × (dbl_sha256 sha256 x ≡ dbl_sha256 sha256 y)

  equal_or_collision :
      (x y : Bytes) → dbl_sha256 sha256 x ≡ dbl_sha256 sha256 y → (x ≡ y) ⊎ Collision
  equal_or_collision x y e = elim (Bool-cases (bytes_eq x y)) [
    | inl same ↦ inl (bytes_eq→eq x y same)
    | inr differ ↦ inr (x, y, bytes_eq_ne x y differ, e)
  ]

  abbrev joined : Bytes → Bytes → ℕ → Bytes
  joined current b index = if index % 2 == 0 then current ++ b else b ++ current

  joined_cancel :
      (h h' b b' : Bytes) (i : ℕ)
      → IsHash h
      → IsHash h'
      → IsHash b
      → IsHash b'
      → joined h b i ≡ joined h' b' i
      → (h ≡ h') × (b ≡ b')
  joined_cancel h h' b b' i lh lh' lb lb' e = elim (Bool-cases (i % 2 == 0)) [
    | inl even ↦ append_cancel h h' b b' (omega arith) (rw even at e)
    | inr odd ↦ let (p, q) = append_cancel b b' h h' (omega arith) (rw odd at e) in (q, p)
  ]

  module _ (sha256_size : (b : Bytes) → length (sha256 b) ≡ 32) where
    dbl-IsHash : (b : Bytes) → IsHash (dbl_sha256 sha256 b)
    unfolding dbl_sha256
    dbl-IsHash b = sha256_size (sha256 b)

    -- With a hash of 32 bytes: two branches of one length at one index, of 32-byte hashes, that
    -- end in the same root start at the same leaf and are equal, or they show a collision of the
    -- hash.
    pub compute_root_from_link_binding :
        (index : ℕ) (leaf leaf' : Bytes) (branch branch' : List Bytes)
        → IsHash leaf
        → IsHash leaf'
        → All IsHash branch
        → All IsHash branch'
        → length branch ≡ length branch'
        → compute_root_from_link sha256 leaf branch index
          ≡ compute_root_from_link sha256 leaf' branch' index
        → ((leaf ≡ leaf') × (branch ≡ branch')) ⊎ Collision
    unfolding compute_root_from_link
    compute_root_from_link_binding i h h' [] [] lh lh' lb lb' n e = inl (e, refl)
    compute_root_from_link_binding i h h' [] (b' ∷ br') lh lh' lb lb' n e = absurd (omega arith)
    compute_root_from_link_binding i h h' (b ∷ br) [] lh lh' lb lb' n e = absurd (omega arith)
    compute_root_from_link_binding i h h' (b ∷ br) (b' ∷ br') lh lh' lb lb' n e =
        elim (compute_root_from_link_binding (i / 2) (dbl_sha256 sha256 (joined h b i))
          (dbl_sha256 sha256 (joined h' b' i)) br br' (dbl-IsHash _) (dbl-IsHash _) lb.1 lb'.1
          (omega arith) e) [
            | inr collision ↦ inr collision
            | inl (same, rest) ↦ elim (equal_or_collision (joined h b i) (joined h' b' i) same) [
              | inr collision ↦ inr collision
              | inl eq ↦ let (p, q) = joined_cancel h h' b b' i lh lh' lb.0 lb'.0 eq in inl (p, cc)
            ]
          ]
