-- ===== src/Merkle/Rows.antt =====
-- One level of the tree: how long it is, and which node stands above a position.
use p2pool_go_vtc.Prelude.{
  ℕ, zero, suc, ◌+◌, ◌-◌, ◌/◌, ◌%◌, ◌<◌, ◌≡◌, inl, inr, some, List, [], ◌∷◌, ◌++◌, length,
  length-append, get_elem?, get_elem?_total, get_elem?-append_left, ◌==◌, if◌then◌else◌, arith,
  Bool-cases, Option-cases,
}
use p2pool_go_vtc.Prelude.Bytes.{Bytes}
use p2pool_go_vtc.Merkle.{flip, pad, dbl_sha256, pair_up, next_level}

flip-suc : (i : ℕ) → flip (suc (suc i)) ≡ suc (suc (flip i))
flip-suc i = ground arith

-- The neighbour of a position of a list of even length lies in it too.
pub flip-lt : (i n : ℕ) → i < n → n % 2 ≡ 0 → flip i < n
flip-lt i n h even = ground arith

-- The padded level has even length, one more than an odd one.
pub length-pad : (hs : List Bytes) → length (pad hs) ≡ length hs + length hs % 2
unfolding pad
length-pad [] = omega arith
length-pad (h ∷ hs) = elim (Bool-cases (length (h ∷ hs) % 2 == 0)) [
  | inl even ↦ ground arith
  | inr odd ↦
      let (l, e) = get_elem?_total (h ∷ hs) (length (h ∷ hs) - 1) (omega arith) in
      rw (odd, e) (ground (arith, length-append (h ∷ hs) (l ∷ [])))
]

pub pad-get :
    (hs : List Bytes) (i : ℕ) {h : Bytes} → get_elem? hs i ≡ some h → get_elem? (pad hs) i ≡ some h
unfolding pad
pad-get hs i e = elim (Bool-cases (length hs % 2 == 0)) [
  | inl even ↦ rw even e
  | inr odd ↦ elim (Option-cases (get_elem? hs (length hs - 1))) [
    | inl missing ↦ rw (odd, missing) e
    | inr (l, last) ↦ rw (odd, last) (get_elem?-append_left hs (l ∷ []) i e)
  ]
]

module _ (sha256 : Bytes → Bytes) where
  pub length-pair_up : (hs : List Bytes) → length (pair_up sha256 hs) ≡ length hs / 2
  unfolding pair_up
  length-pair_up [] = omega arith
  length-pair_up (a ∷ []) = omega arith
  length-pair_up (a ∷ b ∷ rest) = omega (arith, length-pair_up rest)

  pub length-next_level : (hs : List Bytes) → length (next_level sha256 hs) ≡ (length hs + 1) / 2
  unfolding next_level
  length-next_level hs = omega (arith, length-pair_up (pad hs), length-pad hs)

  -- Above positions 2k and 2k + 1 stands the hash of the two.
  pub pair_up-get :
      (hs : List Bytes) (i : ℕ) {h s : Bytes}
      → get_elem? hs i ≡ some h
      → get_elem? hs (flip i) ≡ some s
      → get_elem? (pair_up sha256 hs) (i / 2)
        ≡ some (dbl_sha256 sha256 (if i % 2 == 0 then h ++ s else s ++ h))
  unfolding pair_up
  pair_up-get [] i p q = cc
  pair_up-get (a ∷ []) zero p q = cc
  pair_up-get (a ∷ []) (suc i) p q = cc
  pair_up-get (a ∷ b ∷ rest) zero p q = ground arith
  pair_up-get (a ∷ b ∷ rest) (suc zero) p q = ground arith
  pair_up-get (a ∷ b ∷ rest) (suc (suc i)) p q =
      let half : suc (suc i) / 2 ≡ suc (i / 2) = omega arith in
      let parity : suc (suc i) % 2 ≡ i % 2 = omega arith in
      rw (half, parity) (pair_up-get rest i p (rw (flip-suc i) at q))
