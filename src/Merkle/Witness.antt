-- ===== src/Merkle/Witness.antt =====
-- What the witness root holds, and how the two link routines of work/util.go compare.
use p2pool_go_vtc.Prelude.{
  ℕ, zero, suc, ◌/◌, ◌≡◌, refl, inl, inr, Option, none, some, List, [], ◌∷◌, map, get_elem?, ltb,
  length, ◌==◌, ◌%◌, ◌-◌, All-append, All-get, arith, Option-cases, Bool-cases, ◌++◌, All,
}
use p2pool_go_vtc.Prelude.Bytes.{Bytes}
use p2pool_go_vtc.Merkle.{
  zero_hash, pad, flip, next_level, pair_up, dbl_sha256, link_loop, link_rows_loop,
  calculate_merkle_link, calculate_merkle_link_rows, compute_root_from_link, wtxids,
  calculate_witness_commitment,
}
use p2pool_go_vtc.Merkle.Binding.{IsHash}
use p2pool_go_vtc.Merkle.Link.{calculate_merkle_link-root}

module _ (sha256 : Bytes → Bytes) (witness_hash : Bytes → Option Bytes) where
  wtxids-cons :
      (t : Bytes) (txs hs : List Bytes)
      → wtxids sha256 witness_hash (t ∷ txs) ≡ some hs
      → (h : Bytes) × (rest : List Bytes) × (witness_hash t ≡ some h)
        × (wtxids sha256 witness_hash txs ≡ some rest)
        × (hs ≡ h ∷ rest)
  unfolding wtxids
  wtxids-cons t txs hs p = elim (Option-cases (witness_hash t)) [
    | inl bad ↦ ground arith
    | inr (h, good) ↦ elim (Option-cases (wtxids sha256 witness_hash txs)) [
      | inl bad ↦ ground arith
      | inr (rest, more) ↦ (h, rest, good, more, ground arith)
    ]
  ]

  wtxids-get :
      (txs hs : List Bytes) (k : ℕ) {tx : Bytes}
      → wtxids sha256 witness_hash txs ≡ some hs
      → get_elem? txs k ≡ some tx
      → (h : Bytes) × (witness_hash tx ≡ some h) × (get_elem? hs k ≡ some h)
  wtxids-get [] hs k p e = cc
  wtxids-get (t ∷ txs) hs zero p e =
      let (h, rest, good, more, eq) = wtxids-cons t txs hs p in (h, ground arith, rw eq)
  wtxids-get (t ∷ txs) hs (suc k) p e =
      let (h, rest, good, more, eq) = wtxids-cons t txs hs p in
      let (h', decoded, there) = wtxids-get txs rest k more e in (h', decoded, rw eq there)

  -- Where every transaction decodes there is a commitment, of the root and a nonce of zeros. The
  -- wtxid of transaction k stands at leaf k + 1 below it: a branch leads from there to the root.
  pub calculate_witness_commitment-branch :
      (txs hs : List Bytes) (k : ℕ) (tx : Bytes)
      → wtxids sha256 witness_hash txs ≡ some hs
      → get_elem? txs k ≡ some tx
      → (root : Bytes) × (wtxid : Bytes) × (branch : List Bytes) × (calculate_witness_commitment
            sha256 witness_hash txs
          ≡ some (root, dbl_sha256 sha256 (root ++ zero_hash)))
        × (witness_hash tx ≡ some wtxid)
        × (calculate_merkle_link sha256 (zero_hash ∷ hs) (suc k) ≡ some branch)
        × (root ≡ compute_root_from_link sha256 wtxid branch (suc k))
  unfolding calculate_witness_commitment
  calculate_witness_commitment-branch txs hs k tx p e =
      let (h, decoded, there) = wtxids-get txs hs k p e in
      let (branch, linked, rooted) =
        calculate_merkle_link-root sha256 (zero_hash ∷ hs) (suc k) h there in
      (
        compute_root_from_link sha256 h branch (suc k),
        h,
        branch,
        rw (p, rooted),
        decoded,
        linked,
        refl,
      )

abbrev pub somes : Option (List Bytes) → Option (List (Option Bytes))
somes none = none
somes (some hs) = some (map some hs)

module _ (sha256 : Bytes → Bytes) (sha256_size : (b : Bytes) → length (sha256 b) ≡ 32)
    (new_hash : Bytes → Option Bytes)
    (new_hash_32 : (b : Bytes) → IsHash b → new_hash b ≡ some b) where
  pair_up-IsHash : (hs : List Bytes) → All IsHash (pair_up sha256 hs)
  unfolding pair_up dbl_sha256
  pair_up-IsHash [] = tt
  pair_up-IsHash (a ∷ []) = tt
  pair_up-IsHash (a ∷ b ∷ rest) = (sha256_size _, pair_up-IsHash rest)

  next_level-IsHash : (hs : List Bytes) → All IsHash (next_level sha256 hs)
  unfolding next_level
  next_level-IsHash hs = pair_up-IsHash (pad hs)

  pad-IsHash : (hs : List Bytes) → All IsHash hs → All IsHash (pad hs)
  unfolding pad
  pad-IsHash hs all = elim (Bool-cases (length hs % 2 == 0)) [
    | inl even ↦ rw even all
    | inr odd ↦ elim (Option-cases (get_elem? hs (length hs - 1))) [
      | inl missing ↦ rw (odd, missing) all
      | inr (l, last) ↦
          rw (odd, last) (All-append IsHash hs (l ∷ []) all (All-get IsHash hs _ all last, tt))
    ]
  ]

  link_loops_agree :
      (fuel : ℕ) (hs : List Bytes) (i : ℕ)
      → All IsHash hs
      → link_rows_loop sha256 new_hash fuel hs i ≡ somes (link_loop sha256 fuel hs i)
  unfolding link_loop link_rows_loop
  link_loops_agree zero hs i all = refl
  link_loops_agree (suc fuel) hs i all = elim (Bool-cases (ltb 1 (length hs))) [
    | inr short ↦ rw short
    | inl long ↦ elim (Option-cases (get_elem? (pad hs) (flip i))) [
      | inl outside ↦ rw (long, outside)
      | inr (h, found) ↦
          rw
            (
              long,
              found,
              new_hash_32 h (All-get IsHash (pad hs) _ (pad-IsHash hs all) found),
              link_loops_agree fuel (next_level sha256 hs) (i / 2) (next_level-IsHash hs),
            )
            (ground arith)
    ]
  ]

  -- With a hash of 32 bytes and a NewHash that takes all 32-byte strings: on rows of 32 bytes the
  -- two link routines return the same branch, and no entry is nil.
  pub calculate_merkle_link_rows-eq :
      (hashes : List Bytes) (index : ℕ)
      → All IsHash hashes
      → calculate_merkle_link_rows sha256 new_hash hashes index
        ≡ somes (calculate_merkle_link sha256 hashes index)
  unfolding calculate_merkle_link calculate_merkle_link_rows
  calculate_merkle_link_rows-eq hashes index all =
      link_loops_agree (suc (length hashes)) hashes index all
