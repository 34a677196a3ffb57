-- ===== src/Merkle.antt =====
-- Merkle branches and roots: work/util.go, work/transaction.go and util/util.go. The hash function
-- of crypto/sha256 is a parameter; a hash is its 32 bytes.
pub mod Rows
pub mod Link
pub mod Binding
pub mod Witness
mod Tests
use p2pool_go_vtc.Prelude.{
  ℕ, zero, suc, ◌+◌, ◌-◌, ◌/◌, ◌%◌, Option, none, some, List, [], ◌∷◌, ◌++◌, length, get_elem?,
  head?, replicate, ltb, ◌==◌, if◌then◌else◌, ◌>>=◌,
}
use p2pool_go_vtc.Prelude.Bytes.{Bytes}

-- The null hash.
abbrev pub zero_hash : Bytes
zero_hash = replicate 32 0

-- `index ^ 1` on a non-negative int.
abbrev pub flip : ℕ → ℕ
flip i = if i % 2 == 0 then i + 1 else i - 1

-- `hashes = append(hashes, hashes[len(hashes)-1])` when the length is odd.
pub pad : List Bytes → List Bytes
pad hashes =
    if length hashes % 2 == 0
    then hashes
    else elim (get_elem? hashes (length hashes - 1)) [ none ↦ hashes | some h ↦ hashes ++ h ∷ [] ]

module _ (sha256 : Bytes → Bytes) where
  unfoldable pub dbl_sha256 : Bytes → Bytes
  dbl_sha256 b = sha256 (sha256 b)

  -- The inner loop `for i := 0; i < len(hashes); i += 2`.
  pub pair_up : List Bytes → List Bytes
  pair_up (a ∷ b ∷ rest) = dbl_sha256 (a ++ b) ∷ pair_up rest
  pair_up _ = []

  pub next_level : List Bytes → List Bytes
  next_level hashes = pair_up (pad hashes)

  -- `for len(hashes) > 1`, with fuel.
  pub link_loop : ℕ → List Bytes → ℕ → Option (List Bytes)
  link_loop zero hashes index = none
  link_loop (suc fuel) hashes index =
      let rest = link_loop fuel (next_level hashes) (index / 2) in
      if ltb 1 (length hashes)
      then (get_elem? (pad hashes) (flip index) >>= λ h. rest >>= λ branches. some (h ∷ branches))
      else some []

  -- `chainhash.NewHash`, which returns nil unless it is given 32 bytes, is a parameter of the row
  -- version below.
  module _ (new_hash : Bytes → Option Bytes) where
    -- `CalculateMerkleLink` on byte rows: a branch entry is nil where `NewHash` refuses the row.
    pub link_rows_loop : ℕ → List Bytes → ℕ → Option (List (Option Bytes))
    link_rows_loop zero hashes index = none
    link_rows_loop (suc fuel) hashes index =
        let rest = link_rows_loop fuel (next_level hashes) (index / 2) in
        if ltb 1 (length hashes)
        then (get_elem? (pad hashes) (flip index) >>= λ h.
            rest >>= λ branches. some (new_hash h ∷ branches))
        else some []

    pub calculate_merkle_link_rows : List Bytes → ℕ → Option (List (Option Bytes))
    calculate_merkle_link_rows hashes index = link_rows_loop (suc (length hashes)) hashes index

  -- `CalculateMerkleLinkFromHashes`; `none` is an index out of range.
  pub calculate_merkle_link : List Bytes → ℕ → Option (List Bytes)
  calculate_merkle_link hashes index = link_loop (suc (length hashes)) hashes index

  pub root_loop : ℕ → List Bytes → Option Bytes
  root_loop zero hashes = none
  root_loop (suc fuel) hashes =
      let rest = root_loop fuel (next_level hashes) in
      if ltb 1 (length hashes) then rest else head? hashes

  pub calculate_merkle_root : List Bytes → Option Bytes
  calculate_merkle_root [] = some zero_hash
  calculate_merkle_root (h ∷ hashes) = root_loop (suc (length (h ∷ hashes))) (h ∷ hashes)

  -- `util.ComputeMerkleRootFromLink`
  pub compute_root_from_link : Bytes → List Bytes → ℕ → Bytes
  compute_root_from_link current [] index = current
  compute_root_from_link current (b ∷ branch) index =
      compute_root_from_link (dbl_sha256 (if index % 2 == 0 then current ++ b else b ++ current))
        branch (index / 2)

  -- `CalculateWitnessCommitment`. `witness_hash` stands for decoding a transaction's hex, then
  -- `wire.MsgTx.Deserialize` and `WitnessHash`, with `none` for an error of the first two.
  module _ (witness_hash : Bytes → Option Bytes) where
    pub wtxids : List Bytes → Option (List Bytes)
    wtxids [] = some []
    wtxids (tx ∷ txs) =
        let rest = wtxids txs in witness_hash tx >>= λ h. rest >>= λ hs. some (h ∷ hs)

    -- The root, and the commitment to it and to a nonce of zeros.
    pub calculate_witness_commitment : List Bytes → Option (Bytes × Bytes)
    calculate_witness_commitment txs = wtxids txs >>= λ hs.
        calculate_merkle_root (zero_hash ∷ hs) >>= λ root.
        some (root, dbl_sha256 (root ++ zero_hash))
