-- ===== src/Template/Common.antt =====
-- The transactions that two templates have in common: `intersectTemplateTxs` of work/manager.go.
use p2pool_go_vtc.Prelude.{
  ◌≡◌, inl, inr, true, false, List, [], ◌∷◌, length, ◌==◌, ◌||◌, Bool-cases, arith,
}
use p2pool_go_vtc.Prelude.Int.{ℤ, pos, add64}
use p2pool_go_vtc.Template.{
  TemplateTx, is_empty, tx_key, has_tx, is_common, common_txs, intersect_template_txs,
}

-- The same transactions, picked from the first list in its order; the last of the pair is their fees.
pub data Picked (b : List TemplateTx) : List TemplateTx → List TemplateTx → ℤ → Type 0 where
  nothing : Picked b [] [] (pos 0)
  takes :
      {tx : TemplateTx} {a out : List TemplateTx} {fees : ℤ}
      → is_empty (tx_key tx) ≡ false
      → has_tx (tx_key tx) b ≡ true
      → length tx.depends ≡ 0
      → Picked b a out fees
      → Picked b (tx ∷ a) (tx ∷ out) (add64 tx.fee fees)
  skips :
      {tx : TemplateTx} {a out : List TemplateTx} {fees : ℤ}
      → is_common tx b ≡ false
      → Picked b a out fees
      → Picked b (tx ∷ a) out fees

common_txs-Picked : (a b : List TemplateTx) → Picked b a (common_txs a b).0 (common_txs a b).1
unfolding common_txs
common_txs-Picked [] b = nothing
common_txs-Picked (tx ∷ a) b = elim (Bool-cases (is_common tx b)) [
  | inl both ↦
      rw (common_txs, both)
        (takes (ground (arith, both)) (ground (arith, both)) (ground (arith, both))
          (common_txs-Picked a b))
  | inr one ↦ rw (common_txs, one) (skips one (common_txs-Picked a b))
]

none-Picked : (a : List TemplateTx) → Picked [] a [] (pos 0)
none-Picked [] = nothing
none-Picked (tx ∷ a) = skips (ground arith) (none-Picked a)

-- The intersection of two templates' transactions are those of the first, in its order, that depend
-- on no other and whose key, the id or else the hash, is not empty and stands in the second; and its
-- fees are theirs.
pub intersect_template_txs-Picked :
    (a b : List TemplateTx)
    → Picked b a (intersect_template_txs a b).0 (intersect_template_txs a b).1
unfolding intersect_template_txs
intersect_template_txs-Picked [] b = nothing
intersect_template_txs-Picked (tx ∷ a) [] =
    let empty : (length (tx ∷ a) == 0 || true) ≡ true = ground arith in
    rw (intersect_template_txs, empty) (none-Picked (tx ∷ a))
intersect_template_txs-Picked (tx ∷ a) (ty ∷ b) =
    let full : (length (tx ∷ a) == 0 || length (ty ∷ b) == 0) ≡ false = ground arith in
    rw (intersect_template_txs, full) (common_txs-Picked (tx ∷ a) (ty ∷ b))
