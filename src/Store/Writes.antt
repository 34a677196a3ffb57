-- ===== src/Store/Writes.antt =====
-- The transaction of `writeLocked`, entry by entry.
use p2pool_go_vtc.Prelude.{
  ℕ, ◌≡◌, Bool, Option, none, some, List, [], ◌∷◌, if◌then◌else◌, Option-cases, inl, inr, arith,
}
use p2pool_go_vtc.Prelude.Bytes.{Bytes}
use p2pool_go_vtc.Prelude.Eq.{nat_Eq}
use p2pool_go_vtc.Prelude.Dict.{Dict, lookup, lookup-insert, lookup-erase}
use p2pool_go_vtc.Share.{Share}
use p2pool_go_vtc.Chain.Sync.{in_set}
use p2pool_go_vtc.Store.{Batch, share_key, encode_all, put_all, delete_all, write, batch_value}

share_key-same : (h k : ℕ) → share_key h ≡ some k → h ≡ k
share_key-same h k e = ground (arith, e)

delete_all-lookup :
    (h : ℕ) (dels : List ℕ) (d d' : Dict ℕ Bytes)
    → delete_all dels d ≡ some d'
    → lookup h d' ≡ (if in_set h dels then none else lookup h d)
unfolding delete_all
delete_all-lookup h [] d d' e = ground (arith, e)
delete_all-lookup h (g ∷ dels) d d' e = elim (Option-cases (delete_all dels d)) [
  | inl f ↦ ground (arith, e, f)
  | inr (d1, f) ↦ ground (arith, e, f, delete_all-lookup h dels d d1 f, lookup-erase g h d1)
]

module _ {F : Type 0} (marshal : Share F → Option Bytes) where
  put_all-lookup :
      (h : ℕ) (puts : Dict ℕ (Share F)) (enc d : Dict ℕ Bytes)
      → encode_all marshal puts ≡ some enc
      → lookup h (put_all enc d) ≡ elim (lookup h puts) [ none ↦ lookup h d | some s ↦ marshal s ]
  unfolding encode_all put_all
  put_all-lookup h [] enc d e = ground (arith, e)
  put_all-lookup h (p ∷ puts) enc d e = elim (Option-cases (encode_all marshal puts)) [
    | inl f ↦ ground (arith, e, f)
    | inr (rest, f) ↦ elim (Option-cases (marshal p.1)) [
      | inl g ↦ ground (arith, e, f, g)
      | inr (v, g) ↦
          ground
            (arith, e, f, g, put_all-lookup h puts rest d f, lookup-insert p.0 h v (put_all rest d))
    ]
  ]

  -- A transaction that the database takes makes of every entry what its batch says.
  pub write-lookup :
      (refused : Bool) (b : Batch F) (d d' : Dict ℕ Bytes)
      → write marshal refused b d ≡ some d'
      → (h : ℕ) → lookup h d' ≡ batch_value marshal b h (lookup h d)
  unfolding write batch_value
  write-lookup refused b d d' e h = elim (Option-cases (encode_all marshal b.puts)) [
    | inl f ↦ ground (arith, e, f)
    | inr (enc, f) ↦ ground (
      arith,
      e,
      f,
      delete_all-lookup h b.dels (put_all enc d) d',
      put_all-lookup h b.puts enc d f,
    )
  ]
