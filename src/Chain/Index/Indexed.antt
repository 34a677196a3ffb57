-- ===== src/Chain/Index/Indexed.antt =====
-- What the children index is an index of.
use p2pool_go_vtc.Prelude.{ℕ, ◌≡◌, true, some}
use p2pool_go_vtc.Prelude.Eq.{nat_Eq}
use p2pool_go_vtc.Prelude.Dict.{lookup}
use p2pool_go_vtc.Share.{Share}
use p2pool_go_vtc.Chain.{ShareChain, next_key}
use p2pool_go_vtc.Chain.Sync.{in_set}
use p2pool_go_vtc.Chain.Sync.Replies.{AllNew}
use p2pool_go_vtc.Chain.Index.{children_of}

module _ {F : Type 0} where
  -- The children of a hash are the held shares that name it as their parent, each once.
  pub record Indexed (sc : ShareChain F) : Type 0 where
    pub once : (p : ℕ) → AllNew (children_of sc p)
    pub sound :
        (p c : ℕ)
        → in_set c (children_of sc p) ≡ true
        → (s : Share F) × (lookup c sc.shares ≡ some s) × (next_key s ≡ some p)
    pub complete :
        (p c : ℕ) (s : Share F)
        → lookup c sc.shares ≡ some s
        → next_key s ≡ some p
        → in_set c (children_of sc p) ≡ true
