-- ===== src/Chain/Index/Unlink.antt =====
-- Taking a share out of the maps and the children index.
use p2pool_go_vtc.Prelude.{
  ℕ, ◌+◌, ◌≡◌, ◌≢◌, refl, true, none, some, List, [], ◌∷◌, ◌==◌, if◌then◌else◌, arith,
}
use p2pool_go_vtc.Prelude.Eq.{nat_Eq}
use p2pool_go_vtc.Prelude.Dict.{lookup, get_or, insert, erase, lookup-insert, lookup-erase}
use p2pool_go_vtc.Share.{Share}
use p2pool_go_vtc.Chain.{ShareChain, next_key}
use p2pool_go_vtc.Chain.Sync.{in_set}
use p2pool_go_vtc.Chain.Index.{move_last, remove_child, children_of, unlink_child, unlink_share}

-- How often a hash stands in a list.
abbrev pub count : ℕ → List ℕ → ℕ
count g [] = 0
count g (c ∷ cs) = let rest = count g cs in if c == g then rest + 1 else rest

move_last-count : (g : ℕ) (cs : List ℕ) → count g (move_last cs) ≡ count g cs
move_last-count g [] = refl
move_last-count g (c ∷ cs) = ground (arith, move_last-count g cs)

-- One occurrence of the removed child goes, and nothing else.
remove_child-count :
    (g h : ℕ) (cs : List ℕ)
    → count g cs
      ≡ count g (remove_child h cs) + (if h == g then (if in_set h cs then 1 else 0) else 0)
remove_child-count g h [] = ground arith
remove_child-count g h (c ∷ cs) = ground (arith, remove_child-count g h cs, move_last-count g cs)

module _ {F : Type 0} where
  -- After `unlinkShareLocked` of a held share: the share is in none of the maps and its removal is
  -- noted, the entries of all other shares are as before, and one occurrence of it left its parent's
  -- children.
  pub record Unlinked (h : ℕ) (s : Share F) (sc sc' : ShareChain F) : Type 0 where
    pub gone :
        (lookup h sc'.shares ≡ none)
        × (lookup h sc'.verified ≡ none)
        × (lookup h sc'.received ≡ none)
        × (lookup h sc'.cum_work ≡ none)
        × (lookup h sc'.chain_len ≡ none)
    pub noted : lookup h sc'.dirty ≡ some true
    pub others :
        (k : ℕ)
        → h ≢ k
        → (lookup k sc'.shares ≡ lookup k sc.shares)
          × (lookup k sc'.verified ≡ lookup k sc.verified)
          × (lookup k sc'.received ≡ lookup k sc.received)
          × (lookup k sc'.cum_work ≡ lookup k sc.cum_work)
          × (lookup k sc'.chain_len ≡ lookup k sc.chain_len)
          × (lookup k sc'.dirty ≡ lookup k sc.dirty)
    pub child :
        (p : ℕ)
        → next_key s ≡ some p
        → (g : ℕ)
        → count g (children_of sc p)
          ≡ count g (children_of sc' p)
            + (if h == g then (if in_set h (children_of sc p) then 1 else 0) else 0)
    pub tip : sc'.tip_hash ≡ sc.tip_hash

  pub unlink_child-count :
      (h p g : ℕ) (sc : ShareChain F)
      → count g (children_of sc p)
        ≡ count g (get_or [] p (unlink_child h (some p) sc))
          + (if h == g then (if in_set h (children_of sc p) then 1 else 0) else 0)
  unfolding unlink_child
  unlink_child-count h p g sc = by_rest (remove_child h (children_of sc p)) refl
    where
      by_rest :
          (rest : List ℕ)
          → remove_child h (children_of sc p) ≡ rest
          → count g (children_of sc p)
            ≡ count g (
                get_or [] p
                  (elim rest [ [] ↦ erase p sc.children | c ∷ cs ↦ insert p (c ∷ cs) sc.children ]))
              + (if h == g then (if in_set h (children_of sc p) then 1 else 0) else 0)
      by_rest [] e =
          ground (arith, lookup-erase p p sc.children, remove_child-count g h (children_of sc p), e)
      by_rest (c ∷ cs) e = ground (
        arith,
        lookup-insert p p (c ∷ cs) sc.children,
        remove_child-count g h (children_of sc p),
        e,
      )

  -- Unlinking a held share takes it out of every map, notes that it is gone, takes one occurrence of it
  -- out of its parent's children, and leaves the entries of all other shares and the tip.
  pub unlink_share-Unlinked :
      (sc : ShareChain F) (h : ℕ) (s : Share F)
      → lookup h sc.shares ≡ some s
      → Unlinked h s sc (unlink_share h sc).1
  unfolding unlink_share
  unlink_share-Unlinked sc h s held =
      rw (unlink_share, held)
        (record {
          gone = (
            ground (arith, lookup-erase h h sc.shares),
            ground (arith, lookup-erase h h sc.verified),
            ground (arith, lookup-erase h h sc.received),
            ground (arith, lookup-erase h h sc.cum_work),
            ground (arith, lookup-erase h h sc.chain_len),
          );
          noted = ground (arith, lookup-insert h h true sc.dirty);
          others = λ k differ. (
            ground (arith, lookup-erase h k sc.shares),
            ground (arith, lookup-erase h k sc.verified),
            ground (arith, lookup-erase h k sc.received),
            ground (arith, lookup-erase h k sc.cum_work),
            ground (arith, lookup-erase h k sc.chain_len),
            ground (arith, lookup-insert h k true sc.dirty),
          );
          child = λ p parent g. rw parent (unlink_child-count h p g sc);
          tip = refl;
        })
