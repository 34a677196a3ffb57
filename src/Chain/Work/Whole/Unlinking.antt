-- ===== src/Chain/Work/Whole/Unlinking.antt =====
-- A share that is taken out of the maps and the index, with the works below it not yet right.
use p2pool_go_vtc.Prelude.{
  ℕ, ◌≤◌, ◌≡◌, refl, false, inl, inr, some, List, [], ◌∷◌, ◌==◌, ==_iff, if◌then◌else◌, Bool-cases,
  arith, ap, subst,
}
use p2pool_go_vtc.Prelude.Eq.{nat_Eq}
use p2pool_go_vtc.Prelude.Dict.{get_or, insert, erase, lookup-insert, lookup-erase}
use p2pool_go_vtc.Chain.{ShareChain}
use p2pool_go_vtc.Chain.Sync.{in_set}
use p2pool_go_vtc.Chain.Index.{children_of, remove_child, unlink_child}
use p2pool_go_vtc.Chain.Index.Sets.{count-in_set, AllNew-count}
use p2pool_go_vtc.Chain.Index.Unlink.{count, unlink_child-count}
use p2pool_go_vtc.Chain.Work.Whole.{IndexedBut}

module _ {F : Type 0} (h q : ℕ) (sc : ShareChain F) where
  unlink_child-other :
      (p : ℕ) → q == p ≡ false → get_or [] p (unlink_child h (some q) sc) ≡ children_of sc p
  unfolding unlink_child
  unlink_child-other p other = by_rest (remove_child h (children_of sc q))
    where
      by_rest :
          (rest : List ℕ)
          → get_or [] p
              (elim rest [ [] ↦ erase q sc.children | c ∷ cs ↦ insert q (c ∷ cs) sc.children ])
            ≡ children_of sc p
      by_rest [] = ground (arith, other, lookup-erase q p sc.children)
      by_rest (c ∷ cs) = ground (arith, other, lookup-insert q p (c ∷ cs) sc.children)

  module _ (i : IndexedBut [] sc) where
    -- The children of a hash, but for the removed one.
    pub unlink_child-in_set :
        (p c : ℕ)
        → in_set c (get_or [] p (unlink_child h (some q) sc)) ≡ (
            if q == p
            then (if h == c then false else in_set c (children_of sc p))
            else in_set c (children_of sc p))
    unlink_child-in_set p c = elim (Bool-cases (q == p)) [
      | inr other ↦ rw (other, unlink_child-other p other) refl
      | inl same ↦
          let key = (==_iff q p).0 same in
          rw same (
            subst
              (λ p.
                in_set c (get_or [] p (unlink_child h (some q) sc))
                ≡ (if h == c then false else in_set c (children_of sc p)))
              key
              (let new = get_or [] q (unlink_child h (some q) sc) in
                let now = count-in_set c new in
                let old = count-in_set c (children_of sc q) in
                let there = count-in_set h (children_of sc q) in
                let sum = unlink_child-count h q c sc in
                let few = AllNew-count (children_of sc q) (i.once q) c in
                elim (Bool-cases (h == c)) [
                  | inl at ↦ ground (
                    arith,
                    at,
                    now,
                    old,
                    there,
                    sum,
                    few,
                    ap (λ y. count y (children_of sc q)) ((==_iff h c).0 at),
                    ap (λ y. in_set y (children_of sc q)) ((==_iff h c).0 at),
                  )
                  | inr apart ↦ ground (arith, apart, now, old, sum)
                ]))
    ]

    pub unlink_child-once :
        (p : ℕ) → (g : ℕ) → count g (get_or [] p (unlink_child h (some q) sc)) ≤ 1
    unlink_child-once p g = elim (Bool-cases (q == p)) [
      | inr other ↦ rw (unlink_child-other p other) (AllNew-count (children_of sc p) (i.once p) g)
      | inl same ↦
          subst (λ p. count g (get_or [] p (unlink_child h (some q) sc)) ≤ 1) ((==_iff q p).0 same)
            (let sum = unlink_child-count h q g sc in
              let few = AllNew-count (children_of sc q) (i.once q) g in omega (arith, sum, few))
    ]
