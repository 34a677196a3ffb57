-- ===== src/Chain/Work/Whole/Removed.antt =====
-- The children index after `unlinkShareLocked`.
use p2pool_go_vtc.Prelude.{
  ℕ, ◌≡◌, refl, true, false, inl, inr, none, some, [], ◌==◌, ==_iff, Bool-cases, arith, ap, sym,
  ◌∙◌,
}
use p2pool_go_vtc.Prelude.Eq.{nat_Eq}
use p2pool_go_vtc.Prelude.Dict.{lookup, erase, lookup-erase}
use p2pool_go_vtc.Share.{Share}
use p2pool_go_vtc.Chain.{ShareChain, next_key}
use p2pool_go_vtc.Chain.Sync.{in_set}
use p2pool_go_vtc.Chain.Index.{children_of, unlink_child}
use p2pool_go_vtc.Chain.Index.Sets.{count-AllNew}
use p2pool_go_vtc.Chain.Work.Whole.{IndexedBut}
use p2pool_go_vtc.Chain.Work.Whole.Unlinking.{unlink_child-in_set, unlink_child-once}

module _ {F : Type 0} (h : ℕ) (s : Share F) (sc : ShareChain F) (held : lookup h sc.shares ≡ some s)
    (i : IndexedBut [] sc) where
  -- A share that is held after the removal is another one, held before.
  pub kept_share :
      (x : ℕ) (t : Share F)
      → lookup x (erase h sc.shares) ≡ some t
      → (h == x ≡ false) × (lookup x sc.shares ≡ some t)
  kept_share x t at = (
    ground (arith, at, lookup-erase h x sc.shares),
    ground (arith, at, lookup-erase h x sc.shares),
  )

  still_held :
      (x : ℕ) (t : Share F)
      → lookup x sc.shares ≡ some t
      → h == x ≡ false
      → lookup x (erase h sc.shares) ≡ some t
  still_held x t at other = ground (arith, at, other, lookup-erase h x sc.shares)

  -- The share under the removed hash is the removed one.
  the_share : (c : ℕ) (t : Share F) → h ≡ c → lookup c sc.shares ≡ some t → s ≡ t
  the_share c t key at = ground (arith, at, held, ap (λ y. lookup y sc.shares) key)

  pub root-removed : next_key s ≡ none → IndexedBut [] (record sc { shares = erase h sc.shares })
  root-removed root = record {
    once = i.once;
    sound = λ p c at.
        let t = i.sound p c at in
        elim (Bool-cases (h == c)) [
          | inl same ↦
              let key = the_share c t.1 ((==_iff h c).0 same) t.2 in
              absurd (ground (arith, root, t.3, ap next_key key))
          | inr other ↦ (refl, t.1, still_held c t.1 t.2 other, t.3)
        ];
    complete = λ p c t at up out. i.complete p c t (kept_share c t at).1 up out;
  }

  pub child-removed :
      (q : ℕ)
      → next_key s ≡ some q
      → IndexedBut []
          (record sc { shares = erase h sc.shares; children = unlink_child h (some q) sc })
  child-removed q above = record {
    once = λ p. count-AllNew _ (unlink_child-once h q sc i p);
    sound = λ p c at.
        let now = sym (unlink_child-in_set h q sc i p c) ∙ at in
        let was : in_set c (children_of sc p) ≡ true = ground (arith, now) in
        let t = i.sound p c was in
        elim (Bool-cases (h == c)) [
          | inl same ↦
              let key = the_share c t.1 ((==_iff h c).0 same) t.2 in
              let parent : q ≡ p = ground (arith, above, t.3, ap next_key key) in
              absurd (ground (arith, now, same, (==_iff q p).1 parent))
          | inr other ↦ (refl, t.1, still_held c t.1 t.2 other, t.3)
        ];
    complete = λ p c t at up out.
        let k = kept_share c t at in
        let was = i.complete p c t k.1 up out in
        unlink_child-in_set h q sc i p c ∙ ground (arith, k.0, was);
  }
