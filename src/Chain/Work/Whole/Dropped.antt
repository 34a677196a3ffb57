-- ===== src/Chain/Work/Whole/Dropped.antt =====
-- Unlinking several shares, before `dropWorkLocked`.
use p2pool_go_vtc.Prelude.{
  ℕ, ◌≡◌, refl, Bool, true, false, inl, inr, Option, none, some, List, [], ◌∷◌, ◌==◌, ==_iff, ◌||◌,
  if◌then◌else◌, Bool-cases, Option-cases, arith, ap, ◌∙◌,
}
use p2pool_go_vtc.Prelude.Int.{ℤ}
use p2pool_go_vtc.Prelude.Eq.{nat_Eq}
use p2pool_go_vtc.Prelude.Dict.{Dict, lookup, get_or, insert, erase, lookup-erase}
use p2pool_go_vtc.Env.{Float64}
use p2pool_go_vtc.Share.{Share}
use p2pool_go_vtc.Chain.{ShareChain, next_key}
use p2pool_go_vtc.Chain.Sync.{in_set}
use p2pool_go_vtc.Chain.Index.{children_of, unlink_child, unlink_share, parent_work}
use p2pool_go_vtc.Chain.Index.Sets.{in_set-union}
use p2pool_go_vtc.Chain.Index.Works.{Worked}
use p2pool_go_vtc.Chain.Work.{unlink_all, orphans_of}
use p2pool_go_vtc.Chain.Work.Whole.{IndexedBut, IndexedBut-same, Bare}
use p2pool_go_vtc.Chain.Work.Whole.Removed.{kept_share, root-removed, child-removed}

module _ (fl : Float64) where
  open fl use {F, lit}

  -- Does no share under the hash name one of some parents?
  abbrev pub Above : (ℕ → Bool) → ShareChain F → ℕ → Type 0
  Above gone sc x =
      (s : Share F) (p : ℕ) → lookup x sc.shares ≡ some s → next_key s ≡ some p → gone p ≡ false

  -- Whole, but for the works of the children of removed shares.
  pub record Removing (gone : ℕ → Bool) (sc : ShareChain F) : Type 0 where
    pub indexed : IndexedBut [] sc
    pub worked : (x : ℕ) → Above gone sc x → Worked fl sc x
    pub bare : Bare [] sc

  pub Removing-more :
      (gone more : ℕ → Bool) (sc : ShareChain F)
      → ((p : ℕ) → more p ≡ false → gone p ≡ false)
      → Removing gone sc
      → Removing more sc
  Removing-more gone more sc sub r = record {
    indexed = r.indexed;
    worked = λ x above. r.worked x (λ s p at up. sub p (above s p at up));
    bare = r.bare;
  }

  module _ (h : ℕ) (s : Share F) (sc : ShareChain F) (held : lookup h sc.shares ≡ some s) where
    -- The chain without the share, its children index left open.
    abbrev without : Dict ℕ (List ℕ) → ShareChain F
    without cs = record sc {
      children = cs;
      shares = erase h sc.shares;
      verified = erase h sc.verified;
      received = erase h sc.received;
      cum_work = erase h sc.cum_work;
      chain_len = erase h sc.chain_len;
      dirty = insert h true sc.dirty;
    }

    parent_work-without :
        (cs : Dict ℕ (List ℕ)) (t : Share F)
        → ((p : ℕ) → next_key t ≡ some p → h == p ≡ false)
        → parent_work fl (without cs) t ≡ parent_work fl sc t
    unfolding parent_work
    parent_work-without cs t apart = elim (Option-cases (next_key t)) [
      | inl root ↦ rw (parent_work, root) refl
      | inr (p, up) ↦
          let other = apart p up in
          let share : lookup p (erase h sc.shares) ≡ lookup p sc.shares =
            ground (arith, other, lookup-erase h p sc.shares) in
          let work : get_or (lit 0 1) p (erase h sc.cum_work) ≡ get_or (lit 0 1) p sc.cum_work =
            ground (arith, other, lookup-erase h p sc.cum_work) in
          let size : get_or 0 p (erase h sc.chain_len) ≡ get_or 0 p sc.chain_len =
            ground (arith, other, lookup-erase h p sc.chain_len) in
          elim (Option-cases (lookup p sc.shares)) [
            | inl gone ↦ rw (parent_work, up, share, gone) refl
            | inr (ps, there) ↦ rw (parent_work, up, share, there) (λ i. (work i, size i))
          ]
    ]

    without-Removing :
        (gone : ℕ → Bool) (cs : Dict ℕ (List ℕ))
        → IndexedBut [] (without cs)
        → Removing gone sc
        → Removing (λ p. h == p || gone p) (without cs)
    without-Removing gone cs indexed r = record {
      indexed = indexed;
      worked = λ x above t at.
          let k = kept_share h s sc held r.indexed x t at in
          let old =
            r.worked x
              (λ t' p there up.
                (let still : lookup x (erase h sc.shares) ≡ some t' =
                    ground (arith, k.0, there, lookup-erase h x sc.shares) in
                  let none_of = above t' p still up in ground (arith, none_of)))
              t k.1 in
          rw
            (parent_work-without cs t
              (λ p up. let none_of = above t p at up in ground (arith, none_of)))
            (
              ground (arith, k.0, lookup-erase h x sc.cum_work) ∙ old.0,
              ground (arith, k.0, lookup-erase h x sc.chain_len) ∙ old.1,
            );
      bare = λ x why. elim why [
        | inr at ↦ absurd (cc)
        | inl out ↦ elim (Bool-cases (h == x)) [
          | inl same ↦ (
            ground (arith, same, lookup-erase h x sc.cum_work),
            ground (arith, same, lookup-erase h x sc.chain_len),
          )
          | inr other ↦
              let old = r.bare x (inl (ground (arith, out, other, lookup-erase h x sc.shares))) in
              (
                ground (arith, other, lookup-erase h x sc.cum_work) ∙ old.0,
                ground (arith, other, lookup-erase h x sc.chain_len) ∙ old.1,
              )
        ]
      ];
    }

  -- Unlinking a share leaves the works of its children to be made right.
  pub unlink_share-Removing :
      (gone : ℕ → Bool) (h : ℕ) (sc : ShareChain F)
      → Removing gone sc
      → Removing (λ p. h == p || gone p) (unlink_share h sc).1
  unfolding unlink_share unlink_child
  unlink_share-Removing gone h sc r = elim (Option-cases (lookup h sc.shares)) [
    | inl absent ↦
        rw (unlink_share, absent)
          (Removing-more gone (λ p. h == p || gone p) sc (λ p out. ground (arith, out)) r)
    | inr (s, held) ↦ elim (Option-cases (next_key s)) [
      | inl root ↦
          rw (unlink_share, held, root)
            (without-Removing h s sc held gone sc.children
              (IndexedBut-same [] _ _ refl refl (root-removed h s sc held r.indexed root)) r)
      | inr (q, up) ↦
          rw (unlink_share, held, up)
            (without-Removing h s sc held gone (unlink_child h (some q) sc)
              (IndexedBut-same [] _ _ refl refl (child-removed h s sc held r.indexed q up)) r)
    ]
  ]

  pub unlink_share-lookup :
      (h x : ℕ) (sc : ShareChain F)
      → lookup x (unlink_share h sc).1.shares ≡ (if h == x then none else lookup x sc.shares)
  unfolding unlink_share
  unlink_share-lookup h x sc = elim (Option-cases (lookup h sc.shares)) [
    | inl absent ↦
        rw (unlink_share, absent)
          (elim (Bool-cases (h == x)) [
            | inl same ↦
                rw same (ground (arith, absent, ap (λ y. lookup y sc.shares) ((==_iff h x).0 same)))
            | inr other ↦ rw other refl
          ])
    | inr (s, held) ↦ rw (unlink_share, held) (lookup-erase h x sc.shares)
  ]

  -- The chain after all were unlinked.
  pub unlink_all-Removing :
      (hs : List ℕ) (gone : ℕ → Bool) (sc : ShareChain F)
      → Removing gone sc
      → Removing (λ p. in_set p hs || gone p) (unlink_all fl hs sc).1
        × ((x : ℕ)
            → lookup x (unlink_all fl hs sc).1.shares
              ≡ (if in_set x hs then none else lookup x sc.shares))
  unfolding unlink_all
  unlink_all-Removing [] gone sc r = (r, λ x. refl)
  unlink_all-Removing (h ∷ hs) gone sc r =
      let sc1 = (unlink_share h sc).1 in
      let rest =
        unlink_all-Removing hs (λ p. h == p || gone p) sc1 (unlink_share-Removing gone h sc r) in
      (
        Removing-more (λ p. in_set p hs || (h == p || gone p)) (λ p. in_set p (h ∷ hs) || gone p) _
            (λ p out. ground (arith, out)) rest.0,
        λ x. ground (arith, rest.1 x, unlink_share-lookup h x sc),
      )

  pub orphans_of-in_set :
      (sc : ShareChain F) (p c : ℕ) (hs : List ℕ)
      → in_set p hs ≡ true
      → in_set c (children_of sc p) ≡ true
      → in_set c (orphans_of fl sc hs) ≡ true
  unfolding orphans_of
  orphans_of-in_set sc p c [] at child = absurd (cc)
  orphans_of-in_set sc p c (h ∷ hs) at child = elim (Bool-cases (h == p)) [
    | inl same ↦ ground (
      arith,
      child,
      ap (λ y. in_set c (children_of sc y)) ((==_iff h p).0 same),
      in_set-union c (children_of sc h) (orphans_of fl sc hs),
    )
    | inr other ↦
        let rest = orphans_of-in_set sc p c hs (ground (arith, at, other)) child in
        ground (arith, rest, in_set-union c (children_of sc h) (orphans_of fl sc hs))
  ]

  pub Removing-frame :
      (gone : ℕ → Bool) (sc : ShareChain F) (verified : Dict ℕ Bool) (received : Dict ℕ ℤ)
      (dirty : Dict ℕ Bool) (changes : ℕ) (tip : Option ℕ)
      → Removing gone sc
      → Removing gone (record sc {
        verified = verified;
        received = received;
        dirty = dirty;
        changes = changes;
        tip_hash = tip;
      })
  unfolding parent_work
  Removing-frame gone sc verified received dirty changes tip r = record {
    indexed = IndexedBut-same [] sc _ refl refl r.indexed;
    worked = r.worked;
    bare = r.bare;
  }
