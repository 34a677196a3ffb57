-- ===== src/Chain/Work/Whole/Stored.antt =====
-- A share that is stored and not indexed yet.
use p2pool_go_vtc.Prelude.{
  ℕ, ◌≡◌, refl, true, false, ◌⊎◌, inl, inr, none, some, List, ◌∷◌, ◌==◌, ==_iff, Bool-cases,
  Option-cases, arith, ap, subst,
}
use p2pool_go_vtc.Prelude.Eq.{nat_Eq}
use p2pool_go_vtc.Prelude.Dict.{lookup, has, get_or, insert, lookup-insert}
use p2pool_go_vtc.Env.{Float64}
use p2pool_go_vtc.Share.{Share}
use p2pool_go_vtc.Chain.{ShareChain, next_key}
use p2pool_go_vtc.Chain.Sync.{in_set}
use p2pool_go_vtc.Chain.Index.{parent_work}
use p2pool_go_vtc.Chain.Work.Whole.{IndexedBut, WholeBut}

module _ (fl : Float64) where
  open fl use {F, lit}

  module _ (pend : List ℕ) (sc : ShareChain F) (whole : WholeBut fl pend sc) (h : ℕ) (t : Share F)
      (new : has h sc.shares ≡ false) where
    abbrev stored : ShareChain F
    stored = record sc { shares = insert h t sc.shares }

    old_share :
        (x : ℕ) (s : Share F)
        → lookup x stored.shares ≡ some s
        → h == x ≡ false
        → lookup x sc.shares ≡ some s
    old_share x s at other = ground (arith, at, other, lookup-insert h x t sc.shares)

    stored-IndexedBut : IndexedBut (h ∷ pend) stored
    stored-IndexedBut = record {
      once = whole.indexed.once;
      sound = λ p c at.
          let s = whole.indexed.sound p c at in
          elim (Bool-cases (h == c)) [
            | inl same ↦
                absurd
                  (ground (arith, new, s.2, ap (λ y. lookup y sc.shares) ((==_iff h c).0 same)))
            | inr other ↦ (
              ground (arith, other, s.0),
              s.1,
              ground (arith, other, s.2, lookup-insert h c t sc.shares),
              s.3,
            )
          ];
      complete = λ p c s at up out.
          whole.indexed.complete p c s (old_share c s at (ground (arith, out))) up
            (ground (arith, out));
    }

    -- A share that was just stored has no work, as one that is not held.
    parent_work-stored : (s : Share F) → parent_work fl stored s ≡ parent_work fl sc s
    unfolding parent_work
    parent_work-stored s = elim (Option-cases (next_key s)) [
      | inl root ↦ rw (parent_work, root) refl
      | inr (p, up) ↦ elim (Bool-cases (h == p)) [
        | inl same ↦
            let key = (==_iff h p).0 same in
            let bare = whole.bare p (inl (subst (λ y. has y sc.shares ≡ false) key new)) in
            let gone : lookup p sc.shares ≡ none =
              ground (arith, new, ap (λ y. lookup y sc.shares) key) in
            let here : lookup p (insert h t sc.shares) ≡ some t =
              ground (arith, same, lookup-insert h p t sc.shares) in
            let work : get_or (lit 0 1) p sc.cum_work ≡ lit 0 1 = rw (get_or, bare.0) refl in
            let size : get_or 0 p sc.chain_len ≡ 0 = rw (get_or, bare.1) refl in
            rw (parent_work, up, gone, here) (λ i. (work i, size i))
        | inr other ↦
            let here : lookup p (insert h t sc.shares) ≡ lookup p sc.shares =
              ground (arith, other, lookup-insert h p t sc.shares) in
            rw (parent_work, up, here) refl
      ]
    ]

    pub stored-WholeBut : WholeBut fl (h ∷ pend) stored
    stored-WholeBut = record {
      indexed = stored-IndexedBut;
      worked = λ x out s at.
          rw (parent_work-stored s)
            (whole.worked x (ground (arith, out)) s (old_share x s at (ground (arith, out))));
      bare = λ x why. whole.bare x (why_bare x why);
      stored = λ x at. ground (arith, at, whole.stored x, lookup-insert h x t sc.shares);
    }
      where
        why_bare :
            (x : ℕ)
            → (has x stored.shares ≡ false) ⊎ (in_set x (h ∷ pend) ≡ true)
            → (has x sc.shares ≡ false) ⊎ (in_set x pend ≡ true)
        why_bare x (inl out) = inl (ground (arith, out, lookup-insert h x t sc.shares))
        why_bare x (inr at) = elim (Bool-cases (h == x)) [
          | inl same ↦ inl (subst (λ y. has y sc.shares ≡ false) ((==_iff h x).0 same) new)
          | inr other ↦ inr (ground (arith, at, other))
        ]
