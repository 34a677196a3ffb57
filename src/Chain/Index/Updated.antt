-- ===== src/Chain/Index/Updated.antt =====
-- What `updateWorkLocked` does.
use p2pool_go_vtc.Prelude.{
  ℕ, ◌+◌, ◌≡◌, refl, true, ◌&&◌, some, List, [], ◌∷◌, length, length-filter-le, ◌==◌, arith,
  Bool-cases, Option-cases, inl, inr, ==_iff, ap, filter,
}
use p2pool_go_vtc.Prelude.Eq.{nat_Eq}
use p2pool_go_vtc.Prelude.Dict.{Dict, lookup, has}
use p2pool_go_vtc.Env.{Float64}
use p2pool_go_vtc.Share.{Share}
use p2pool_go_vtc.Chain.{ShareChain}
use p2pool_go_vtc.Chain.Sync.{in_set}
use p2pool_go_vtc.Chain.Sync.Replies.{AllNew}
use p2pool_go_vtc.Chain.Index.{children_of, held_once, update_work, child_count}
use p2pool_go_vtc.Chain.Index.Sets.{
  fresh_of-in_set, fresh_of-AllNew, length-fresh_of, children_left-none,
}
use p2pool_go_vtc.Chain.Index.Descend.{Below, descend-Below}
use p2pool_go_vtc.Chain.Index.Indexed.{Indexed}
use p2pool_go_vtc.Chain.Index.Roots.{Roots, roots_of-Roots}
use p2pool_go_vtc.Chain.Index.Visits.{with_works, Visiting, work_loop-Visiting}

module _ {F : Type 0} (sc : ShareChain F) where
  in_set-held :
      (x : ℕ) (hs : List ℕ)
      → in_set x (filter (λ h. has h sc.shares) hs) ≡ in_set x hs && has x sc.shares
  in_set-held x [] = refl
  in_set-held x (h ∷ hs) = elim (Bool-cases (h == x)) [
    | inl same ↦
        ground (arith, same, ap (λ y. has y sc.shares) ((==_iff h x).0 same), in_set-held x hs)
    | inr other ↦ ground (arith, other, in_set-held x hs)
  ]

  pub held_once-in_set :
      (x : ℕ) (hs : List ℕ) → in_set x (held_once sc hs) ≡ in_set x hs && has x sc.shares
  unfolding held_once
  held_once-in_set x hs =
      ground (arith, fresh_of-in_set x [] (filter (λ h. has h sc.shares) hs), in_set-held x hs)

  pub has_share : (x : ℕ) → has x sc.shares ≡ true → (s : Share F) × (lookup x sc.shares ≡ some s)
  has_share x at = elim (Option-cases (lookup x sc.shares)) [
    | inl gone ↦ absurd (ground (arith, at, gone))
    | inr found ↦ found
  ]

module _ (fl : Float64) where
  open fl use {F, fadd, lit}

  -- What was updated: all held shares among some, with all shares below them, each once. Those have
  -- been visited, except the ones on a cycle.
  pub record Update (hs : List ℕ) (sc : ShareChain F) (index : Indexed sc) : Type 1 where
    pub all : List ℕ
    pub works : Dict ℕ F
    pub sizes : Dict ℕ ℕ
    pub result : update_work fl hs sc ≡ some (all, with_works fl sc works sizes)
    pub below : Below sc.children (held_once sc hs) all
    pub held : (x : ℕ) → in_set x all ≡ true → (s : Share F) × (lookup x sc.shares ≡ some s)
    pub roots : List ℕ
    pub parentless : Roots sc all all roots
    pub visited : List ℕ
    pub visits : Visiting fl sc index all roots held below.closed visited [] works sizes

  Roots-Visiting :
      (sc : ShareChain F) (index : Indexed sc) (all roots : List ℕ)
      (held : (x : ℕ) → in_set x all ≡ true → (s : Share F) × (lookup x sc.shares ≡ some s))
      (below : (h c : ℕ)
        → in_set h all ≡ true
        → in_set c (children_of sc h) ≡ true
        → in_set c all ≡ true)
      → AllNew all
      → Roots sc all all roots
      → Visiting fl sc index all roots held below [] roots sc.cum_work sc.chain_len
  Roots-Visiting sc index all roots held below new r = record {
    new = r.new new;
    apart = λ x at. refl;
    inside = r.among;
    parents = λ x s p at there up inside. absurd (ground (arith, inside, r.free x at s p there up));
    right = λ x at. absurd (cc);
    children = λ h c at child. absurd (cc);
    others = λ x out. (refl, refl);
    seeded = λ x at. at;
  }

  pub update_work-Update :
      (hs : List ℕ) (sc : ShareChain F) (index : Indexed sc) → Update hs sc index
  unfolding update_work held_once
  update_work-Update hs sc index =
      let m = sc.children in
      let seeds = held_once sc hs in
      let found =
        descend-Below m (length hs + child_count m + 1) seeds
          (fresh_of-AllNew [] (filter (λ h. has h sc.shares) hs))
          (omega (
            arith,
            length-fresh_of [] (filter (λ h. has h sc.shares) hs),
            length-filter-le (λ h. has h sc.shares) hs,
          )) in
      let held : (x : ℕ) → in_set x found.0 ≡ true → (s : Share F) × (lookup x sc.shares ≡ some s) =
        λ x at.
          found.2.only (λ y. (s : Share F) × (lookup y sc.shares ≡ some s))
            (λ y seed. has_share sc y (ground (arith, seed, held_once-in_set sc y hs)))
            (λ h c at child. let s = index.sound h c child in (s.0, s.1)) x at in
      let rooted = roots_of-Roots sc found.0 found.0 held in
      let done =
        work_loop-Visiting fl sc index found.0 rooted.0 held found.2.closed
          (length found.0 + child_count m) [] rooted.0 sc.cum_work sc.chain_len
          (Roots-Visiting sc index found.0 rooted.0 held found.2.closed found.2.new rooted.2)
          (omega (arith, rooted.2.few, children_left-none m)) in
      record {
        all = found.0;
        works = done.1;
        sizes = done.2;
        result = rw (update_work, found.1, rooted.1, done.3) refl;
        below = found.2;
        held = held;
        roots = rooted.0;
        parentless = rooted.2;
        visited = done.0;
        visits = done.4;
      }
