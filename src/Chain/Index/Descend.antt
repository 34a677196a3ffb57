-- ===== src/Chain/Index/Descend.antt =====
-- The first loops of `updateWorkLocked`: the shares to update.
use p2pool_go_vtc.Prelude.{
  ℕ, zero, suc, ◌+◌, ◌≤◌, ◌≡◌, refl, true, false, ◌||◌, some, List, [], ◌∷◌, ◌++◌, length,
  length-append, ◌==◌, arith, Bool-cases, inl, inr, ==_iff, ap,
}
use p2pool_go_vtc.Prelude.Eq.{nat_Eq}
use p2pool_go_vtc.Prelude.Dict.{Dict, get_or}
use p2pool_go_vtc.Chain.Sync.{in_set}
use p2pool_go_vtc.Chain.Sync.Replies.{AllNew}
use p2pool_go_vtc.Chain.Index.{fresh_of, descend, child_count}
use p2pool_go_vtc.Chain.Index.Sets.{
  in_set-union, AllNew-union, fresh_of-in_set, fresh_of-AllNew, length-fresh_of, children_left,
  children_left-none, children_left-pass,
}

module _ (children : Dict ℕ (List ℕ)) where
  -- A set of different hashes, with all children of its members, that holds the seeds, and nothing
  -- that is not a seed or below one.
  pub record Below (seeds all : List ℕ) : Type 1 where
    pub new : AllNew all
    pub seeded : (x : ℕ) → in_set x seeds ≡ true → in_set x all ≡ true
    pub closed :
        (h c : ℕ)
        → in_set h all ≡ true
        → in_set c (get_or [] h children) ≡ true
        → in_set c all ≡ true
    pub only :
        (P : ℕ → Type 0)
        → ((x : ℕ) → in_set x seeds ≡ true → P x)
        → ((h c : ℕ) → P h → in_set c (get_or [] h children) ≡ true → P c)
        → (x : ℕ) → in_set x all ≡ true
        → P x

  -- The loop at some point: the entries that it passed, and those to come.
  pub record Passed (done todo all : List ℕ) : Type 0 where
    pub new : AllNew all
    pub todo_new : AllNew todo
    pub split : (x : ℕ) → in_set x all ≡ in_set x done || in_set x todo
    pub apart : (x : ℕ) → in_set x todo ≡ true → in_set x done ≡ false
    pub closed :
        (h c : ℕ)
        → in_set h done ≡ true
        → in_set c (get_or [] h children) ≡ true
        → in_set c all ≡ true

  pass-Passed :
      (done todo all : List ℕ) (h : ℕ)
      → Passed done (h ∷ todo) all
      → Passed
          (h ∷ done)
          (todo ++ fresh_of all (get_or [] h children))
          (all ++ fresh_of all (get_or [] h children))
  pass-Passed done todo all h p =
      let cs = get_or [] h children in
      record {
        new =
            AllNew-union all (fresh_of all cs) p.new (fresh_of-AllNew all cs)
              (λ x at. ground (arith, at, fresh_of-in_set x all cs));
        todo_new =
            AllNew-union todo (fresh_of all cs) p.todo_new.1 (fresh_of-AllNew all cs)
              (λ x at. ground (arith, at, p.split x, fresh_of-in_set x all cs));
        split = λ x. ground (
          arith,
          p.split x,
          in_set-union x all (fresh_of all cs),
          in_set-union x todo (fresh_of all cs),
        );
        apart = λ x at. elim (Bool-cases (h == x)) [
          | inl same ↦
              let key = (==_iff h x).0 same in
              ground (
                arith,
                same,
                at,
                ap (λ y. in_set y todo) key,
                ap (λ y. in_set y all) key,
                p.todo_new.0,
                p.split h,
                in_set-union x todo (fresh_of all cs),
                fresh_of-in_set x all cs,
              )
          | inr other ↦ ground (
            arith,
            other,
            at,
            p.apart x,
            p.split x,
            in_set-union x todo (fresh_of all cs),
            fresh_of-in_set x all cs,
          )
        ];
        closed = λ g c at below. elim (Bool-cases (h == g)) [
          | inl same ↦ ground (
            arith,
            below,
            ap (λ y. in_set c (get_or [] y children)) ((==_iff h g).0 same),
            in_set-union c all (fresh_of all cs),
            fresh_of-in_set c all cs,
          )
          | inr other ↦
              ground (arith, other, at, below, p.closed g c, in_set-union c all (fresh_of all cs))
        ];
      }

  only_below :
      (all cs : List ℕ) (P : ℕ → Type 0)
      → ((x : ℕ) → in_set x all ≡ true → P x)
      → ((x : ℕ) → in_set x cs ≡ true → P x)
      → (x : ℕ) → in_set x (all ++ fresh_of all cs) ≡ true
      → P x
  only_below all cs P old new x at = elim (Bool-cases (in_set x all)) [
    | inl known ↦ old x known
    | inr fresh ↦
        new x (
          ground (arith, at, fresh, in_set-union x all (fresh_of all cs), fresh_of-in_set x all cs))
  ]

  descend-Passed :
      (fuel : ℕ) (done todo all : List ℕ)
      → Passed done todo all
      → length todo + children_left children done ≤ fuel
      → (all' : List ℕ) × (descend children fuel todo all ≡ some all') × Below all all'
  unfolding descend
  descend-Passed fuel done [] all p enough = (
    all,
    ground arith,
    record {
      new = p.new;
      seeded = λ x at. at;
      closed = λ h c at below. p.closed h c (ground (arith, at, p.split h)) below;
      only = λ P seeds step x at. seeds x at;
    },
  )
  descend-Passed zero done (h ∷ todo) all p enough = absurd (omega (arith, enough))
  descend-Passed (suc fuel) done (h ∷ todo) all p enough =
      let cs = get_or [] h children in
      let rest =
        descend-Passed fuel (h ∷ done) (todo ++ fresh_of all cs) (all ++ fresh_of all cs)
          (pass-Passed done todo all h p)
          (omega (
            arith,
            enough,
            length-append todo (fresh_of all cs),
            length-fresh_of all cs,
            children_left-pass children h done (p.apart h (ground arith)),
          )) in
      (
        rest.0,
        rest.1,
        record {
          new = rest.2.new;
          seeded =
              λ x at. rest.2.seeded x (ground (arith, at, in_set-union x all (fresh_of all cs)));
          closed = rest.2.closed;
          only = λ P seeds step.
              rest.2.only P
                (only_below all cs P seeds
                  (λ c at. step h c (seeds h (ground (arith, p.split h))) at))
                step;
        },
      )

  -- With fuel for the seeds and all children lists, the loop ends, whatever the index is: with the
  -- seeds and all that is below them, each once.
  pub descend-Below :
      (fuel : ℕ) (seeds : List ℕ)
      → AllNew seeds
      → length seeds + child_count children ≤ fuel
      → (all : List ℕ) × (descend children fuel seeds seeds ≡ some all) × Below seeds all
  descend-Below fuel seeds new enough =
      descend-Passed fuel [] seeds seeds
        (record {
          new = new;
          todo_new = new;
          split = λ x. refl;
          apart = λ x at. refl;
          closed = λ h c at below. absurd (cc);
        })
        (omega (arith, enough, children_left-none children))
