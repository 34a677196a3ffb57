-- ===== src/Chain/Index/Visits.antt =====
-- The visits of the last loop of `updateWorkLocked`.
use p2pool_go_vtc.Prelude.{
  ℕ, zero, suc, ◌+◌, ◌≤◌, ◌≡◌, ◌≢◌, Bool, true, false, ◌||◌, some, List, [], ◌∷◌, ◌++◌, length,
  length-append, ◌==◌, arith, Bool-cases, inl, inr, ==_iff, ap,
}
use p2pool_go_vtc.Prelude.Eq.{nat_Eq}
use p2pool_go_vtc.Prelude.Dict.{Dict, lookup, lookup-insert}
use p2pool_go_vtc.Env.{Float64}
use p2pool_go_vtc.Share.{Share}
use p2pool_go_vtc.Chain.{ShareChain, next_key}
use p2pool_go_vtc.Chain.Sync.{in_set}
use p2pool_go_vtc.Chain.Sync.Replies.{AllNew}
use p2pool_go_vtc.Chain.Index.{children_of, parent_work, own_work, set_work, work_loop}
use p2pool_go_vtc.Chain.Index.Sets.{in_set-union, AllNew-union, children_left, children_left-pass}
use p2pool_go_vtc.Chain.Index.Indexed.{Indexed}
use p2pool_go_vtc.Chain.Index.Works.{Worked, set_work-Worked}

module _ (fl : Float64) where
  open fl use {F, fadd, lit}

  -- The chain with other works and lengths.
  abbrev pub with_works : ShareChain F → Dict ℕ F → Dict ℕ ℕ → ShareChain F
  with_works sc works sizes = record sc { cum_work = works; chain_len = sizes }

  module _ (sc : ShareChain F) (index : Indexed sc) (all roots : List ℕ)
      (held : (x : ℕ) → in_set x all ≡ true → (s : Share F) × (lookup x sc.shares ≡ some s))
      (below : (h c : ℕ)
        → in_set h all ≡ true
        → in_set c (children_of sc h) ≡ true
        → in_set c all ≡ true) where
    -- Was the share visited, or is it to be?
    abbrev met : List ℕ → List ℕ → ℕ → Bool
    met done q x = in_set x done || in_set x q

    -- The loop at some point: the shares visited and the queue.
    pub record Visiting (done q : List ℕ) (works : Dict ℕ F) (sizes : Dict ℕ ℕ) : Type 0 where
      pub new : AllNew q
      pub apart : (x : ℕ) → in_set x q ≡ true → in_set x done ≡ false
      pub inside : (x : ℕ) → met done q x ≡ true → in_set x all ≡ true
      pub parents :
          (x : ℕ) (s : Share F) (p : ℕ)
          → met done q x ≡ true
          → lookup x sc.shares ≡ some s
          → next_key s ≡ some p
          → in_set p all ≡ true
          → in_set p done ≡ true
      pub right : (x : ℕ) → in_set x done ≡ true → Worked fl (with_works sc works sizes) x
      pub children :
          (h c : ℕ)
          → in_set h done ≡ true
          → in_set c (children_of sc h) ≡ true
          → met done q c ≡ true
      pub others :
          (x : ℕ)
          → in_set x done ≡ false
          → (lookup x works ≡ lookup x sc.cum_work) × (lookup x sizes ≡ lookup x sc.chain_len)
      pub seeded : (x : ℕ) → in_set x roots ≡ true → met done q x ≡ true

    module _ (done q : List ℕ) (h : ℕ) (works : Dict ℕ F) (sizes : Dict ℕ ℕ)
        (v : Visiting done (h ∷ q) works sizes) where
      head_new : in_set h done ≡ false
      head_new = v.apart h (ground arith)

      -- A child of the head was not met.
      child_new : (c : ℕ) → in_set c (children_of sc h) ≡ true → met done (h ∷ q) c ≡ false
      child_new c at = elim (Bool-cases (met done (h ∷ q) c)) [
        | inr new ↦ new
        | inl old ↦
            let s = index.sound h c at in
            absurd
              (ground (arith, head_new, v.parents c s.0 h old s.1 s.2 (v.inside h (ground arith))))
      ]

      met-still :
          (x : ℕ) → met done (h ∷ q) x ≡ true → met (h ∷ done) (q ++ children_of sc h) x ≡ true
      met-still x at = ground (arith, at, in_set-union x q (children_of sc h))

      met-before :
          (P : ℕ → Type 0)
          → ((x : ℕ) → met done (h ∷ q) x ≡ true → P x)
          → ((x : ℕ) → in_set x (children_of sc h) ≡ true → P x)
          → (x : ℕ) → met (h ∷ done) (q ++ children_of sc h) x ≡ true
          → P x
      met-before P old child x at = elim (Bool-cases (met done (h ∷ q) x)) [
        | inl before ↦ old x before
        | inr now ↦ child x (ground (arith, at, now, in_set-union x q (children_of sc h)))
      ]

      -- No met share has the head as its parent.
      head_last :
          (x : ℕ) (s : Share F)
          → met done (h ∷ q) x ≡ true
          → lookup x sc.shares ≡ some s
          → next_key s ≢ some h
      head_last x s at there up =
          absurd (ground (arith, head_new, v.parents x s h at there up (v.inside h (ground arith))))

      visit-Visiting :
          (s : Share F)
          → lookup h sc.shares ≡ some s
          → Visiting
              (h ∷ done)
              (q ++ children_of sc h)
              (set_work fl h s (with_works sc works sizes)).cum_work
              (set_work fl h s (with_works sc works sizes)).chain_len
      unfolding set_work
      visit-Visiting s here =
          let cs = children_of sc h in
          let sc' = with_works sc works sizes in
          let pw = parent_work fl sc' s in
          let own = own_work fl s in
          record {
            new = AllNew-union q cs v.new.1 (index.once h) (λ x at.
                elim (Bool-cases (in_set x cs)) [
                  | inr out ↦ out
                  | inl child ↦ absurd (ground (arith, at, child_new x child))
                ]);
            apart = λ x at. elim (Bool-cases (in_set x cs)) [
              | inl child ↦ ground (arith, child_new x child)
              | inr other ↦
                  let waits : in_set x q ≡ true = ground (arith, at, other, in_set-union x q cs) in
                  elim (Bool-cases (h == x)) [
                    | inl same ↦
                        absurd (
                          ground
                            (arith, waits, v.new.0, ap (λ y. in_set y q) ((==_iff h x).0 same)))
                    | inr apart ↦ ground (arith, apart, waits, v.apart x)
                  ]
            ];
            inside =
                met-before (λ x. in_set x all ≡ true) v.inside
                  (λ x child. below h x (v.inside h (ground arith)) child);
            parents = λ x t p at there up up_in.
                met-before (λ x. lookup x sc.shares ≡ some t → in_set p (h ∷ done) ≡ true)
                  (λ x before there. ground (arith, v.parents x t p before there up up_in))
                  (λ x child there.
                    let s' = index.sound h x child in
                    let same : s'.0 ≡ t = ground (arith, s'.1, there) in
                    let key : h ≡ p = ground (arith, s'.2, up, ap next_key same) in
                    ground (arith, (==_iff h p).1 key))
                  x at there;
            right = λ x at.
                set_work-Worked fl h x s sc' here
                  (λ t there. head_last x t (ground (arith, at)) there)
                  (λ apart. v.right x (ground (arith, at, apart, ==_iff h x)));
            children = λ g c at child. elim (Bool-cases (h == g)) [
              | inl same ↦ ground (
                arith,
                child,
                ap (λ y. in_set c (children_of sc y)) ((==_iff h g).0 same),
                in_set-union c q cs,
              )
              | inr other ↦ met-still c (v.children g c (ground (arith, at, other)) child)
            ];
            others = λ x out.
                let old = v.others x (ground (arith, out)) in
                (
                  ground (arith, out, old.0, lookup-insert h x (fadd pw.0 own.0) works),
                  ground (arith, out, old.1, lookup-insert h x (pw.1 + own.1) sizes),
                );
            seeded = λ x at. met-still x (v.seeded x at);
          }

    -- With fuel for the queue and the children lists that are left, the loop ends with an empty queue.
    pub work_loop-Visiting :
        (fuel : ℕ) (done q : List ℕ) (works : Dict ℕ F) (sizes : Dict ℕ ℕ)
        → Visiting done q works sizes
        → length q + children_left sc.children done ≤ fuel
        → (done' : List ℕ) × (works' : Dict ℕ F) × (sizes' : Dict ℕ ℕ) × (work_loop fl fuel q
              (with_works sc works sizes)
            ≡ some (with_works sc works' sizes'))
          × Visiting done' [] works' sizes'
    unfolding work_loop set_work
    work_loop-Visiting fuel done [] works sizes v enough = (done, works, sizes, ground arith, v)
    work_loop-Visiting zero done (h ∷ q) works sizes v enough = absurd (omega (arith, enough))
    work_loop-Visiting (suc fuel) done (h ∷ q) works sizes v enough =
        let here = held h (v.inside h (ground arith)) in
        let sc' = set_work fl h here.0 (with_works sc works sizes) in
        let rest =
          work_loop-Visiting fuel (h ∷ done) (q ++ children_of sc h) sc'.cum_work sc'.chain_len
            (visit-Visiting done q h works sizes v here.0 here.1)
            (omega (
              arith,
              enough,
              length-append q (children_of sc h),
              children_left-pass sc.children h done (v.apart h (ground arith)),
            )) in
        (rest.0, rest.1, rest.2, rw (work_loop, here.1) (rest.3), rest.4)
