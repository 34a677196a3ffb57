-- ===== src/Chain/Work/Whole/Rebuilt.antt =====
-- `recomputeWorkAndTipLocked`.
use p2pool_go_vtc.Prelude.{ℕ, ◌≡◌, refl, inl, inr, some, [], ◌∷◌, arith}
use p2pool_go_vtc.Prelude.Eq.{nat_Eq}
use p2pool_go_vtc.Prelude.Dict.{Dict, keys, has, Distinct}
use p2pool_go_vtc.Env.{Float64}
use p2pool_go_vtc.Chain.{ShareChain}
use p2pool_go_vtc.Chain.Sync.{in_set}
use p2pool_go_vtc.Chain.Sync.Replies.{AllNew}
use p2pool_go_vtc.Chain.Index.{parent_work}
use p2pool_go_vtc.Chain.Index.Visits.{with_works}
use p2pool_go_vtc.Chain.Index.Consistent.{Ranked, update_work-Worked}
use p2pool_go_vtc.Chain.Work.{recompute_work_and_tip}
use p2pool_go_vtc.Chain.Work.Frame.{select_tip-frame}
use p2pool_go_vtc.Chain.Work.Whole.{IndexedBut, IndexedBut-Indexed, IndexedBut-same, Whole}
use p2pool_go_vtc.Chain.Work.Whole.Added.{link_all-IndexedBut, tip-Whole}

in_set-keys : {V : Type 0} → (x : ℕ) (m : Dict ℕ V) → in_set x (keys m) ≡ has x m
in_set-keys x [] = refl
in_set-keys x (e ∷ m) = ground (arith, in_set-keys x m)

AllNew-keys : {V : Type 0} → (m : Dict ℕ V) → Distinct m → AllNew (keys m)
AllNew-keys [] d = tt
AllNew-keys (e ∷ m) d = (ground (arith, in_set-keys e.0 m, d.0), AllNew-keys m d.1)

module _ (fl : Float64) where
  open fl use {F}

  empty-IndexedBut :
      (sc : ShareChain F)
      → IndexedBut (keys sc.shares) (record sc { children = []; cum_work = []; chain_len = [] })
  empty-IndexedBut sc = record {
    once = λ p. tt;
    sound = λ p c at. absurd (cc);
    complete = λ p c s at up out. absurd (ground (arith, at, out, in_set-keys c sc.shares));
  }

  -- `recomputeWorkAndTipLocked` ends and makes any chain whole, whatever its index and works were,
  -- where no share is below itself; its shares stay.
  pub recompute_work_and_tip-Whole :
      (sc : ShareChain F) (rank : ℕ → ℕ)
      → Distinct sc.shares
      → Ranked fl sc rank
      → (sc' : ShareChain F) × (recompute_work_and_tip fl sc ≡ some sc')
        × (sc'.shares ≡ sc.shares)
        × (sc'.verified ≡ sc.verified)
        × (sc'.dirty ≡ sc.dirty)
        × Whole fl sc'
  unfolding recompute_work_and_tip parent_work
  recompute_work_and_tip-Whole sc rank distinct ranked =
      let hs = keys sc.shares in
      let sc0 = record sc { children = []; cum_work = []; chain_len = [] } in
      let linked =
        link_all-IndexedBut fl hs sc0 (AllNew-keys sc.shares distinct)
          (λ x at. ground (arith, at, in_set-keys x sc.shares)) (empty-IndexedBut sc) in
      let sc1 = record sc0 { children = linked.0 } in
      let u =
        update_work-Worked fl hs sc1 (IndexedBut-Indexed sc1 linked.2) rank ranked
          (λ x out s at. absurd (ground (arith, out, at, in_set-keys x sc.shares))) in
      let sc2 = with_works fl sc1 u.1 u.2 in
      let tip = select_tip-frame fl sc2 in
      (
        record sc2 { tip_hash = tip.0 },
        rw (recompute_work_and_tip, linked.1, u.3, tip.1) refl,
        refl,
        refl,
        refl,
        tip-Whole fl sc2 tip.0 (record {
          indexed = IndexedBut-same [] sc1 sc2 refl refl linked.2;
          worked = λ x out. u.4 x;
          bare = λ x why. elim why [ inl gone ↦ u.5 x gone | inr at ↦ absurd (cc) ];
          stored = λ x at. absurd (cc);
        }),
      )
