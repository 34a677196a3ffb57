-- ===== src/Chain/Work/Whole/RemoveShares.antt =====
-- `dropWorkLocked` and `removeSharesLocked`.
use p2pool_go_vtc.Prelude.{
  ℕ, ◌≡◌, refl, Bool, false, inl, inr, none, some, List, [], ◌||◌, any, if◌then◌else◌, Bool-cases,
  arith, ap, ◌∙◌,
}
use p2pool_go_vtc.Prelude.Eq.{nat_Eq}
use p2pool_go_vtc.Prelude.Dict.{lookup}
use p2pool_go_vtc.Env.{Float64}
use p2pool_go_vtc.Share.{Share}
use p2pool_go_vtc.Chain.{ShareChain, next_key}
use p2pool_go_vtc.Chain.Sync.{in_set}
use p2pool_go_vtc.Chain.Index.{parent_work, is_tip_candidate}
use p2pool_go_vtc.Chain.Index.Visits.{with_works}
use p2pool_go_vtc.Chain.Index.Consistent.{Ranked, update_work-Worked}
use p2pool_go_vtc.Chain.Work.{unlink_all, orphans_of, drop_work, remove_shares}
use p2pool_go_vtc.Chain.Work.Frame.{select_tip-frame}
use p2pool_go_vtc.Chain.Work.Whole.{IndexedBut-Indexed, IndexedBut-same, Whole}
use p2pool_go_vtc.Chain.Work.Whole.Added.{tip-Whole}
use p2pool_go_vtc.Chain.Work.Whole.Dropped.{Removing, unlink_all-Removing, orphans_of-in_set}

module _ (fl : Float64) where
  open fl use {F}

  -- The works below removed shares are made right, and the tip is selected anew or stays.
  pub drop_work-Whole :
      (removed : List ℕ) (rescan : Bool) (sc : ShareChain F) (rank : ℕ → ℕ)
      → Ranked fl sc rank
      → Removing fl (λ p. in_set p removed) sc
      → (sc' : ShareChain F) × (drop_work fl removed rescan sc ≡ some sc')
        × (sc'.shares ≡ sc.shares)
        × (sc'.verified ≡ sc.verified)
        × Whole fl sc'
  unfolding drop_work parent_work
  drop_work-Whole removed rescan sc rank ranked r =
      let u =
        update_work-Worked fl (orphans_of fl sc removed) sc (IndexedBut-Indexed sc r.indexed) rank
          ranked (λ x out. r.worked x (λ s p at up. unremoved x s p out at up)) in
      let sc1 = with_works fl sc u.1 u.2 in
      let whole : Whole fl sc1 = record {
        indexed = IndexedBut-same [] sc sc1 refl refl r.indexed;
        worked = λ x out. u.4 x;
        bare = λ x why. elim why [
          | inl gone ↦
              let same = u.5 x gone in
              let old = r.bare x (inl gone) in (same.0 ∙ old.0, same.1 ∙ old.1)
          | inr at ↦ absurd (cc)
        ];
        stored = λ x at. absurd (cc);
      } in
      let tip = select_tip-frame fl sc1 in
      elim (Bool-cases (rescan || any (is_tip_candidate sc1) u.0)) [
        | inl again ↦ (
          record sc1 { tip_hash = tip.0 },
          rw (drop_work, u.3, again, tip.1) refl,
          refl,
          refl,
          tip-Whole fl sc1 tip.0 whole,
        )
        | inr stays ↦ (sc1, rw (drop_work, u.3, stays) refl, refl, refl, whole)
      ]
    where
      unremoved :
          (x : ℕ) (s : Share F) (p : ℕ)
          → in_set x (orphans_of fl sc removed) ≡ false
          → lookup x sc.shares ≡ some s
          → next_key s ≡ some p
          → in_set p removed ≡ false
      unremoved x s p out at up = elim (Bool-cases (in_set p removed)) [
        | inr kept ↦ kept
        | inl gone ↦ absurd (
            ground (
              arith,
              out,
              orphans_of-in_set fl sc p x removed gone (r.indexed.complete p x s at up refl),
            ))
      ]

  -- `removeSharesLocked` ends and takes exactly the given shares out; a chain that is whole stays
  -- whole, where no share is below itself.
  pub remove_shares-Whole :
      (hs : List ℕ) (sc : ShareChain F) (rank : ℕ → ℕ)
      → Ranked fl sc rank
      → Whole fl sc
      → (sc' : ShareChain F) × (remove_shares fl hs sc ≡ some sc')
        × ((x : ℕ) → lookup x sc'.shares ≡ (if in_set x hs then none else lookup x sc.shares))
        × Whole fl sc'
  unfolding remove_shares
  remove_shares-Whole hs sc rank ranked whole =
      let un =
        unlink_all-Removing fl hs (λ p. false) sc
          (record {
            indexed = whole.indexed;
            worked = λ x above. whole.worked x refl;
            bare = whole.bare;
          }) in
      let sc1 = (unlink_all fl hs sc).1 in
      let done =
        drop_work-Whole hs (unlink_all fl hs sc).0 sc1 rank
          (λ x p s t at up there.
            ranked x p s t (ground (arith, at, un.1 x)) up (ground (arith, there, un.1 p)))
          (Removing-exactly un.0) in
      (done.0, done.1, λ x. ap (λ m. lookup x m) done.2 ∙ un.1 x, done.4)
    where
      Removing-exactly :
          Removing fl (λ p. in_set p hs || false) (unlink_all fl hs sc).1
          → Removing fl (λ p. in_set p hs) (unlink_all fl hs sc).1
      Removing-exactly r = record {
        indexed = r.indexed;
        worked =
            λ x above. r.worked x (λ s p at up. (let out = above s p at up in ground (arith, out)));
        bare = r.bare;
      }
