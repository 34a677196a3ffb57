-- ===== src/Sample/Whole.antt =====
-- The short chain with its index and works made anew.
use p2pool_go_vtc.Chain.Index.{
  link, update_work, descend, held_once, child_count, roots_of, work_loop, set_work,
  is_tip_candidate, parent_work, own_work,
}
use p2pool_go_vtc.Prelude.{
  ℕ, ◌<◌, ◌≡◌, refl, none, some, [], ◌∷◌, ◌==◌, Bool-cases, inl, inr, ==_iff, arith, ap, sym, ◌∙◌,
  All, subst,
}
use p2pool_go_vtc.Prelude.Eq.{nat_Eq}
use p2pool_go_vtc.Prelude.Dict.{Dict, lookup}
use p2pool_go_vtc.Share.{Share, get_prev_key, get_target_diff, target_to_diff}
use p2pool_go_vtc.Chain.{ShareChain, next_key}
use p2pool_go_vtc.Chain.Index.Consistent.{Ranked}
use p2pool_go_vtc.Chain.Work.{
  recompute_work_and_tip, link_all, select_tip, best_of, try_tip, beats, better_tip,
}
use p2pool_go_vtc.Chain.Work.Whole.{Whole}
use p2pool_go_vtc.Chain.Work.Whole.Rebuilt.{recompute_work_and_tip-Whole}
use p2pool_go_vtc.Sample.{milli, trio}

-- What holds of all entries holds of the share under a hash.
pub All-lookup :
    (P : ℕ → Share ℕ → Type 0) (shares : Dict ℕ (Share ℕ)) (x : ℕ) (s : Share ℕ)
    → All (λ e. P e.0 e.1) shares
    → lookup x shares ≡ some s
    → P x s
All-lookup P [] x s all at = absurd (ground (arith, at))
All-lookup P (e ∷ shares) x s all at = elim (Bool-cases (e.0 == x)) [
  | inl same ↦
      let here : e.1 ≡ s = ground (arith, at, same) in
      subst (λ y. P y s) ((==_iff e.0 x).0 same) (subst (P e.0) here all.0)
  | inr other ↦ All-lookup P shares x s all.1 (ground (arith, at, other))
]

-- Where every share names a parent with a smaller hash, hashes are ranks.
pub All-Ranked :
    (shares : Dict ℕ (Share ℕ)) (x p : ℕ) (s : Share ℕ)
    → All (λ e. (q : ℕ) → next_key e.1 ≡ some q → q < e.0) shares
    → lookup x shares ≡ some s
    → next_key s ≡ some p
    → p < x
All-Ranked shares x p s all at up =
    All-lookup (λ y t. (q : ℕ) → next_key t ≡ some q → q < y) shares x s all at p up

pub trio-Ranked : Ranked milli trio (λ x. x)
unfolding get_prev_key
trio-Ranked x p s t at up there =
    All-Ranked trio.shares x p s
      (λ q e. ground (arith, e), (λ q e. ground (arith, e), (λ q e. ground (arith, e), tt))) at up

-- The chain that the recomputation makes.
abbrev pub rebuilt : ShareChain ℕ
rebuilt = record trio {
  children = (2, 3 ∷ []) ∷ (1, 2 ∷ []) ∷ [];
  cum_work = (1, 1000) ∷ (2, 2000) ∷ (3, 3000) ∷ [];
  chain_len = (1, 1) ∷ (2, 2) ∷ (3, 3) ∷ [];
  tip_hash = some 3;
}

rebuilt-trio : recompute_work_and_tip milli trio ≡ some rebuilt
unfolding recompute_work_and_tip link_all link update_work descend held_once child_count roots_of
    work_loop set_work select_tip best_of try_tip is_tip_candidate parent_work own_work beats
    better_tip get_target_diff target_to_diff get_prev_key
rebuilt-trio = refl

pub same_some : {A : Type 0} → {a b : A} → some a ≡ some b → a ≡ b
same_some {A} {a} {b} e = ap (λ o. elim o [ none ↦ a | some x ↦ x ]) e

pub rebuilt-Whole : Whole milli rebuilt
rebuilt-Whole =
    let r =
      recompute_work_and_tip-Whole milli trio (λ x. x) (refl, (refl, (refl, tt))) trio-Ranked in
    subst (Whole milli) (same_some (sym r.1 ∙ rebuilt-trio)) r.5
