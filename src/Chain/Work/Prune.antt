-- ===== src/Chain/Work/Prune.antt =====
-- The shares that grow too old: `pruneLocked` of work/sharechain.go.
use p2pool_go_vtc.Prelude.{
  ℕ, ◌+◌, ◌≡◌, refl, ap, sym, ◌∙◌, ◌⊎◌, inl, inr, Bool, false, Option, none, some, List, [], ◌∷◌,
  length, ◌==◌, if◌then◌else◌, ◌>>=◌, Bool-cases, ==_iff, arith,
}
use p2pool_go_vtc.Prelude.Int.{ℤ, ltb_ℤ}
use p2pool_go_vtc.Prelude.Eq.{nat_Eq}
use p2pool_go_vtc.Prelude.Dict.{Dict, lookup, Distinct}
use p2pool_go_vtc.Env.{Float64}
use p2pool_go_vtc.Share.{Share}
use p2pool_go_vtc.Chain.{ShareChain}
use p2pool_go_vtc.Chain.Sync.{in_set}
use p2pool_go_vtc.Chain.Index.Consistent.{Ranked}
use p2pool_go_vtc.Chain.Work.{remove_shares}
use p2pool_go_vtc.Chain.Work.Whole.{Whole, WholeBut-frame}
use p2pool_go_vtc.Chain.Work.Whole.RemoveShares.{remove_shares-Whole}

List-cases : {A : Type 0} (xs : List A) → (xs ≡ []) ⊎ ((x : A) × (ys : List A) × (xs ≡ x ∷ ys))
List-cases [] = inl refl
List-cases (x ∷ xs) = inr (x, xs, refl)

module _ {F : Type 0} where
  abbrev pub is_old : ℤ → Share F → Bool
  is_old cutoff s = ltb_ℤ s.share_info.timestamp cutoff

  -- The loop of `pruneLocked`.
  unfoldable pub old_of : ℤ → Dict ℕ (Share F) → List ℕ
  old_of cutoff [] = []
  old_of cutoff (e ∷ shares) =
      let rest = old_of cutoff shares in if is_old cutoff e.1 then e.0 ∷ rest else rest

  -- What is left of a share after pruning.
  abbrev pub unless_old : ℤ → Option (Share F) → Option (Share F)
  unless_old cutoff at = at >>= λ s. if is_old cutoff s then none else some s

  old_of-out :
      (cutoff : ℤ) (x : ℕ) (shares : Dict ℕ (Share F))
      → lookup x shares ≡ none
      → in_set x (old_of cutoff shares) ≡ false
  unfolding old_of
  old_of-out cutoff x [] out = refl
  old_of-out cutoff x (e ∷ shares) out = elim (Bool-cases (e.0 == x)) [
    | inl same ↦ absurd (ground (arith, out, same))
    | inr other ↦
        let rest = old_of-out cutoff x shares (ground (arith, out, other)) in
        ground (arith, rest, other)
  ]

  old_of-lookup :
      (cutoff : ℤ) (x : ℕ) (shares : Dict ℕ (Share F))
      → Distinct shares
      → (if in_set x (old_of cutoff shares) then none else lookup x shares)
        ≡ unless_old cutoff (lookup x shares)
  unfolding old_of
  old_of-lookup cutoff x [] distinct = refl
  old_of-lookup cutoff x (e ∷ shares) distinct = elim (Bool-cases (e.0 == x)) [
    | inl same ↦
        let gone = ap (λ y. lookup y shares) (sym ((==_iff e.0 x).0 same)) ∙ distinct.0 in
        let rest = old_of-out cutoff x shares gone in ground (arith, rest, same)
    | inr other ↦ let rest = old_of-lookup cutoff x shares distinct.1 in ground (arith, rest, other)
  ]

module _ (fl : Float64) where
  open fl use {F}

  -- `pruneLocked`: the number of shares that were taken out, and the chain.
  unfoldable pub prune : ℤ → ShareChain F → Option (ℕ × ShareChain F)
  prune cutoff sc =
      let old = old_of cutoff sc.shares in
      if length old == 0
      then some (0, sc)
      else remove_shares fl old (record sc { changes = sc.changes + 1 }) >>= λ left.
          some (length old, left)

  -- Pruning ends; it takes out exactly the shares whose time is before the cutoff, and a chain that is
  -- whole stays whole, where no share is below itself and no hash is held twice.
  pub prune-Whole :
      (cutoff : ℤ) (sc : ShareChain F) (rank : ℕ → ℕ)
      → Distinct sc.shares
      → Ranked fl sc rank
      → Whole fl sc
      → (n : ℕ) × (sc' : ShareChain F) × (prune cutoff sc ≡ some (n, sc'))
        × ((x : ℕ) → lookup x sc'.shares ≡ unless_old cutoff (lookup x sc.shares))
        × Whole fl sc'
  unfolding prune
  prune-Whole cutoff sc rank distinct ranked whole =
      let old = old_of cutoff sc.shares in
      elim (List-cases old) [
        | inl none_is ↦ (
          0,
          sc,
          rw (prune, none_is) refl,
          λ x.
              (let kept = old_of-lookup cutoff x sc.shares distinct in
                ap (λ hs. if in_set x hs then none else lookup x sc.shares) (sym none_is) ∙ kept),
          whole,
        )
        | inr (h, hs, some_are) ↦
            let sc1 = record sc { changes = sc.changes + 1 } in
            let r = remove_shares-Whole fl old sc1 rank ranked (
              WholeBut-frame fl [] sc sc.verified sc.received sc.dirty (sc.changes + 1) sc.tip_hash
                whole) in
            let full : (length old == 0) ≡ false = rw some_are (ground arith) in
            (
              length old,
              r.0,
              rw (prune, full, r.1) refl,
              λ x. r.2 x ∙ old_of-lookup cutoff x sc.shares distinct,
              r.3,
            )
      ]
