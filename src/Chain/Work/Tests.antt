-- ===== src/Chain/Work/Tests.antt =====
-- The theorems on the index and the tip, at three verified shares.
use p2pool_go_vtc.Prelude.{ℕ, ◌≡◌, ◌⊎◌, refl, some, true, false, [], ◌∷◌, arith}
use p2pool_go_vtc.Prelude.Int.{pos}
use p2pool_go_vtc.Prelude.Eq.{nat_Eq}
use p2pool_go_vtc.Prelude.Dict.{lookup}
use p2pool_go_vtc.Chain.{ShareChain}
use p2pool_go_vtc.Chain.Sync.{in_set}
use p2pool_go_vtc.Chain.Index.{is_tip_candidate}
use p2pool_go_vtc.Chain.Work.{better_tip, beats, hash_of, select_tip, standing_tip, consider_tip}
use p2pool_go_vtc.Chain.Work.Tip.{Ordered, Top, select_tip-Top, consider_tip-select_tip}
use p2pool_go_vtc.Chain.Work.Whole.{Whole}
use p2pool_go_vtc.Chain.Work.Prune.{unless_old, prune, prune-Whole}
use p2pool_go_vtc.Sample.Whole.{trio-Ranked, rebuilt, rebuilt-Whole}
use p2pool_go_vtc.Sample.{milli, trio}

-- The three shares, verified and indexed; the tip is still the second.
abbrev indexed : ShareChain ℕ
indexed = record trio {
  verified = (1, true) ∷ (2, true) ∷ (3, true) ∷ [];
  cum_work = (1, 1000) ∷ (2, 2000) ∷ (3, 3000) ∷ [];
  chain_len = (1, 1) ∷ (2, 2) ∷ (3, 3) ∷ [];
  children = (1, 2 ∷ []) ∷ (2, 3 ∷ []) ∷ [];
  tip_hash = some 2;
}

indexed-Ordered : Ordered milli indexed
unfolding better_tip
indexed-Ordered = record {
  irrefl = λ h c. ground arith;
  not_better = λ x b h c d e p q. ground arith;
  total = λ g h c d p q. ground arith;
}

third_candidate : is_tip_candidate indexed 3 ≡ true
unfolding is_tip_candidate
third_candidate = refl

select_tip-Top_example :
    (s : ℕ) × Top milli indexed s × ((select_tip milli indexed).tip_hash ≡ hash_of milli indexed s)
select_tip-Top_example = select_tip-Top milli indexed 3 indexed-Ordered third_candidate

indexed_own :
    (t : ℕ)
    → indexed.tip_hash ≡ some t
    → is_tip_candidate indexed t ≡ true
    → hash_of milli indexed t ≡ some t
unfolding is_tip_candidate
indexed_own t at c = ground arith

-- The third share is considered; the others do not beat the second.
indexed_place :
    (y : ℕ)
    → is_tip_candidate indexed y ≡ true
    → (in_set y (3 ∷ []) ≡ true) ⊎ (beats milli indexed y (standing_tip milli indexed) ≡ false)
unfolding is_tip_candidate beats standing_tip better_tip
indexed_place y c = ground arith

consider_tip-select_tip_example :
    (consider_tip milli (3 ∷ []) indexed).tip_hash ≡ (select_tip milli indexed).tip_hash
consider_tip-select_tip_example =
    consider_tip-select_tip milli indexed (3 ∷ []) 3 indexed-Ordered third_candidate indexed_own
      indexed_place

-- The first share is too old.
prune-Whole_example :
    (n : ℕ) × (sc' : ShareChain ℕ) × (prune milli (pos 1015) rebuilt ≡ some (n, sc'))
    × ((x : ℕ) → lookup x sc'.shares ≡ unless_old (pos 1015) (lookup x rebuilt.shares))
    × Whole milli sc'
prune-Whole_example =
    prune-Whole milli (pos 1015) rebuilt (λ x. x) (refl, (refl, (refl, tt))) trio-Ranked
      rebuilt-Whole
