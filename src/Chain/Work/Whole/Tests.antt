-- ===== src/Chain/Work/Whole/Tests.antt =====
-- The theorems on whole chains, at three shares.
use p2pool_go_vtc.Prelude.{ℕ, ◌≡◌, refl, none, some, List, [], ◌∷◌, if◌then◌else◌, arith}
use p2pool_go_vtc.Prelude.Eq.{nat_Eq}
use p2pool_go_vtc.Prelude.Dict.{Dict, lookup, insert}
use p2pool_go_vtc.Share.{get_prev_key}
use p2pool_go_vtc.Chain.{ShareChain}
use p2pool_go_vtc.Chain.Sync.{in_set}
use p2pool_go_vtc.Chain.Index.{held_once, update_work}
use p2pool_go_vtc.Chain.Index.Descend.{Below}
use p2pool_go_vtc.Chain.Index.Visits.{with_works}
use p2pool_go_vtc.Chain.Index.Consistent.{Ranked, update_work-total}
use p2pool_go_vtc.Chain.Work.{add_work, remove_shares, recompute_work_and_tip}
use p2pool_go_vtc.Chain.Work.Whole.{IndexedBut-Indexed, Whole}
use p2pool_go_vtc.Chain.Work.Whole.Stored.{stored-WholeBut}
use p2pool_go_vtc.Chain.Work.Whole.Added.{add_work-Whole}
use p2pool_go_vtc.Chain.Work.Whole.RemoveShares.{remove_shares-Whole}
use p2pool_go_vtc.Chain.Work.Whole.Rebuilt.{recompute_work_and_tip-Whole}
use p2pool_go_vtc.Sample.{milli, share, trio}
use p2pool_go_vtc.Sample.Whole.{All-Ranked, trio-Ranked, rebuilt, rebuilt-Whole}

update_work-total_example :
    (all : List ℕ) × (works : Dict ℕ ℕ) × (sizes : Dict ℕ ℕ) × (update_work milli (2 ∷ []) rebuilt
      ≡ some (all, with_works milli rebuilt works sizes))
    × Below rebuilt.children (held_once rebuilt (2 ∷ [])) all
update_work-total_example =
    update_work-total milli (2 ∷ []) rebuilt (IndexedBut-Indexed rebuilt rebuilt-Whole.indexed)

-- A fourth share on the third, stored and not indexed.
abbrev with_fourth : ShareChain ℕ
with_fourth = record rebuilt { shares = insert 4 (share 4 3 1 1040) rebuilt.shares }

fourth-Ranked : Ranked milli with_fourth (λ x. x)
unfolding get_prev_key
fourth-Ranked x p s t at up there =
    All-Ranked with_fourth.shares x p s
      (
        λ q e. ground (arith, e),
        (λ q e. ground (arith, e), (λ q e. ground (arith, e), (λ q e. ground (arith, e), tt))),
      )
      at up

add_work-Whole_example :
    (sc' : ShareChain ℕ) × (add_work milli (4 ∷ []) with_fourth ≡ some sc')
    × (sc'.shares ≡ with_fourth.shares)
    × (sc'.verified ≡ with_fourth.verified)
    × Whole milli sc'
add_work-Whole_example =
    add_work-Whole milli (4 ∷ []) with_fourth (λ x. x) (refl, tt) fourth-Ranked
      (stored-WholeBut milli [] rebuilt rebuilt-Whole 4 (share 4 3 1 1040) refl)

remove_shares-Whole_example :
    (sc' : ShareChain ℕ) × (remove_shares milli (2 ∷ []) rebuilt ≡ some sc')
    × ((x : ℕ)
        → lookup x sc'.shares ≡ (if in_set x (2 ∷ []) then none else lookup x rebuilt.shares))
    × Whole milli sc'
remove_shares-Whole_example =
    remove_shares-Whole milli (2 ∷ []) rebuilt (λ x. x) trio-Ranked rebuilt-Whole

recompute_work_and_tip-Whole_example :
    (sc' : ShareChain ℕ) × (recompute_work_and_tip milli trio ≡ some sc')
    × (sc'.shares ≡ trio.shares)
    × (sc'.verified ≡ trio.verified)
    × (sc'.dirty ≡ trio.dirty)
    × Whole milli sc'
recompute_work_and_tip-Whole_example =
    recompute_work_and_tip-Whole milli trio (λ x. x) (refl, (refl, (refl, tt))) trio-Ranked
