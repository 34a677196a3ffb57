-- ===== src/Chain/Work.antt =====
-- The tip of the share chain, and the operations that keep the index, the works and the tip together:
-- work/sharechain.go.
pub mod Tip
pub mod Frame
pub mod Whole
pub mod Prune
mod Tests
use p2pool_go_vtc.Prelude.{
  ℕ, zero, suc, ◌+◌, ◌*◌, Bool, true, false, ◌&&◌, ◌||◌, not, Option, none, some, List, [], ◌∷◌,
  ◌++◌, map, length, ltb, leb, ◌==◌, if◌then◌else◌, any, filter, ◌>>=◌,
}
use p2pool_go_vtc.Prelude.Eq.{nat_Eq}
use p2pool_go_vtc.Prelude.Dict.{Dict, lookup, has, get_or, insert, erase, keys}
use p2pool_go_vtc.Env.{Float64}
use p2pool_go_vtc.Share.{Share, get_prev_key, get_target_diff, prev_of, is_live}
use p2pool_go_vtc.Share.Check.{min_pool_share_diff}
use p2pool_go_vtc.Chain.{ShareChain, next_key, at_least}
use p2pool_go_vtc.Chain.Sync.{in_set}
use p2pool_go_vtc.Chain.Index.{
  move_last, remove_child, fresh_of, descend, child_count, is_verified, children_of, link,
  is_tip_candidate, unlink_child, unlink_share, held_once, roots_of, parent_work, own_work,
  set_work, work_loop, update_work,
}

module _ (fl : Float64) where
  open fl use {F, fadd, fsub, flt, fle, lit}

  -- 1e-9
  abbrev pub epsilon : F
  epsilon = lit 1 1000000000

  -- `betterTip`
  unfoldable pub better_tip : F → ℕ → F → ℕ → Bool
  better_tip w h best_w best_s =
      flt (fadd best_w epsilon) w || (fle (fsub best_w epsilon) w && ltb best_s h)

  -- The best so far: the tip's hash, its work and its key; `none` is a nil `bestH`.
  abbrev pub Best : Type 0
  Best = Option (ℕ × F × ℕ)

  unfoldable pub beats : ShareChain F → ℕ → Best → Bool
  beats sc h none = true
  beats sc h (some (t, w, s)) = better_tip (get_or (lit 0 1) h sc.cum_work) h w s

  abbrev pub hash_of : ShareChain F → ℕ → Option ℕ
  hash_of sc h = elim (lookup h sc.shares) [ none ↦ none | some sh ↦ sh.hash ]

  -- The step that both loops over candidates take.
  unfoldable pub try_tip : ShareChain F → ℕ → Best → Best
  try_tip sc h best = elim (is_tip_candidate sc h && beats sc h best) [
    | false ↦ best
    | true ↦ elim (hash_of sc h) [
      | none ↦ best
      | some t ↦ some (t, get_or (lit 0 1) h sc.cum_work, h)
    ]
  ]

  unfoldable pub best_of : ShareChain F → List ℕ → Best → Best
  best_of sc [] best = best
  best_of sc (h ∷ hs) best = best_of sc hs (try_tip sc h best)

  abbrev pub set_tip : Best → ShareChain F → ShareChain F
  set_tip none sc = sc
  set_tip (some (t, w, s)) sc = record sc { tip_hash = some t }

  -- `selectTipLocked`
  unfoldable pub select_tip : ShareChain F → ShareChain F
  select_tip sc = set_tip (best_of sc (keys sc.shares) none) sc

  -- The tip to start with in `considerTipLocked`.
  unfoldable pub standing_tip : ShareChain F → Best
  standing_tip sc = elim sc.tip_hash [
    | none ↦ none
    | some t ↦ elim (is_tip_candidate sc t) [
      | false ↦ none
      | true ↦ some (t, get_or (lit 0 1) t sc.cum_work, t)
    ]
  ]

  -- `considerTipLocked`
  unfoldable pub consider_tip : List ℕ → ShareChain F → ShareChain F
  consider_tip hs sc = set_tip (best_of sc hs (standing_tip sc)) sc

  -- `addWorkLocked`
  unfoldable pub link_all : List ℕ → ShareChain F → Option (ShareChain F)
  link_all [] sc = some sc
  link_all (h ∷ hs) sc = elim (lookup h sc.shares) [
    | none ↦ none
    | some sh ↦ link_all hs (link h sh sc)
  ]

  unfoldable pub add_work : List ℕ → ShareChain F → Option (ShareChain F)
  add_work hs sc = link_all hs sc >>= λ linked.
      update_work fl hs linked >>= λ done. some (consider_tip done.0 done.1)

  -- The children of the removed shares.
  unfoldable pub orphans_of : ShareChain F → List ℕ → List ℕ
  orphans_of sc [] = []
  orphans_of sc (h ∷ hs) = children_of sc h ++ orphans_of sc hs

  -- `dropWorkLocked`
  unfoldable pub drop_work : List ℕ → Bool → ShareChain F → Option (ShareChain F)
  drop_work removed rescan sc = update_work fl (orphans_of sc removed) sc >>= λ done.
      some (if rescan || any (is_tip_candidate done.1) done.0 then select_tip done.1 else done.1)

  unfoldable pub unlink_all : List ℕ → ShareChain F → Bool × ShareChain F
  unlink_all [] sc = (false, sc)
  unlink_all (h ∷ hs) sc =
      let gone = unlink_share h sc in let rest = unlink_all hs gone.1 in (gone.0 || rest.0, rest.1)

  -- `removeSharesLocked`
  unfoldable pub remove_shares : List ℕ → ShareChain F → Option (ShareChain F)
  remove_shares hs sc = let gone = unlink_all hs sc in drop_work hs gone.0 gone.1

  -- `recomputeWorkAndTipLocked`
  unfoldable pub recompute_work_and_tip : ShareChain F → Option (ShareChain F)
  recompute_work_and_tip sc =
      let empty = record sc { children = []; cum_work = []; chain_len = [] } in
      link_all (keys sc.shares) empty >>= λ linked.
      update_work fl (keys sc.shares) linked >>= λ done. some (select_tip done.1)

  -- `markVerifiedLocked`
  unfoldable pub mark_verified : ℕ → ShareChain F → ShareChain F
  mark_verified h sc = consider_tip (h ∷ []) (record sc {
    verified = insert h true sc.verified;
    received = erase h sc.received;
    dirty = insert h true sc.dirty;
  })
