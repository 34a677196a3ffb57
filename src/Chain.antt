-- ===== src/Chain.antt =====
-- The share chain's state and its reads along one chain: work/sharechain.go. Locks are left out: each
-- function here runs under one. A read does not return the shares with the caches that it filled;
-- Chain/Caches is about these.
pub mod Caches
pub mod Window
pub mod Walks
pub mod Payable
pub mod Selection
pub mod Sync
pub mod Index
pub mod Work
mod Tests
use p2pool_go_vtc.Prelude.{
  ℕ, zero, suc, ◌+◌, ◌*◌, ◌-◌, Bool, true, false, ◌&&◌, ◌||◌, not, Option, none, some, List, [],
  ◌∷◌, map, length, take, get_elem?, ltb, leb, ◌==◌, if◌then◌else◌,
}
use p2pool_go_vtc.Prelude.Int.{ℤ, pos, leb_ℤ, ltb_ℤ, ◌-ℤ◌}
use p2pool_go_vtc.Prelude.Eq.{nat_Eq}
use p2pool_go_vtc.Prelude.Dict.{Dict, lookup}
use p2pool_go_vtc.Env.{Float64}
use p2pool_go_vtc.Share.{
  Share, get_target_diff, get_prev_key, no_target, target_to_diff, prev_of, time_of, is_live,
}
use p2pool_go_vtc.Share.Check.{min_pool_share_diff}
use p2pool_go_vtc.Share.Hash.{clone_bytes, be_value}

-- `dirty` and the keys of `verified` are sets. `received` has times in nanoseconds.
pub record ShareChain (F : Type 0) : Type 0 where
  pub shares : Dict ℕ (Share F)
  pub verified : Dict ℕ Bool
  pub received : Dict ℕ ℤ
  pub cum_work : Dict ℕ F
  pub chain_len : Dict ℕ ℕ
  pub children : Dict ℕ (List ℕ)
  pub dirty : Dict ℕ Bool
  pub changes : ℕ  -- uint64
  pub tip_hash : Option ℕ

abbrev pub genesis_hash : ℕ
genesis_hash = 0

abbrev pub target_lookbehind : ℕ
target_lookbehind = 200

abbrev pub default_pplns_window : ℕ
default_pplns_window = 8640

abbrev pub max_pplns_window_age_secs : ℕ
max_pplns_window_age_secs = 129600

-- `p == nil || p.IsEqual(sc.genesisHash)`
abbrev pub is_root : Option ℕ → Bool
is_root none = true
is_root (some h) = h == genesis_hash

abbrev pub or_tip : {F : Type 0} → ShareChain F → Option ℕ → Option ℕ
or_tip sc start = if is_root start then sc.tip_hash else start

module _ {F : Type 0} where
  -- The key to go on at, if the chain goes on.
  abbrev pub next_key : Share F → Option ℕ
  next_key s = if is_root (prev_of s) then none else (get_prev_key s).0

  -- The loop of `getOrderedChainWalkLocked`: `steps` are those left, `taken` is len(res).
  unfoldable pub walk_loop : Dict ℕ (Share F) → ℕ → ℕ → ℕ → ℕ → List (Share F)
  walk_loop shares zero max taken h = []
  walk_loop shares (suc steps) max taken h = elim (lookup h shares) [
    | none ↦ []
    | some s ↦
        let below : ℕ → List (Share F) =
          λ n. elim (next_key s) [ none ↦ [] | some p ↦ walk_loop shares steps max n p ] in
        elim (is_live s) [
          | true ↦ elim (ltb 0 max && leb max (taken + 1)) [
            | true ↦ s ∷ []
            | false ↦ s ∷ below (taken + 1)
          ]
          | false ↦ below taken
        ]
  ]

  -- `getOrderedChainWalkLocked`; `max` is 0 for no limit.
  unfoldable pub get_ordered_chain_walk : ShareChain F → Option ℕ → ℕ → List (Share F)
  get_ordered_chain_walk sc start max = elim (or_tip sc start) [
    | none ↦ []
    | some h ↦ if h == genesis_hash then [] else walk_loop sc.shares (length sc.shares + 1) max 0 h
  ]

  -- `GetRecentShares`
  pub get_recent_shares : ShareChain F → ℕ → List (Share F)
  get_recent_shares sc count = get_ordered_chain_walk sc sc.tip_hash count

module _ (fl : Float64) where
  open fl use {F, fadd, fmul, fdiv, flt, fle, lit, of_int}

  abbrev pub at_least : F → F → F
  at_least floor d = if flt d floor then floor else d

  -- The difficulty of a share, and not below the pool's minimum.
  pub floored_diff : Share F → F
  floored_diff s = at_least (min_pool_share_diff fl) (get_target_diff fl s).0

  pub sum_diffs : F → List (Share F) → F
  sum_diffs acc [] = acc
  sum_diffs acc (s ∷ ss) = sum_diffs (fadd acc (floored_diff s)) ss

  -- The retarget of `getExpectedShareDifficultyLocked`, from the newest and the oldest share.
  retarget : F → Share F → Share F → F
  retarget tw newest oldest =
      let span = of_int (time_of newest -ℤ time_of oldest) in
      let dt = if fle span (lit 1 1) then lit 1 1 else span in
      let p_diff = floored_diff newest in
      let raw = fdiv (fmul tw (lit 15 1)) dt in
      let raw' =
        if flt raw (fmul p_diff (lit 90 100))
        then fmul p_diff (lit 90 100)
        else if flt (fmul p_diff (lit 110 100)) raw
        then fmul p_diff (lit 110 100)
        else raw in
      at_least (min_pool_share_diff fl) raw'

  -- The difficulty that a walk of `TargetLookbehind` shares sets; a shorter one sets the minimum.
  pub difficulty_of_walk : List (Share F) → F
  unfolding retarget sum_diffs
  difficulty_of_walk w = elim (get_elem? w 0) [
    | none ↦ min_pool_share_diff fl
    | some newest ↦ elim (get_elem? w (target_lookbehind - 1)) [
      | none ↦ min_pool_share_diff fl
      | some oldest ↦ retarget (sum_diffs (lit 0 1) (take (target_lookbehind - 1) w)) newest oldest
    ]
  ]

  -- `getExpectedShareDifficultyLocked`
  unfoldable pub get_expected_share_difficulty : ShareChain F → Option ℕ → F
  unfolding difficulty_of_walk
  get_expected_share_difficulty sc prev =
      difficulty_of_walk (get_ordered_chain_walk sc prev target_lookbehind)

  -- A PoW hash that misses the share's own target by more than a thousandth.
  abbrev pub misses : Option ℕ → F → Bool
  misses none td = false
  misses (some h) td =
      flt (target_to_diff fl (some (pos (be_value (clone_bytes h))))) (fmul td (lit 999 1000))

  -- `GetEffectiveShareDiff`: the credited difficulty, and the share with its caches filled.
  unfoldable pub get_effective_share_diff : Share F → F × Share F
  get_effective_share_diff s =
      if no_target fl s
      then (lit 0 1, s)
      else if s.eff_diff_ready
      then (s.eff_diff, s)
      else let (td, s') = get_target_diff fl s in
        let credit =
          if fle td (lit 0 1) || misses s.pow_hash td
          then lit 0 1
          else if flt (lit 16 1) td
          then lit 16 1
          else td in
        (credit, record s' { eff_diff = credit; eff_diff_ready = true })
