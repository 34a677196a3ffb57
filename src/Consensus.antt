-- ===== src/Consensus.antt =====
-- How a share becomes part of the verified chain: `verifyPending`, `checkConsensus` and
-- `AddSharesOutcomes` of work/sharechain.go. `verifyMu` keeps the passes apart; each part of a pass
-- that runs under the mutex is one function.
pub mod Verdicts
pub mod Pass
pub mod Rejects
pub mod Intake
pub mod Upkeep
pub mod AddShares
pub mod Added
mod Tests
use p2pool_go_vtc.Prelude.{
  ℕ, zero, suc, ◌+◌, ◌*◌, ◌/◌, Bool, true, false, ◌&&◌, ◌||◌, not, Option, none, some, List, [],
  ◌∷◌, ◌++◌, map, length, get_elem?, ltb, leb, ◌==◌, if◌then◌else◌, filter,
}
use p2pool_go_vtc.Prelude.Int.{ℤ, pos, negsuc, leb_ℤ, ltb_ℤ}
use p2pool_go_vtc.Prelude.Bytes.{Bytes}
use p2pool_go_vtc.Prelude.Eq.{nat_Eq}
use p2pool_go_vtc.Prelude.Dict.{Dict, lookup, has, get_or, insert}
use p2pool_go_vtc.Env.{Float64, Codec, Wire, HeaderHash}
use p2pool_go_vtc.Share.{
  Share, get_target_diff, target_to_diff, prev_of, time_of, is_live, share_version_v2,
  consensus_v2_activation_time, v2_mandatory_activation_time, consensus_v3_activation_time,
  median_time_shares,
}
use p2pool_go_vtc.Share.Hash.{be_value, clone_bytes}
use p2pool_go_vtc.Share.Owner.{decode_share_address}
use p2pool_go_vtc.Share.Check.{
  check_share_time, check_share_target_floor, is_valid, calculate_hash, calculate_pow_hash,
}
use p2pool_go_vtc.Chain.{
  ShareChain, is_root, target_lookbehind, max_pplns_window_age_secs, get_ordered_chain_walk,
  get_expected_share_difficulty,
}
use p2pool_go_vtc.Chain.Window.{has_complete_pplns_window}
use p2pool_go_vtc.Chain.Index.{is_verified, unlink_share}
use p2pool_go_vtc.Chain.Work.{mark_verified, drop_work, add_work}
use p2pool_go_vtc.Payout.Verify.{verify_share_coinbase}

-- `sort.Slice` of times.
unfoldable pub insert_time : ℤ → List ℤ → List ℤ
insert_time t [] = t ∷ []
insert_time t (u ∷ us) = let rest = insert_time t us in if ltb_ℤ u t then u ∷ rest else t ∷ u ∷ us

unfoldable pub sort_times : List ℤ → List ℤ
sort_times [] = []
sort_times (t ∷ ts) = insert_time t (sort_times ts)

module _ {F : Type 0} where
  -- The share under a hash that may be null.
  abbrev pub parent_in : ShareChain F → Option ℕ → Option (Share F)
  parent_in sc p = elim p [
    | none ↦ none
    | some h ↦ if is_root (some h) then none else lookup h sc.shares
  ]

  -- `effectiveTimeLocked`
  unfoldable pub effective_time : ShareChain F → Share F → Option ℕ → ℤ
  effective_time sc s p = elim (parent_in sc p) [
    | none ↦ time_of s
    | some ps ↦ if ltb_ℤ (time_of s) (time_of ps) then time_of ps else time_of s
  ]

  -- `medianTimePastLocked`
  unfoldable pub median_time_past : ShareChain F → Option ℕ → Option ℤ
  median_time_past sc p = elim (is_root p) [
    | true ↦ none
    | false ↦
        let w = get_ordered_chain_walk sc p median_time_shares in
        if ltb (length w) median_time_shares
        then none
        else get_elem? (sort_times (map time_of w)) (length w / 2)
  ]

  -- `pLen` and `hLen`: the length of the held parent's chain.
  abbrev pub parent_length : ShareChain F → Option ℕ → ℕ
  parent_length sc none = 0
  parent_length sc (some h) = elim (parent_in sc (some h)) [
    | none ↦ 0
    | some ps ↦ get_or 0 h sc.chain_len
  ]

  abbrev pub parent_verified : ShareChain F → Option ℕ → Bool
  parent_verified sc none = false
  parent_verified sc (some h) = if is_root (some h) then false else is_verified sc h

  -- Can a share be judged? Its parent is genesis or verified, or its chain is long enough.
  unfoldable pub is_ripe : ShareChain F → Share F → Bool
  is_ripe sc s =
      is_root (prev_of s)
      || parent_verified sc (prev_of s)
      || leb target_lookbehind (parent_length sc (prev_of s))

module _ (fl : Float64) (codec : Codec) (testnet : Bool) (compact_to_big : ℕ → ℤ)
    (sha256 : Bytes → Bytes) (wire : Wire) where
  open fl use {F, fmul, flt, lit}

  -- Does the share miss the difficulty that its chain expects, without being a block?
  unfoldable pub misses_difficulty : ShareChain F → Share F → Option ℕ → ℕ → Bool
  misses_difficulty sc s p pow =
      let exp_d = get_expected_share_difficulty fl sc p in
      let clm_d = (get_target_diff fl s).0 in
      let pi = pos (be_value (clone_bytes pow)) in
      let act_d = target_to_diff fl (some pi) in
      (flt act_d (fmul exp_d (lit 999 1000))
        || flt clm_d (fmul exp_d (lit 999 1000))
        || flt (fmul exp_d (lit 1001 1000)) clm_d)
      && ltb_ℤ (compact_to_big s.min_header.bits) pi

  -- Is the share below a chain that is old enough for the difficulty rule?
  unfoldable pub has_lookbehind : ShareChain F → Option ℕ → Bool
  has_lookbehind sc p = elim (get_elem? (get_ordered_chain_walk sc p target_lookbehind) 199) [
    | none ↦ false
    | some s ↦ leb_ℤ (pos consensus_v2_activation_time) (time_of s)
  ]

  -- The difficulty rule. `none` is a nil PoW hash.
  unfoldable pub check_difficulty : ShareChain F → Share F → Option ℕ → Option Bool
  check_difficulty sc s p = elim (has_lookbehind sc p) [
    | false ↦ some true
    | true ↦ elim s.pow_hash [ none ↦ none | some pow ↦ some (not (misses_difficulty sc s p pow)) ]
  ]

  -- The payout rule.
  unfoldable pub check_payout : ShareChain F → Share F → Option ℕ → ℕ → ℤ → Bool
  check_payout sc s p p_len eff =
      if leb target_lookbehind p_len
        && has_complete_pplns_window fl compact_to_big sc p
        && leb_ℤ (pos (consensus_v2_activation_time + max_pplns_window_age_secs)) eff
      then (elim (verify_share_coinbase fl codec testnet compact_to_big sha256 wire s sc) [
        | none ↦ true
        | some r ↦ false
      ])
      else true

  -- The rules before those of difficulty and payout: version and median time.
  unfoldable pub check_times : ShareChain F → Share F → Option ℕ → ℤ → Bool
  check_times sc s p eff =
      not (leb_ℤ (pos v2_mandatory_activation_time) eff && ltb s.type share_version_v2)
      && not (
          leb_ℤ (pos consensus_v3_activation_time) eff
          && (elim (median_time_past sc p) [ none ↦ false | some mtp ↦ ltb_ℤ (time_of s) mtp ]))

  -- `checkConsensus`
  unfoldable pub check_consensus : ShareChain F → Share F → Option ℕ → ℕ → ℤ → Option Bool
  check_consensus sc s p p_len eff = elim (check_times sc s p eff) [
    | false ↦ some false
    | true ↦ elim (is_live s) [
      | false ↦ some true
      | true ↦ elim (check_difficulty sc s p) [
        | none ↦ none
        | some false ↦ some false
        | some true ↦ some (check_payout sc s p p_len eff)
      ]
    ]
  ]

  -- The verdict on a ripe share.
  unfoldable pub judge : ShareChain F → Share F → Option Bool
  judge sc s =
      let eff = effective_time sc s (prev_of s) in
      elim (leb_ℤ (pos consensus_v2_activation_time) eff) [
        | false ↦ some true
        | true ↦ check_consensus sc s (prev_of s) (parent_length sc (prev_of s)) eff
      ]

  -- One turn of the loop of `verifyPending`: the chain, the hashes rejected and how many were verified.
  abbrev pub Progress : Type 0
  Progress = ShareChain F × List ℕ × ℕ

  unfoldable pub verify_one : ℕ → Share F → Progress → Option Progress
  verify_one h s (sc, rejected, vn) = elim (is_verified sc h || not (is_ripe sc s)) [
    | true ↦ some (sc, rejected, vn)
    | false ↦ elim (judge sc s) [
      | none ↦ none
      | some true ↦ some (mark_verified fl h sc, rejected, vn + 1)
      | some false ↦
          let gone = (unlink_share h sc).1 in
          some (record gone { changes = gone.changes + 1 }, rejected ++ h ∷ [], vn)
    ]
  ]

  unfoldable pub verify_all : List (ℕ × Share F) → Progress → Option Progress
  verify_all [] acc = some acc
  verify_all (e ∷ pend) acc = elim (verify_one e.0 e.1 acc) [
    | none ↦ none
    | some acc' ↦ verify_all pend acc'
  ]

  -- The pending shares by their hashes, those on shorter chains first.
  unfoldable pub insert_pending :
      ShareChain F → ℕ × Share F → List (ℕ × Share F) → List (ℕ × Share F)
  insert_pending sc e [] = e ∷ []
  insert_pending sc e (g ∷ gs) =
      let rest = insert_pending sc e gs in
      if ltb (get_or 0 g.0 sc.chain_len) (get_or 0 e.0 sc.chain_len) then g ∷ rest else e ∷ g ∷ gs

  unfoldable pub pending : ShareChain F → Dict ℕ (Share F) → List (ℕ × Share F)
  pending sc [] = []
  pending sc (e ∷ shares) = elim (is_verified sc e.0) [
    | true ↦ pending sc shares
    | false ↦ elim e.1.hash [
      | none ↦ pending sc shares
      | some h ↦ insert_pending sc (h, e.1) (pending sc shares)
    ]
  ]

  -- `verifyPending`
  unfoldable pub verify_pending : ShareChain F → Option Progress
  verify_pending sc = elim (verify_all (pending sc sc.shares) (sc, [], 0)) [
    | none ↦ none
    | some (sc', rejected, vn) ↦ elim rejected [
      | [] ↦ some (sc', [], vn)
      | r ∷ rs ↦ elim (drop_work fl (r ∷ rs) false sc') [
        | none ↦ none
        | some sc'' ↦ some (sc'', r ∷ rs, vn)
      ]
    ]
  ]

  -- The outcomes of adding a share.
  pub data Outcome : Type 0 where
    pending_share accepted duplicate invalid : Outcome

  -- A copy of the share with its address, under its hash.
  unfoldable pub store : ℕ → ℤ → Share F → ShareChain F → ShareChain F
  store h now_ns s sc =
      let decoded = decode_share_address codec testnet s in
      record sc {
        shares = insert h (record decoded.1 { decoded_addr = decoded.0 }) sc.shares;
        received = insert h now_ns sc.received;
        changes = sc.changes + 1;
      }

  module _ (hashes : HeaderHash) where
    -- The share with its hash, if it has none.
    abbrev pub with_hash : Share F → Share F
    with_hash s = elim s.hash [ some h ↦ s | none ↦ (calculate_hash sha256 wire hashes s).0 ]

    abbrev pub with_pow_hash : Share F → Share F
    with_pow_hash s = elim s.pow_hash [
      | some h ↦ s
      | none ↦ (calculate_pow_hash sha256 wire hashes s).0
    ]

    -- One turn of the first loop of `AddSharesOutcomes`, at a time in seconds (`received` has
    -- nanoseconds): the outcome so far, the hash if it was added, and the chain.
    unfoldable pub receive : ℤ → ℤ → Share F → ShareChain F → Outcome × Option ℕ × ShareChain F
    receive now now_ns s sc = elim (check_share_time s now) [
      | some r ↦ (invalid, none, sc)
      | none ↦ elim (check_share_target_floor fl s) [
        | false ↦ (invalid, none, sc)
        | true ↦ elim (with_hash s).hash [
          | none ↦ (invalid, none, sc)
          | some h ↦ elim (has h sc.shares) [
            | true ↦ (duplicate, none, sc)
            | false ↦
                let s' = with_pow_hash (with_hash s) in
                elim (is_valid sha256 wire fl s') [
                  | some r ↦ (invalid, none, sc)
                  | none ↦ (pending_share, some h, store h now_ns s' sc)
                ]
          ]
        ]
      ]
    ]
