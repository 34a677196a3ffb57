-- ===== src/Share/Check.antt =====
-- The checks of a share on its own: work/share.go.
pub mod Laws
use mathlib.Core.List.{reverse}
use p2pool_go_vtc.Prelude.{
  ℕ, ◌+◌, ◌*◌, ◌-◌, ◌^◌, Bool, true, false, ◌&&◌, ◌||◌, not, Option, none, some, List, [], ◌∷◌,
  ◌++◌, length, ltb, leb, ◌==◌, if◌then◌else◌, ◌>>=◌,
}
use p2pool_go_vtc.Prelude.Int.{ℤ, pos, negsuc, ltb_ℤ, leb_ℤ, ◌+ℤ◌, ◌-ℤ◌}
use p2pool_go_vtc.Prelude.Bytes.{Bytes}
use p2pool_go_vtc.Env.{Float64, Wire, BlockHeader, HeaderHash}
use p2pool_go_vtc.Address.{is_standard_payout}
use p2pool_go_vtc.Merkle.{compute_root_from_link}
use p2pool_go_vtc.Share.{
  Share, no_target, get_target_diff, time_of, max_share_time_future, max_share_age,
  share_version_v2, v2_mandatory_activation_time,
}
use p2pool_go_vtc.Share.Hash.{clone_bytes, be_value, new_hash}
use p2pool_go_vtc.Share.Metadata.{
  Reason, no_pow_hash, bad_target, wide_target, not_standard, outdated, above_target,
  verify_share_metadata,
}

pub data TimeReason : Type 0 where
  in_future too_old : TimeReason

check_time : ℤ → ℤ → Option TimeReason
check_time ts now =
    if ltb_ℤ (now +ℤ pos max_share_time_future) ts
    then some in_future
    else if ltb_ℤ ts (now -ℤ pos max_share_age)
    then some too_old
    else none

-- `CheckShareTime`, at a time in seconds; `none` is "".
unfoldable pub check_share_time : {F : Type 0} → Share F → ℤ → Option TimeReason
unfolding check_time
check_share_time s now = elim (check_time (time_of s) now) [
  | some r ↦ some r
  | none ↦ check_time (pos s.min_header.timestamp) now
]

-- `shareHasStandardPayout`
unfoldable pub share_has_standard_payout : {F : Type 0} → Share F → Bool
share_has_standard_payout s =
    let v = s.share_info.share_data.pub_key_hash_version in
    let n = length s.share_info.share_data.pub_key_hash in
    if leb v 16
    then is_standard_payout v n true
    else is_standard_payout v n false && (v == 0x47 || v == 0x05 || v == 0x6f || v == 0xc4)

module _ (fl : Float64) where
  open fl use {F, fle, fmul, lit}

  -- `MinPoolShareDiff`
  abbrev pub min_pool_share_diff : F
  min_pool_share_diff = lit 50 100

  -- `CheckShareTargetFloor`
  unfoldable pub check_share_target_floor : Share F → Bool
  check_share_target_floor s =
      fle (fmul min_pool_share_diff (lit 999 1000)) (get_target_diff fl s).0

module _ (sha256 : Bytes → Bytes) (wire : Wire) where
  -- Is the target wider than 256 bits?
  abbrev is_wide : Option ℤ → Bool
  is_wide none = false
  is_wide (some (pos n)) = leb (2 ^ 256) n
  is_wide (some (negsuc n)) = leb (2 ^ 256) (n + 1)

  -- `hashInt.Cmp(s.Target) <= 0`, on the big-endian value of the hash's bytes.
  abbrev pub meets_target : ℕ → Option ℤ → Bool
  meets_target h none = false
  meets_target h (some t) = leb_ℤ (pos (be_value (clone_bytes h))) t

  -- `Share.IsValid`; `none` is (true, "").
  unfoldable pub is_valid : (fl : Float64) → Share fl.F → Option Reason
  is_valid fl s = elim s.pow_hash [
    | none ↦ some no_pow_hash
    | some h ↦
        if no_target fl s
        then some bad_target
        else if is_wide s.target
        then some wide_target
        else if not (share_has_standard_payout s)
        then some not_standard
        else if leb v2_mandatory_activation_time s.min_header.timestamp
            && ltb s.type share_version_v2
        then some outdated
        else elim (if leb share_version_v2 s.type
            then verify_share_metadata sha256 wire s
            else none) [
              | some r ↦ some r
              | none ↦ if meets_target h s.target then none else some above_target
            ]
  ]

  branch_bytes : List (Option ℕ) → Option (List Bytes)
  branch_bytes [] = some []
  branch_bytes (none ∷ bs) = none
  branch_bytes (some b ∷ bs) = branch_bytes bs >>= λ rest. some (clone_bytes b ∷ rest)

  -- `FullBlockHeader`
  pub full_block_header : {F : Type 0} → Share F → Option BlockHeader
  unfolding branch_bytes
  full_block_header s = s.min_header.previous_block >>= λ previous.
      branch_bytes s.merkle_link.branch >>= λ branch.
      wire.deserialize s.share_info.share_data.coin_base >>= λ tx. some (record {
        version = s.min_header.version;
        prev_block = previous;
        merkle_root = compute_root_from_link sha256 (wire.tx_hash tx) branch s.merkle_link.index;
        timestamp = s.min_header.timestamp;
        bits = s.min_header.bits;
        nonce = s.min_header.nonce;
      })

  module _ (hashes : HeaderHash) where
    -- `CalculateHash`: the share, and whether there was no error.
    pub calculate_hash : {F : Type 0} → Share F → Share F × Bool
    calculate_hash s = elim (full_block_header s) [
      | none ↦ (s, false)
      | some header ↦ (record s { hash = some (hashes.block_hash header) }, true)
    ]

    -- `CalculatePOWHash`
    pub calculate_pow_hash : {F : Type 0} → Share F → Share F × Bool
    calculate_pow_hash s = elim (full_block_header s) [
      | none ↦ (s, false)
      | some header ↦ elim (hashes.serialize header >>= hashes.verthash) [
        | none ↦ (s, false)
        | some little ↦ (record s { pow_hash = new_hash (reverse little) }, true)
      ]
    ]

    -- `CalculateHashes`
    pub calculate_hashes : {F : Type 0} → Share F → Share F × Bool
    unfolding calculate_hash calculate_pow_hash
    calculate_hashes s =
        let (s', done) = calculate_hash s in if done then calculate_pow_hash s' else (s', false)
