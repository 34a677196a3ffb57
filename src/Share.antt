-- ===== src/Share.antt =====
-- A share, its consensus constants and its own checks: work/share.go and work/util.go.
--
-- A `chainhash.Hash` is the number whose 64 hex digits are its `String()`: the map keys and the
-- comparisons of such strings are those of the numbers. (A string that is no hash is a number from
-- 2^256 on.) A nil pointer is `none`, and so is the empty string as a key.
pub mod Hash
pub mod Metadata
pub mod Check
pub mod Owner
mod Tests
use p2pool_go_vtc.Prelude.{
  ℕ, ◌+◌, ◌*◌, ◌-◌, ◌^◌, Bool, true, false, Option, none, some, List, if◌then◌else◌, ◌==◌, ltb,
}
use p2pool_go_vtc.Prelude.Int.{ℤ, pos, negsuc, ltb_ℤ, leb_ℤ}
use p2pool_go_vtc.Prelude.Bytes.{Bytes}
use p2pool_go_vtc.Env.{Float64}

pub record MerkleLink : Type 0 where
  pub branch : List (Option ℕ)
  pub index : ℕ

pub record HashLink : Type 0 where
  pub state : Bytes
  pub extra_data : Bytes
  pub length : ℕ

pub record SmallBlockHeader : Type 0 where
  pub version : ℤ
  pub previous_block : Option ℕ
  pub timestamp : ℕ  -- uint32
  pub bits : ℕ  -- uint32
  pub nonce : ℕ  -- uint32

pub record SegwitData : Type 0 where
  pub txid_merkle_link : MerkleLink
  pub wtxid_merkle_root : Option ℕ

pub record TransactionHashRef : Type 0 where
  pub share_count : ℕ
  pub tx_count : ℕ

pub record ShareData : Type 0 where
  pub previous_share_hash : Option ℕ
  pub coin_base : Bytes
  pub nonce : ℕ  -- uint32
  pub pub_key_hash : Bytes
  pub pub_key_hash_version : ℕ  -- uint8
  pub subsidy : ℕ  -- uint64
  pub donation : ℕ  -- uint16
  pub stale_info : ℕ  -- uint8
  pub desired_version : ℕ  -- uint64

pub record ShareInfo : Type 0 where
  pub share_data : ShareData
  pub segwit_data : Option SegwitData
  pub new_transaction_hashes : List (Option ℕ)
  pub transaction_hash_refs : List TransactionHashRef
  pub far_share_hash : Option ℕ
  pub max_bits : ℕ  -- uint32
  pub bits : ℕ  -- uint32
  pub timestamp : ℤ  -- int32
  pub abs_height : ℤ  -- int32
  pub abs_work : Option ℤ

-- The last five fields are caches; `F` is float64.
pub record Share (F : Type 0) : Type 0 where
  pub type : ℕ  -- uint64
  pub min_header : SmallBlockHeader
  pub share_info : ShareInfo
  pub ref_merkle_link : MerkleLink
  pub last_tx_out_nonce : ℕ
  pub hash_link : HashLink
  pub merkle_link : MerkleLink
  pub hash : Option ℕ
  pub pow_hash : Option ℕ
  pub target : Option ℤ
  pub decoded_addr : Bytes
  pub target_diff : F
  pub eff_diff : F
  pub eff_diff_ready : Bool
  pub prev_key : Option ℕ

abbrev pub stale_info_none : ℕ
stale_info_none = 0

abbrev pub stale_info_orphan : ℕ
stale_info_orphan = 253

abbrev pub stale_info_doa : ℕ
stale_info_doa = 254

abbrev pub share_version_v2 : ℕ
share_version_v2 = 24

abbrev pub consensus_v2_activation_time : ℕ
consensus_v2_activation_time = 1792470600

abbrev pub v2_mandatory_activation_time : ℕ
v2_mandatory_activation_time = 1792519200

abbrev pub taproot_payout_activation_time : ℕ
taproot_payout_activation_time = 1794009600

abbrev pub consensus_v3_activation_time : ℕ
consensus_v3_activation_time = 1794009600

abbrev pub median_time_shares : ℕ
median_time_shares = 11

-- `MaxShareTimeFuture` and `maxShareAge`, in seconds.
abbrev pub max_share_time_future : ℕ
max_share_time_future = 7200

abbrev pub max_share_age : ℕ
max_share_age = 259200

-- 000000FFFF0000…, the target of difficulty 1.
abbrev pub max_target : ℕ
max_target = 0xFFFF * 2 ^ 216

module _ {F : Type 0} where
  abbrev pub prev_of : Share F → Option ℕ
  prev_of s = s.share_info.share_data.previous_share_hash

  abbrev pub time_of : Share F → ℤ
  time_of s = s.share_info.timestamp

  -- `StaleInfo == StaleInfoNone`
  abbrev pub is_live : Share F → Bool
  is_live s = s.share_info.share_data.stale_info == stale_info_none

  -- `getPrevKey`: the key, and the share with its cache filled.
  unfoldable pub get_prev_key : Share F → Option ℕ × Share F
  get_prev_key s = elim s.prev_key [
    | some k ↦ (some k, s)
    | none ↦ (prev_of s, record s { prev_key = prev_of s })
  ]

module _ (fl : Float64) where
  open fl use {F, flt, fle, lit, big_quo, quo_int}

  -- `DiffToTarget`
  unfoldable pub diff_to_target : F → ℤ
  diff_to_target diff = quo_int max_target (if fle diff (lit 0 1) then lit 1 1000000 else diff)

  -- `TargetToDiff`
  unfoldable pub target_to_diff : Option ℤ → F
  target_to_diff none = lit 0 1
  target_to_diff (some (negsuc n)) = lit 0 1
  target_to_diff (some (pos n)) = if n == 0 then lit 0 1 else big_quo max_target n

  -- `s.Target == nil || s.Target.Sign() <= 0`
  abbrev pub no_target : Share F → Bool
  no_target s = elim s.target [ none ↦ true | some t ↦ leb_ℤ t (pos 0) ]

  -- `getTargetDiff`: the difficulty, and the share with its cache filled.
  unfoldable pub get_target_diff : Share F → F × Share F
  get_target_diff s =
      if no_target s
      then (lit 0 1, s)
      else if flt (lit 0 1) s.target_diff
      then (s.target_diff, s)
      else let d = target_to_diff s.target in (d, record s { target_diff = d })
