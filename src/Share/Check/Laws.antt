-- ===== src/Share/Check/Laws.antt =====
-- What `CheckShareTime`, `shareHasStandardPayout` and `IsValid` accept: work/share.go and
-- work/coinbase.go.
use p2pool_go_vtc.Prelude.{
  ℕ, ◌^◌, ◌<◌, ◌≤◌, ◌≡◌, ◌↔◌, ◌⊎◌, inl, inr, true, none, some, length, arith, Option-cases,
}
use p2pool_go_vtc.Prelude.Int.{ℤ, pos, negsuc, ◌≤ℤ◌, ◌+ℤ◌, ◌-ℤ◌}
use p2pool_go_vtc.Prelude.Bytes.{Bytes}
use p2pool_go_vtc.Env.{Float64, Wire}
use p2pool_go_vtc.Address.{is_standard_payout}
use p2pool_go_vtc.Share.{Share, time_of, share_version_v2, v2_mandatory_activation_time}
use p2pool_go_vtc.Share.Hash.{clone_bytes, be_value}
use p2pool_go_vtc.Share.Metadata.{verify_share_metadata}
use p2pool_go_vtc.Share.Check.{check_time, check_share_time, share_has_standard_payout, is_valid}

-- Within two hours ahead of a time and three days behind it.
abbrev pub Timely : ℤ → ℤ → Type 0
Timely ts now = (ts ≤ℤ now +ℤ pos 7200) × (now -ℤ pos 259200 ≤ℤ ts)

check_time_iff : (ts now : ℤ) → (check_time ts now ≡ none) ↔ Timely ts now
unfolding check_time
check_time_iff ts now = ground arith

-- A share's times are accepted exactly when both its own timestamp and its header's are at most two
-- hours ahead of the clock and at most three days behind it.
pub check_share_time_iff :
    {F : Type 0} (s : Share F) (now : ℤ)
    → (check_share_time s now ≡ none)
      ↔ (Timely (time_of s) now × Timely (pos s.min_header.timestamp) now)
unfolding check_share_time
check_share_time_iff s now =
    ground (arith, check_time_iff (time_of s) now, check_time_iff (pos s.min_header.timestamp) now)

-- A standard payout: a witness program of version 0 with 20 or 32 bytes or of version 1 with 32, or
-- a 20-byte hash under one of three base58 versions.
abbrev pub Standard : ℕ → ℕ → Type 0
Standard v n =
    ((v ≡ 0) × ((n ≡ 20) ⊎ (n ≡ 32)))
    ⊎ ((v ≡ 1) × (n ≡ 32))
    ⊎ ((n ≡ 20) × ((v ≡ 0x47) ⊎ (v ≡ 0x6f) ⊎ (v ≡ 0xc4)))

-- The accepted payouts. The base58 version 0x05 is not among them, whatever the hash: it is read as a
-- witness version.
pub share_has_standard_payout_iff :
    {F : Type 0} (s : Share F)
    → (share_has_standard_payout s ≡ true)
      ↔ Standard s.share_info.share_data.pub_key_hash_version
          (length s.share_info.share_data.pub_key_hash)
unfolding share_has_standard_payout is_standard_payout
share_has_standard_payout_iff s = (λ h. ground arith, λ h. ground arith)

module _ (sha256 : Bytes → Bytes) (wire : Wire) (fl : Float64) where
  -- What `IsValid` asks of a share.
  pub record Valid (s : Share fl.F) : Type 0 where
    pub pow : ℕ
    pub goal : ℕ
    pub has_pow : s.pow_hash ≡ some pow
    pub has_target : s.target ≡ some (pos goal)
    pub goal_pos : 0 < goal
    pub goal_u256 : goal < 2 ^ 256
    pub payout : share_has_standard_payout s ≡ true
    pub current : v2_mandatory_activation_time ≤ s.min_header.timestamp → share_version_v2 ≤ s.type
    pub metadata : share_version_v2 ≤ s.type → verify_share_metadata sha256 wire s ≡ none
    pub met : be_value (clone_bytes pow) ≤ goal

  at-Valid :
      (s : Share fl.F) (h t : ℕ)
      → s.pow_hash ≡ some h
      → s.target ≡ some (pos t)
      → is_valid sha256 wire fl s ≡ none
      → Valid s
  unfolding is_valid
  at-Valid s h t p q e = record {
    pow = h;
    goal = t;
    has_pow = p;
    has_target = q;
    goal_pos = ground arith;
    goal_u256 = ground arith;
    payout = ground arith;
    current = λ l. ground arith;
    metadata = λ l. ground arith;
    met = ground arith;
  }

  is_valid-Valid : (s : Share fl.F) → is_valid sha256 wire fl s ≡ none → Valid s
  unfolding is_valid
  is_valid-Valid s e = elim (Option-cases s.pow_hash) [
    | inl missing ↦ ground arith
    | inr (h, p) ↦ elim (Option-cases s.target) [
      | inl missing ↦ absurd (ground arith)
      | inr (negsuc n, q) ↦ absurd (ground arith)
      | inr (pos t, q) ↦ at-Valid s h t p q e
    ]
  ]

  Valid-is_valid : (s : Share fl.F) → Valid s → is_valid sha256 wire fl s ≡ none
  unfolding is_valid
  Valid-is_valid s v = ground arith

  -- `IsValid` accepts a share exactly when it has a PoW hash and a positive target of at most 256
  -- bits, a standard payout, a version not outdated at its header's time, metadata that its coinbase
  -- commits to (version 24 and later), and a PoW hash not above the target.
  pub is_valid_iff : (s : Share fl.F) → (is_valid sha256 wire fl s ≡ none) ↔ Valid s
  is_valid_iff s = (is_valid-Valid s, Valid-is_valid s)
