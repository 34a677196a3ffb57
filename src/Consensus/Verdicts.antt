-- ===== src/Consensus/Verdicts.antt =====
-- When the rules of `checkConsensus` give a verdict.
use p2pool_go_vtc.Prelude.{ℕ, ◌≡◌, refl, ◌⊎◌, inl, inr, Bool, true, false, Option, some, Bool-cases}
use p2pool_go_vtc.Prelude.Int.{ℤ, pos, leb_ℤ}
use p2pool_go_vtc.Prelude.Bytes.{Bytes}
use p2pool_go_vtc.Prelude.Eq.{nat_Eq}
use p2pool_go_vtc.Env.{Float64, Codec, Wire}
use p2pool_go_vtc.Share.{consensus_v2_activation_time, Share, prev_of, is_live}
use p2pool_go_vtc.Chain.{ShareChain}
use p2pool_go_vtc.Consensus.{
  effective_time, parent_length, judge, check_consensus, check_times, check_difficulty,
  has_lookbehind,
}

-- A verdict was reached.
abbrev pub Decided : Option Bool → Type 0
Decided o = (o ≡ some true) ⊎ (o ≡ some false)

pub decided : (b : Bool) → Decided (some b)
decided true = inl refl
decided false = inr refl

module _ (fl : Float64) (codec : Codec) (testnet : Bool) (compact_to_big : ℕ → ℤ)
    (sha256 : Bytes → Bytes) (wire : Wire) where
  open fl use {F}

  -- With a PoW hash every rule gives a verdict.
  pub check_difficulty-total :
      (sc : ShareChain F) (s : Share F) (p : Option ℕ) (pow : ℕ)
      → s.pow_hash ≡ some pow
      → Decided (check_difficulty fl codec testnet compact_to_big sha256 wire sc s p)
  unfolding check_difficulty
  check_difficulty-total sc s p pow has_pow =
      elim (Bool-cases (has_lookbehind fl codec testnet compact_to_big sha256 wire sc p)) [
        | inl old ↦ rw (check_difficulty, old, has_pow) (decided _)
        | inr young ↦ rw (check_difficulty, young) (decided true)
      ]

  pub check_consensus-total :
      (sc : ShareChain F) (s : Share F) (p : Option ℕ) (p_len : ℕ) (eff : ℤ) (pow : ℕ)
      → s.pow_hash ≡ some pow
      → Decided (check_consensus fl codec testnet compact_to_big sha256 wire sc s p p_len eff)
  unfolding check_consensus
  check_consensus-total sc s p p_len eff pow has_pow =
      elim (Bool-cases (check_times fl codec testnet compact_to_big sha256 wire sc s p eff)) [
        | inr late ↦ rw (check_consensus, late) (decided false)
        | inl timely ↦ elim (Bool-cases (is_live s)) [
          | inr stale ↦ rw (check_consensus, timely, stale) (decided true)
          | inl live ↦ elim (check_difficulty-total sc s p pow has_pow) [
            | inl easy ↦ rw (check_consensus, timely, live, easy) (decided _)
            | inr hard ↦ rw (check_consensus, timely, live, hard) (decided false)
          ]
        ]
      ]

  pub judge-total :
      (sc : ShareChain F) (s : Share F) (pow : ℕ)
      → s.pow_hash ≡ some pow
      → Decided (judge fl codec testnet compact_to_big sha256 wire sc s)
  unfolding judge
  judge-total sc s pow has_pow =
      elim (Bool-cases
        (leb_ℤ (pos consensus_v2_activation_time) (effective_time sc s (prev_of s)))) [
          | inr early ↦ rw (judge, early) (decided true)
          | inl ruled ↦
              rw (judge, ruled)
                (check_consensus-total sc s (prev_of s) (parent_length sc (prev_of s))
                  (effective_time sc s (prev_of s)) pow has_pow)
        ]
