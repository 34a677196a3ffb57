-- ===== src/Consensus/Tests.antt =====
-- The theorems on verification and intake, at three unverified shares.
use p2pool_go_vtc.Share.Owner.{decode_share_address}
use p2pool_go_vtc.Script.{le_bytes}
use p2pool_go_vtc.Share.Hash.{be_value, clone_bytes}
use p2pool_go_vtc.Address.{is_standard_payout}
use p2pool_go_vtc.Share.Check.{
  check_share_time, check_share_target_floor, is_valid, share_has_standard_payout,
}
use p2pool_go_vtc.Prelude.{
  ℕ, ◌≡◌, ◌⊎◌, ◌↔◌, if◌then◌else◌, inr, refl, true, false, some, none, List, [], ◌∷◌, map, arith,
}
use p2pool_go_vtc.Prelude.Int.{pos, ◌+ℤ◌, ◌-ℤ◌}
use p2pool_go_vtc.Env.{HeaderHash}
use p2pool_go_vtc.Share.{Share, get_target_diff, target_to_diff, get_prev_key}
use p2pool_go_vtc.Chain.{ShareChain}
use p2pool_go_vtc.Chain.Index.{is_verified}
use p2pool_go_vtc.Consensus.{
  Outcome, Progress, pending_share, duplicate, invalid, verify_all, receive, store,
}
use p2pool_go_vtc.Consensus.Pass.{Judged, verify_all-is_verified}
use p2pool_go_vtc.Consensus.Rejects.{verify_all-Refused}
use p2pool_go_vtc.Chain.Sync.{in_set}
use p2pool_go_vtc.Prelude.Eq.{nat_Eq}
use p2pool_go_vtc.Prelude.Dict.{lookup}
use p2pool_go_vtc.Consensus.Intake.{Powed, Stored, receive-Stored}
use p2pool_go_vtc.Chain.Index.Consistent.{Ranked}
use p2pool_go_vtc.Chain.Work.Whole.{Whole}
use p2pool_go_vtc.Consensus.Added.{received_chain, add_shares_outcomes-Whole}
use p2pool_go_vtc.Consensus.AddShares.{add_shares_outcomes, receive_all, note_result}
use p2pool_go_vtc.Sample.Whole.{rebuilt, rebuilt-Whole, All-Ranked}
use p2pool_go_vtc.Sample.{milli, plain_codec, plain_wire, first_32, easy_bits, share, trio}

abbrev queue : List (ℕ × Share ℕ)
queue = (1, share 1 0 2 1010) ∷ (2, share 2 1 1 1020) ∷ (3, share 3 2 2 1030) ∷ []

verify_all-is_verified_example :
    (acc' : Progress milli plain_codec false easy_bits first_32 plain_wire) × (verify_all milli
        plain_codec false easy_bits first_32 plain_wire queue
        (trio, [], 0)
      ≡ some acc')
    × ((is_verified acc'.0 2 ≡ true) ↔ (
        (is_verified trio 2 ≡ true)
        ⊎ Judged milli plain_codec false easy_bits first_32 plain_wire true queue trio 2))
verify_all-is_verified_example =
    verify_all-is_verified milli plain_codec false easy_bits first_32 plain_wire queue (trio, [], 0)
      2 ((_, refl), ((_, refl), ((_, refl), tt)))

verify_all-Refused_example :
    (acc' : Progress milli plain_codec false easy_bits first_32 plain_wire) × (verify_all milli
        plain_codec false easy_bits first_32 plain_wire queue
        (trio, [], 0)
      ≡ some acc')
    × ((in_set 2 acc'.1 ≡ true)
        ↔ Judged milli plain_codec false easy_bits first_32 plain_wire false queue trio 2)
    × (lookup 2 acc'.0.shares ≡ (if in_set 2 acc'.1 then none else lookup 2 trio.shares))
verify_all-Refused_example =
    verify_all-Refused milli plain_codec false easy_bits first_32 plain_wire queue trio 0 2
      ((_, refl), ((_, refl), ((_, refl), tt)))

abbrev header_hash : HeaderHash
header_hash = record { block_hash = λ h. 9; serialize = λ h. none; verthash = λ b. none }

receive-Stored_example :
    (receive milli plain_codec false easy_bits first_32 plain_wire header_hash
        (pos 1040)
        (pos 5)
        (share 4 3 1 1040)
        trio
      ≡ (invalid, none, trio))
    ⊎ (receive milli plain_codec false easy_bits first_32 plain_wire header_hash
          (pos 1040)
          (pos 5)
          (share 4 3 1 1040)
          trio
        ≡ (duplicate, none, trio))
    ⊎ ((h : ℕ) × (sc' : ShareChain ℕ) × (receive milli plain_codec false easy_bits first_32
            plain_wire header_hash
            (pos 1040)
            (pos 5)
            (share 4 3 1 1040)
            trio
          ≡ (pending_share, some h, sc'))
        × Stored milli plain_codec false easy_bits first_32 plain_wire header_hash
            (pos 1040)
            (pos 5)
            (share 4 3 1 1040)
            trio
            h
            sc')
receive-Stored_example =
    receive-Stored milli plain_codec false easy_bits first_32 plain_wire header_hash (pos 1040)
      (pos 5) (share 4 3 1 1040) trio

-- An old share on the third.
abbrev fourth : Share ℕ
fourth = record (share 4 3 1 1040) { type = 17; pow_hash = some 0 }

abbrev grown : ShareChain ℕ
grown =
    received_chain milli plain_codec false easy_bits first_32 plain_wire header_hash (pos 1040)
      (pos 5) (fourth ∷ []) rebuilt

-- The share is stored.
grown_keys : map (λ e. e.0) grown.shares ≡ 3 ∷ 2 ∷ 1 ∷ 4 ∷ []
unfolding receive_all note_result receive store check_share_time ◌+ℤ◌ ◌-ℤ◌ check_share_target_floor
    get_target_diff target_to_diff is_valid share_has_standard_payout is_standard_payout be_value
    clone_bytes le_bytes
grown_keys = refl

grown-Ranked : Ranked milli grown (λ x. x)
unfolding receive_all note_result receive store check_share_time ◌+ℤ◌ ◌-ℤ◌ check_share_target_floor
    get_target_diff target_to_diff is_valid share_has_standard_payout is_standard_payout be_value
    clone_bytes le_bytes get_prev_key decode_share_address
grown-Ranked x p s t at up there =
    All-Ranked grown.shares x p s
      (
        λ q e. ground (arith, e),
        (λ q e. ground (arith, e), (λ q e. ground (arith, e), (λ q e. ground (arith, e), tt))),
      )
      at up

rebuilt-Powed : Powed milli plain_codec false easy_bits first_32 plain_wire rebuilt rebuilt.shares
rebuilt-Powed = (inr (_, refl), (inr (_, refl), (inr (_, refl), tt)))

add_shares_outcomes-Whole_example :
    (outs : List (Outcome milli plain_codec false easy_bits first_32 plain_wire)) × (vn : ℕ)
    × (sc' : ShareChain ℕ) × (add_shares_outcomes milli plain_codec false easy_bits first_32
          plain_wire header_hash
          (pos 1040)
          (pos 5)
          (fourth ∷ [])
          rebuilt
        ≡ some (outs, vn, sc'))
    × Whole milli sc'
    × Powed milli plain_codec false easy_bits first_32 plain_wire sc' sc'.shares
add_shares_outcomes-Whole_example =
    add_shares_outcomes-Whole milli plain_codec false easy_bits first_32 plain_wire header_hash
      (pos 1040) (pos 5) (fourth ∷ []) rebuilt (λ x. x) grown-Ranked rebuilt-Powed rebuilt-Whole
