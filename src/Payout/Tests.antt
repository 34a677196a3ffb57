-- ===== src/Payout/Tests.antt =====
-- The payout theorems at concrete inputs.
use p2pool_go_vtc.Share.Owner.{decode_share_address}
use p2pool_go_vtc.Address.{is_standard_payout}
use p2pool_go_vtc.Share.Check.{share_has_standard_payout}
use p2pool_go_vtc.Script.{le_bytes}
use p2pool_go_vtc.Share.Hash.{be_value, clone_bytes}
use p2pool_go_vtc.Chain.{
  get_effective_share_diff, get_expected_share_difficulty, get_ordered_chain_walk, walk_loop,
}
use p2pool_go_vtc.Chain.Window.{get_shares_for_payout, payout_loop, visit, start_window}
use p2pool_go_vtc.Prelude.{
  ℕ, ◌*◌, ◌/◌, ◌≡◌, ◌≤◌, ◌<◌, refl, false, none, some, List, [], ◌∷◌, ◌++◌, get_elem?, replicate,
  arith,
}
use p2pool_go_vtc.Prelude.Int.{pos, ◌-ℤ◌}
use p2pool_go_vtc.Prelude.Bytes.{Bytes}
use p2pool_go_vtc.Prelude.Dict.{Dict, keys}
use p2pool_go_vtc.Share.{get_target_diff, target_to_diff, get_prev_key}
use p2pool_go_vtc.Payout.{
  PayoutOutput, sort_strings, add_weights, paid_shares, calculate_pplns_outputs_at_tip,
}
use p2pool_go_vtc.Payout.Conservation.{
  total_of, WellFormed, calculate_pplns_outputs_at_tip-total,
  calculate_pplns_outputs_at_tip-WellFormed,
}
use p2pool_go_vtc.Payout.Fairness.{paid_to, calculate_pplns_outputs_at_tip-share}
use p2pool_go_vtc.Sample.{milli, plain_codec, easy_bits, trio}

abbrev pool_addr : Bytes
pool_addr = 71 ∷ replicate 20 9 ++ replicate 4 0

abbrev addr_of : ℕ → Bytes
addr_of owner = 71 ∷ owner ∷ replicate 19 7 ++ replicate 4 0

-- The payouts of 100 units on the three shares.
abbrev trio_payouts : List PayoutOutput
trio_payouts =
    calculate_pplns_outputs_at_tip milli plain_codec false easy_bits (pos 100) pool_addr (some trio)
      none

calculate_pplns_outputs_at_tip-total_example : total_of trio_payouts ≡ 100
calculate_pplns_outputs_at_tip-total_example =
    calculate_pplns_outputs_at_tip-total milli plain_codec false easy_bits 100 pool_addr (some trio)
      none

calculate_pplns_outputs_at_tip-WellFormed_example : WellFormed trio_payouts
calculate_pplns_outputs_at_tip-WellFormed_example =
    calculate_pplns_outputs_at_tip-WellFormed milli plain_codec false easy_bits (pos 100) pool_addr
      (some trio) none

abbrev both_weights : Dict Bytes ℕ
both_weights = (addr_of 2, 2000000) ∷ (addr_of 1, 1000000) ∷ []

trio_weights :
    add_weights milli plain_codec false (paid_shares milli easy_bits (some trio) none) ([], 0)
    ≡ (both_weights, 3000000)
unfolding add_weights paid_shares get_shares_for_payout payout_loop visit start_window ◌-ℤ◌
    get_effective_share_diff get_target_diff target_to_diff be_value clone_bytes le_bytes
    get_expected_share_difficulty get_ordered_chain_walk walk_loop get_prev_key
    share_has_standard_payout is_standard_payout decode_share_address
trio_weights = refl

sorted_first : get_elem? (sort_strings (keys both_weights)) 0 ≡ some (addr_of 1)
unfolding sort_strings
sorted_first = refl

calculate_pplns_outputs_at_tip-share_example :
    (100 * 1000000 / 3000000 ≤ paid_to (addr_of 1) trio_payouts)
    × (1 < 2 → paid_to (addr_of 1) trio_payouts ≡ 100 * 1000000 / 3000000)
calculate_pplns_outputs_at_tip-share_example =
    calculate_pplns_outputs_at_tip-share milli plain_codec false easy_bits 99 pool_addr (some trio)
      none both_weights 3000000 0 (addr_of 1) trio_weights (omega arith) sorted_first
