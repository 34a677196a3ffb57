-- ===== src/Chain/Tests.antt =====
-- The theorems on the chain, at three shares and at a long chain.
use p2pool_go_vtc.Script.{le_bytes}
use p2pool_go_vtc.Share.Hash.{be_value, clone_bytes}
use p2pool_go_vtc.Prelude.{
  ℕ, zero, suc, ◌+◌, ◌*◌, ◌≡◌, ◌≤◌, refl, true, false, none, some, [], ◌∷◌, length, head?, All,
  arith, ltb,
}
use p2pool_go_vtc.Prelude.Int.{pos, ◌-ℤ◌}
use p2pool_go_vtc.Prelude.Eq.{nat_Eq}
use p2pool_go_vtc.Prelude.Dict.{Dict, lookup}
use p2pool_go_vtc.Share.{Share, get_prev_key, get_target_diff, target_to_diff}
use p2pool_go_vtc.Share.Check.{min_pool_share_diff}
use p2pool_go_vtc.Chain.{
  ShareChain, default_pplns_window, max_pplns_window_age_secs, target_lookbehind,
  get_ordered_chain_walk, get_expected_share_difficulty, get_effective_share_diff, walk_loop,
}
use p2pool_go_vtc.Chain.Window.{
  get_shares_for_payout, has_complete_pplns_window, complete_loop, visit, start_window,
}
use p2pool_go_vtc.Chain.Walks.{
  live_ancestry, Grows, get_expected_share_difficulty-Grows, get_expected_share_difficulty-floor,
  ancestry,
}
use p2pool_go_vtc.Chain.Payable.{get_shares_for_payout-Grows}
use p2pool_go_vtc.Chain.Selection.{Paid, get_shares_for_payout-Paid}
use p2pool_go_vtc.Sample.{milli, easy_bits, share, chain_of, trio}

-- Holding one more share.
add_share : ℕ → Share ℕ → ShareChain ℕ → ShareChain ℕ
add_share h s sc = record sc { shares = (h, s) ∷ sc.shares }

add_share-Grows :
    (sc : ShareChain ℕ) (h : ℕ) (s : Share ℕ)
    → lookup h sc.shares ≡ none
    → Grows sc (add_share h s sc)
unfolding add_share
add_share-Grows sc h s new = record { kept = λ k t held. ground arith; larger = ground arith }

-- The three shares, and a fourth on top of them.
abbrev quartet : ShareChain ℕ
quartet = chain_of ((4, share 4 3 1 1040) ∷ trio.shares) (some 4)

quartet-Grows : Grows trio quartet
quartet-Grows = record { kept = λ k t held. ground arith; larger = ground arith }

same_difficulty :
    get_expected_share_difficulty milli quartet (some 3)
    ≡ get_expected_share_difficulty milli trio (some 3)
unfolding get_expected_share_difficulty get_ordered_chain_walk walk_loop get_prev_key
same_difficulty = refl

trio_complete : has_complete_pplns_window milli easy_bits trio (some 3) ≡ true
unfolding has_complete_pplns_window complete_loop visit start_window ◌-ℤ◌ get_effective_share_diff
    get_target_diff target_to_diff be_value clone_bytes le_bytes get_expected_share_difficulty
    get_ordered_chain_walk walk_loop get_prev_key
trio_complete = refl

get_shares_for_payout-Grows_example :
    get_shares_for_payout milli easy_bits quartet (some 3) default_pplns_window
    ≡ get_shares_for_payout milli easy_bits trio (some 3) default_pplns_window
get_shares_for_payout-Grows_example =
    get_shares_for_payout-Grows milli easy_bits trio quartet 3 quartet-Grows (ground arith)
      same_difficulty trio_complete

newest_first : head? (live_ancestry trio (some 3)) ≡ some (share 3 2 2 1030)
unfolding live_ancestry ancestry
newest_first = refl

get_shares_for_payout-Paid_example :
    All
      (Paid milli easy_bits (pos 1030 -ℤ pos max_pplns_window_age_secs))
      (get_shares_for_payout milli easy_bits trio (some 3) 2)
    × (length (get_shares_for_payout milli easy_bits trio (some 3) 2) ≤ 2)
get_shares_for_payout-Paid_example =
    get_shares_for_payout-Paid milli easy_bits trio (some 3) 2 (share 3 2 2 1030) (omega arith)
      newest_first

milli_irrefl : (a : ℕ) → ltb a a ≡ false
milli_irrefl a = ground arith

get_expected_share_difficulty-floor_example :
    ltb (get_expected_share_difficulty milli trio (some 3)) (min_pool_share_diff milli) ≡ false
get_expected_share_difficulty-floor_example =
    get_expected_share_difficulty-floor milli milli_irrefl trio (some 3)

-- The shares n, …, 1, each on the one below.
abbrev tower : ℕ → Dict ℕ (Share ℕ)
tower zero = []
tower (suc n) = (suc n, share (suc n) n 1 (1000 + 15 * n)) ∷ tower n

abbrev long_chain : ShareChain ℕ
long_chain = chain_of (tower 200) (some 200)

long_walk :
    length (get_ordered_chain_walk long_chain (some 200) target_lookbehind) ≡ target_lookbehind
unfolding get_ordered_chain_walk walk_loop get_prev_key
long_walk = refl

longer-Grows : Grows long_chain (add_share 500 (share 500 200 1 5000) long_chain)
longer-Grows = add_share-Grows long_chain 500 (share 500 200 1 5000) refl

get_expected_share_difficulty-Grows_example :
    get_expected_share_difficulty milli (add_share 500 (share 500 200 1 5000) long_chain) (some 200)
    ≡ get_expected_share_difficulty milli long_chain (some 200)
get_expected_share_difficulty-Grows_example =
    get_expected_share_difficulty-Grows milli long_chain
      (add_share 500 (share 500 200 1 5000) long_chain) 200 longer-Grows (ground arith) long_walk
