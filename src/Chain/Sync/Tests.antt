-- ===== src/Chain/Sync/Tests.antt =====
-- The theorems on requests and replies, at three shares whose oldest parent is missing.
use p2pool_go_vtc.Share.{get_prev_key}
use p2pool_go_vtc.Prelude.{ℕ, ◌≡◌, ◌≤◌, ◌<◌, refl, some, [], ◌∷◌, length}
use p2pool_go_vtc.Prelude.Int.{pos, ◌-ℤ◌}
use p2pool_go_vtc.Chain.{ShareChain}
use p2pool_go_vtc.Chain.Sync.{
  get_shares_by_hash_with_parents, get_missing_parent_hashes, get_stop_hashes, missing_loop,
  skips_head, missing_tail, tail_loop, remember, stop_loop, add_stop, ancestor, reply_all,
  reply_walk,
}
use p2pool_go_vtc.Chain.Sync.Replies.{AllNew, Replied, get_shares_by_hash_with_parents-Replied}
use p2pool_go_vtc.Chain.Sync.Wants.{AllMissing, get_missing_parent_hashes-AllMissing}
use p2pool_go_vtc.Chain.Sync.Stops.{AllHeld, get_stop_hashes-AllHeld}
use p2pool_go_vtc.Sample.{milli, share, chain_of}

-- Two heads, 13 and 14, on 12, whose parent 11 is missing.
abbrev fork : ShareChain ℕ
fork =
    chain_of ((13, share 13 12 2 1030) ∷ (14, share 14 12 2 1030) ∷ (12, share 12 11 1 1020) ∷ [])
      (some 13)

get_shares_by_hash_with_parents-Replied_example :
    Replied fork.shares
      (11 ∷ [])
      (get_shares_by_hash_with_parents fork (13 ∷ 14 ∷ []) (pos 5) (11 ∷ []))
get_shares_by_hash_with_parents-Replied_example =
    get_shares_by_hash_with_parents-Replied fork (13 ∷ 14 ∷ []) (pos 5) (11 ∷ [])

get_missing_parent_hashes-AllMissing_example :
    AllMissing fork.shares (get_missing_parent_hashes milli fork (pos 1040) 10)
    × AllNew (get_missing_parent_hashes milli fork (pos 1040) 10)
    × (0 < 10 → length (get_missing_parent_hashes milli fork (pos 1040) 10) ≤ 10)
get_missing_parent_hashes-AllMissing_example =
    get_missing_parent_hashes-AllMissing milli fork (pos 1040) 10

get_stop_hashes-AllHeld_example :
    AllHeld fork.shares (get_stop_hashes milli fork 3)
    × AllNew (get_stop_hashes milli fork 3)
    × (0 < 3 → length (get_stop_hashes milli fork 3) ≤ 3)
get_stop_hashes-AllHeld_example = get_stop_hashes-AllHeld milli fork 3

-- One parent is asked for, once.
fork_asks : get_missing_parent_hashes milli fork (pos 1040) 10 ≡ 11 ∷ []
unfolding get_missing_parent_hashes missing_loop get_prev_key skips_head ◌-ℤ◌ missing_tail tail_loop
    remember
fork_asks = refl

fork_stops : get_stop_hashes milli fork 3 ≡ 14 ∷ 12 ∷ 13 ∷ []
unfolding get_stop_hashes stop_loop get_prev_key add_stop ancestor
fork_stops = refl

fork_replies :
    (get_shares_by_hash_with_parents fork (13 ∷ 14 ∷ []) (pos 5) (11 ∷ [])).0 ≡ 13 ∷ 12 ∷ 14 ∷ []
unfolding get_shares_by_hash_with_parents reply_all reply_walk
fork_replies = refl
