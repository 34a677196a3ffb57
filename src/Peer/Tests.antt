-- ===== src/Peer/Tests.antt =====
-- The theorems on peers, at a short history and at one step.
use p2pool_go_vtc.Prelude.{ℕ, ◌≡◌, ◌≤◌, ◌↔◌, refl, true, false, some, List, [], ◌∷◌}
use p2pool_go_vtc.Prelude.Int.{ℤ, pos, ◌-ℤ◌}
use p2pool_go_vtc.Prelude.Bytes.{Bytes}
use p2pool_go_vtc.Prelude.Eq.{bytes_Eq}
use p2pool_go_vtc.Prelude.Dict.{Dict, get_or}
use p2pool_go_vtc.Peer.Score.{new_score, count_share, within_ratio, record_share}
use p2pool_go_vtc.Peer.Score.Once.{
  Event, shared, good_since, bad_since, scores_after, signalled, Faithful, scores_after-Faithful,
  record_share-signal_iff,
}
use p2pool_go_vtc.Peer.Download.{ShareReq, World, Outcome, step, wanted, expire}
use p2pool_go_vtc.Peer.Download.Requests.{Draws, Asks, step-Asks}
use p2pool_go_vtc.Sample.{milli}

abbrev alice : Bytes
alice = 1 ∷ []

-- Four bad shares.
abbrev history : List Event
history = shared alice true ∷ shared alice true ∷ shared alice true ∷ shared alice true ∷ []

scores_after-Faithful_example : Faithful milli alice history
scores_after-Faithful_example = scores_after-Faithful milli alice history

record_share-signal_iff_example :
    let now = count_share (get_or new_score alice (scores_after milli history)) true in
    ((record_share milli (scores_after milli history) alice true).1 ≡ true) ↔ (
      (signalled milli alice history ≡ false)
      × (5 ≤ bad_since alice (shared alice true ∷ history))
      × (within_ratio milli now ≡ false)
      × (now.bad ≡ bad_since alice (shared alice true ∷ history))
      × (now.good ≡ good_since alice (shared alice true ∷ history)))
record_share-signal_iff_example = record_share-signal_iff milli alice true history

-- Hash 8 was answered a second ago, hash 9 is still wanted; the peer sends three shares.
abbrev world : World
world = record {
  now = pos 100000000000;
  missing = 8 ∷ 9 ∷ [];
  stops = 5 ∷ [];
  peers = alice ∷ [];
  intn = λ k n. 0;
  fetch = λ pid req. some 3;
}

abbrev lately : Dict ℕ ℤ
lately = (8, pos 99000000000) ∷ (9, pos 10000000000) ∷ []

world-Draws : Draws world
world-Draws k n some_room = some_room

abbrev asked_9 : ShareReq
asked_9 = record { hashes = 9 ∷ []; parents = 0; stops = 5 ∷ [] }

abbrev after : Outcome
after = record {
  answered = (8, pos 99000000000) ∷ (9, pos 100000000000) ∷ [];
  wait = 0;
  request = some (alice, asked_9);
}

stepped : step world lately ≡ some after
unfolding step wanted expire ◌-ℤ◌
stepped = refl

step-Asks_example : Asks world lately alice asked_9
step-Asks_example = step-Asks world lately after alice asked_9 world-Draws stepped refl
