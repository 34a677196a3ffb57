-- ===== src/Peer/Score.antt =====
-- Peer scores: p2p/score.go. The mutex is left out: each function holds it throughout.
pub mod Once
use p2pool_go_vtc.Prelude.{
  ℕ, ◌+◌, Bool, true, false, ◌&&◌, ◌||◌, not, Option, none, some, List, [], ◌∷◌, length, ltb, ◌==◌,
  if◌then◌else◌,
}
use p2pool_go_vtc.Prelude.Int.{pos}
use p2pool_go_vtc.Prelude.Bytes.{Bytes}
use p2pool_go_vtc.Prelude.Eq.{bytes_Eq}
use p2pool_go_vtc.Prelude.Dict.{Dict, lookup, get_or, insert, erase}
use p2pool_go_vtc.Env.{Float64}

abbrev pub peer_score_min_bad : ℕ
peer_score_min_bad = 5

pub record PeerScore : Type 0 where
  pub good : ℕ
  pub bad : ℕ
  pub disconnected : Bool

abbrev pub new_score : PeerScore
new_score = record { good = 0; bad = 0; disconnected = false }

abbrev pub PeerScores : Type 0
PeerScores = Dict Bytes PeerScore

abbrev pub count_share : PeerScore → Bool → PeerScore
count_share ps bad =
    if bad then record ps { bad = ps.bad + 1 } else record ps { good = ps.good + 1 }

module _ (fl : Float64) where
  open fl use {F, fmul, fle, lit, of_int}

  -- `float64(ps.bad) <= peerScoreBadRatio*float64(ps.good+ps.bad)`
  abbrev pub within_ratio : PeerScore → Bool
  within_ratio ps = fle (of_int (pos ps.bad)) (fmul (lit 2 10) (of_int (pos (ps.good + ps.bad))))

  -- Does a score stay below the threshold, or has it crossed it before?
  abbrev pub tolerated : PeerScore → Bool
  tolerated ps = ps.disconnected || ltb ps.bad peer_score_min_bad || within_ratio ps

  -- `peerScores.record`
  unfoldable pub record_share : PeerScores → Bytes → Bool → PeerScores × Bool
  record_share m id bad =
      let ps = count_share (get_or new_score id m) bad in
      if tolerated ps
      then (insert id ps m, false)
      else (insert id (record ps { disconnected = true }) m, true)

  -- `peerScores.forget`
  unfoldable pub forget : PeerScores → Bytes → PeerScores
  forget m id = erase id m

  -- `Node.RecordShareOutcome`: the scores, and whether the peer's connections are closed.
  unfoldable pub record_share_outcome :
      (Bytes → Bool) → PeerScores → Bytes → Bool → PeerScores × Bool
  unfolding record_share
  record_share_outcome connected m id bad =
      if length id == 0 || not (connected id) then (m, false) else record_share m id bad
