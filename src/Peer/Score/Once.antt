-- ===== src/Peer/Score/Once.antt =====
-- When `peerScores.record` of p2p/score.go asks to disconnect a peer, over a history of shares.
use p2pool_go_vtc.Prelude.{
  ℕ, ◌+◌, ◌≤◌, ◌≡◌, refl, ◌↔◌, inl, inr, Bool, true, false, ◌&&◌, ◌||◌, not, List, [], ◌∷◌,
  if◌then◌else◌, arith, Bool-cases, ap, ◌∙◌,
}
use p2pool_go_vtc.Prelude.Bytes.{Bytes, bytes_eq, bytes_eq_refl}
use p2pool_go_vtc.Prelude.Eq.{bytes_Eq, bytes_eq_iff}
use p2pool_go_vtc.Prelude.Dict.{get_or, lookup-insert, lookup-erase}
use p2pool_go_vtc.Env.{Float64}
use p2pool_go_vtc.Peer.Score.{
  PeerScore, PeerScores, new_score, count_share, within_ratio, tolerated, record_share, forget,
}

-- What happens to the scores: a share from a peer, or a peer that is forgotten.
pub data Event : Type 0 where
  shared : Bytes → Bool → Event
  left : Bytes → Event

-- The good shares of a peer since it was last forgotten, by the history, newest first.
pub good_since : Bytes → List Event → ℕ
good_since id [] = 0
good_since id (shared p bad ∷ es) =
    let n = good_since id es in if bytes_eq p id && not bad then n + 1 else n
good_since id (left p ∷ es) = let n = good_since id es in if bytes_eq p id then 0 else n

pub bad_since : Bytes → List Event → ℕ
bad_since id [] = 0
bad_since id (shared p bad ∷ es) =
    let n = bad_since id es in if bytes_eq p id && bad then n + 1 else n
bad_since id (left p ∷ es) = let n = bad_since id es in if bytes_eq p id then 0 else n

module _ (fl : Float64) where
  open fl use {F}

  -- The scores after a history.
  pub scores_after : List Event → PeerScores
  scores_after [] = []
  scores_after (shared p bad ∷ es) = (record_share fl (scores_after es) p bad).0
  scores_after (left p ∷ es) = forget fl (scores_after es) p

  -- Was a signal given for the peer since it was last forgotten?
  pub signalled : Bytes → List Event → Bool
  unfolding scores_after
  signalled id [] = false
  signalled id (shared p bad ∷ es) =
      let before = signalled id es in
      if bytes_eq p id then before || (record_share fl (scores_after es) p bad).1 else before
  signalled id (left p ∷ es) =
      let before = signalled id es in if bytes_eq p id then false else before

  -- The score of a peer after one more share.
  scored : PeerScore → Bool → PeerScore
  scored ps bad =
      let ps' = count_share ps bad in
      if tolerated fl ps' then ps' else record ps' { disconnected = true }

  scored_fields :
      (ps : PeerScore) (bad : Bool)
      → ((scored ps bad).good ≡ (if not bad then ps.good + 1 else ps.good))
        × ((scored ps bad).bad ≡ (if bad then ps.bad + 1 else ps.bad))
        × ((scored ps bad).disconnected
            ≡ (ps.disconnected || not (tolerated fl (count_share ps bad))))
  unfolding scored
  scored_fields ps bad = ground arith

  -- A recorded share changes the score of its peer alone.
  record_share_self :
      (m : PeerScores) (p id : Bytes) (bad : Bool)
      → bytes_eq p id ≡ true
      → (get_or new_score id (record_share fl m p bad).0 ≡ scored (get_or new_score id m) bad)
        × ((record_share fl m p bad).1
            ≡ not (tolerated fl (count_share (get_or new_score id m) bad)))
  unfolding record_share scored
  record_share_self m p id bad same = rw ((bytes_eq_iff p id).0 same) (
      ground (
        arith,
        bytes_eq_iff id id,
        lookup-insert id id (count_share (get_or new_score id m) bad) m,
        lookup-insert id id
            (record (count_share (get_or new_score id m) bad) { disconnected = true }) m,
      ))

  record_share-other :
      (m : PeerScores) (p id : Bytes) (bad : Bool)
      → bytes_eq p id ≡ false
      → get_or new_score id (record_share fl m p bad).0 ≡ get_or new_score id m
  unfolding record_share
  record_share-other m p id bad differ = ground (
    arith,
    lookup-insert p id (count_share (get_or new_score p m) bad) m,
    lookup-insert p id (record (count_share (get_or new_score p m) bad) { disconnected = true }) m,
  )

  -- The score of a peer is what the history says of it.
  pub record Faithful (id : Bytes) (es : List Event) : Type 0 where
    pub good : (get_or new_score id (scores_after es)).good ≡ good_since id es
    pub bad : (get_or new_score id (scores_after es)).bad ≡ bad_since id es
    pub mark : (get_or new_score id (scores_after es)).disconnected ≡ signalled id es

  shared-Faithful :
      (id p : Bytes) (bad : Bool) (es : List Event)
      → Faithful id es
      → Faithful id (shared p bad ∷ es)
  unfolding scores_after signalled good_since bad_since
  shared-Faithful id p bad es ih = elim (Bool-cases (bytes_eq p id)) [
    | inl same ↦
        let (now, signal) = record_share_self (scores_after es) p id bad same in
        let (good, bad', mark) = scored_fields (get_or new_score id (scores_after es)) bad in
        record {
          good = ap (λ ps. ps.good) now ∙ good ∙ rw (same, ih.good);
          bad = ap (λ ps. ps.bad) now ∙ bad' ∙ rw (same, ih.bad);
          mark = ap (λ ps. ps.disconnected) now ∙ mark ∙ rw (same, signal, ih.mark);
        }
    | inr differ ↦
        let now = record_share-other (scores_after es) p id bad differ in
        record {
          good = ap (λ ps. ps.good) now ∙ rw differ ih.good;
          bad = ap (λ ps. ps.bad) now ∙ rw differ ih.bad;
          mark = ap (λ ps. ps.disconnected) now ∙ rw differ ih.mark;
        }
  ]

  left-Faithful : (id p : Bytes) (es : List Event) → Faithful id es → Faithful id (left p ∷ es)
  unfolding scores_after signalled good_since bad_since forget
  left-Faithful id p es ih =
      let gone = lookup-erase p id (scores_after es) in
      record { good = ground arith; bad = ground arith; mark = ground arith }

  -- After any history a peer's counters are the numbers of its good and bad shares since it was last
  -- forgotten, and it is marked exactly if a signal was given for it since then.
  pub scores_after-Faithful : (id : Bytes) (es : List Event) → Faithful id es
  unfolding scores_after signalled good_since bad_since
  scores_after-Faithful id [] = record { good = refl; bad = refl; mark = refl }
  scores_after-Faithful id (shared p bad ∷ es) =
      shared-Faithful id p bad es (scores_after-Faithful id es)
  scores_after-Faithful id (left p ∷ es) = left-Faithful id p es (scores_after-Faithful id es)

  -- The signal to disconnect is given exactly when none was given since the peer was last forgotten,
  -- it has by now sent at least five bad shares, and they are over the ratio of all.
  pub record_share-signal_iff :
      (id : Bytes) (bad : Bool) (es : List Event)
      → let now = count_share (get_or new_score id (scores_after es)) bad in
        ((record_share fl (scores_after es) id bad).1 ≡ true) ↔ (
          (signalled id es ≡ false)
          × (5 ≤ bad_since id (shared id bad ∷ es))
          × (within_ratio fl now ≡ false)
          × (now.bad ≡ bad_since id (shared id bad ∷ es))
          × (now.good ≡ good_since id (shared id bad ∷ es)))
  unfolding bad_since good_since
  record_share-signal_iff id bad es =
      let ih = scores_after-Faithful id es in
      let (now, signal) = record_share_self (scores_after es) id id bad (bytes_eq_refl id) in
      ground (arith, bytes_eq_refl id)
