-- ===== src/Template/Apply.antt =====
-- `ApplyRemoteTemplateJSON` of work/manager.go up to the blocks, with nothing beside it.
use p2pool_go_vtc.Prelude.{
  ℕ, Bool, true, false, ◌&&◌, ◌||◌, not, Option, none, some, [], length, if◌then◌else◌,
}
use p2pool_go_vtc.Prelude.Int.{ℤ, pos, negsuc, ◌-ℤ◌, ltb_ℤ, leb_ℤ, add64, pos_part}
use p2pool_go_vtc.Prelude.Bytes.{Bytes, bytes_eq}
use p2pool_go_vtc.Prelude.Eq.{bytes_Eq}
use p2pool_go_vtc.Prelude.Dict.{Dict, get_or, insert}
use p2pool_go_vtc.Template.{
  BlockTemplate, PeerTmplVote, Templates, is_empty, subsidy, total_fees, min_ℤ, no_votes, tally_all,
  agree, current, tx_set_hash,
}

-- The first checks of a template: is it for a light node at all?
unfoldable pub well_formed : BlockTemplate → Bool
well_formed t =
    t.full_node
    && ltb_ℤ (pos 0) t.height
    && not (is_empty t.previous_block_hash)
    && not (is_empty t.bits)

-- The current template's height, or zero when the last agreement is over three minutes old.
unfoldable pub current_height : ℤ → Templates → ℤ
current_height now wm =
    let h = (current wm.templates (pos 0, none)).0 in
    if ltb_ℤ (pos 0) h && ltb_ℤ (pos 180000000000) (now -ℤ wm.last_agreed) then pos 0 else h

-- The key and the template of that height.
unfoldable pub current_template : ℤ → Templates → Option (Bytes × BlockTemplate)
current_template now wm =
    let c = current wm.templates (pos 0, none) in
    if ltb_ℤ (pos 0) c.0 && ltb_ℤ (pos 180000000000) (now -ℤ wm.last_agreed) then none else c.1

-- Is a template below the current one, or over a hundred blocks above it?
unfoldable pub out_of_reach : ℤ → BlockTemplate → Bool
out_of_reach cur t =
    ltb_ℤ (pos 0) cur && (ltb_ℤ t.height cur || ltb_ℤ (add64 cur (pos 100)) t.height)

module _ (sha256 : Bytes → Bytes) (decimal : ℕ → Bytes) where
  -- The vote for a template.
  abbrev pub vote_of : ℤ → Bytes → Bool → BlockTemplate → PeerTmplVote
  vote_of now peer_id is_pinned t = record {
    peer_id = peer_id;
    pinned = is_pinned;
    prev = t.previous_block_hash;
    tx_hash = tx_set_hash sha256 decimal t.transactions;
    bits = t.bits;
    height = t.height;
    txs = t.transactions;
    ts = now;
  }

  -- Does the agreed template differ from the current one: in its previous block, in its transactions?
  unfoldable pub differs : Option (Bytes × BlockTemplate) → BlockTemplate → Bool × Bool
  differs cur t = (
    not (bytes_eq t.previous_block_hash (elim cur [ none ↦ [] | some c ↦ c.0 ])),
    not (
        bytes_eq (tx_set_hash sha256 decimal t.transactions)
          (elim cur [ none ↦ [] | some c ↦ tx_set_hash sha256 decimal c.1.transactions ])),
  )

  -- The agreed template put in place.
  unfoldable pub install :
      ℤ → Option (Bytes × BlockTemplate) → BlockTemplate → Templates → Templates
  install now cur t wm =
      let changed = differs cur t in
      let agreed = record wm { last_agreed = now } in
      let kept : Dict Bytes BlockTemplate = elim (changed.0) [ true ↦ [] | false ↦ wm.templates ] in
      if changed.0 || changed.1
      then record agreed { templates = insert t.previous_block_hash t kept }
      else agreed

  -- The vote, kept under its voter's key.
  unfoldable pub cast_vote : ℤ → Bytes → Bytes → Bool → BlockTemplate → Templates → Templates
  cast_vote now peer_id voter is_pinned t wm = elim (is_empty voter) [
    | true ↦ wm
    | false ↦ record wm { peer_tmpl = insert voter (vote_of now peer_id is_pinned t) wm.peer_tmpl }
  ]

  -- After the vote: the agreed template, and the state.
  unfoldable pub agree_on :
      ℤ → Bool → ℤ → BlockTemplate → Templates → Option BlockTemplate × Templates
  agree_on now is_pinned sub t wm = elim (out_of_reach (current_height now wm) t) [
    | true ↦ (none, wm)
    | false ↦
        let th = tx_set_hash sha256 decimal t.transactions in
        elim (agree t sub (tally_all now t th wm.peer_tmpl no_votes)
          (get_or false t.previous_block_hash wm.verified_blocks) is_pinned (length wm.peer_tmpl)) [
            | none ↦ (none, wm)
            | some t' ↦ (some t', install now (current_template now wm) t' wm)
          ]
  ]

  -- The whole, up to the blocks: the agreed template, and the state. `verify` is the check of the
  -- previous block.
  unfoldable pub apply_remote_template :
      Bool
      → ℤ
      → Bytes
      → Bytes
      → Bool
      → (BlockTemplate → Templates → Bool × Templates)
      → BlockTemplate
      → Templates
      → Option BlockTemplate × Templates
  apply_remote_template light now peer_id voter_key is_pinned verify t wm =
      elim (light && well_formed t) [
        | false ↦ (none, wm)
        | true ↦
            let voter = if is_empty voter_key then peer_id else voter_key in
            let sub = pos (subsidy (pos_part t.height)) in
            elim (total_fees t.transactions (pos 0)) [
              | none ↦ (none, wm)
              | some sum ↦
                  let fees = min_ℤ sum sub in
                  let checked = verify t wm in
                  let score = get_or (pos 0) peer_id checked.1.peer_scores in
                  if not (checked.0)
                  then (none, checked.1)
                  else if ltb_ℤ score (negsuc 1)
                  then (none, checked.1)
                  else if leb_ℤ t.coinbase_value (pos 0) || ltb_ℤ (add64 sub fees) t.coinbase_value
                  then (
                    none,
                    record checked.1 {
                      peer_scores = insert peer_id (score -ℤ pos 1) checked.1.peer_scores;
                    },
                  )
                  else agree_on now is_pinned sub t
                      (cast_vote now peer_id voter is_pinned t checked.1)
            ]
      ]
