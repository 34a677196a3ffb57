-- ===== src/Template/Light.antt =====
-- `ApplyRemoteTemplateJSON` of work/manager.go with the check of the previous block that it calls.
use p2pool_go_vtc.Prelude.{
  ℕ, ◌≡◌, refl, sym, subst, inl, inr, Bool, true, false, Option, some, List, [], ◌∷◌, Bool-cases,
  Option-cases, arith,
}
use p2pool_go_vtc.Prelude.Int.{ℤ}
use p2pool_go_vtc.Prelude.Bytes.{Bytes}
use p2pool_go_vtc.Prelude.Eq.{bytes_Eq}
use p2pool_go_vtc.Prelude.Dict.{get_or, Distinct}
use p2pool_go_vtc.Env.{Float64}
use p2pool_go_vtc.Share.{target_to_diff}
use p2pool_go_vtc.Chain.{ShareChain}
use p2pool_go_vtc.Template.{BlockTemplate, Templates}
use p2pool_go_vtc.Template.Headers.{
  RawHeader, knows_block_hash, get_recent_network_bits, verify_header80, links,
  verify_template_prev_header,
}
use p2pool_go_vtc.Template.Apply.{apply_remote_template}
use p2pool_go_vtc.Template.Applied.{Accepted, apply_remote_template-Accepted}

module _ (fl : Float64) (compact_to_big : ℕ → ℤ) (parse_header : Bytes → Option RawHeader)
    (hash_text : ℕ → Bytes) (parse_bits : Bytes → Option ℕ) (sc : ShareChain (fl.F)) where
  open fl use {F}

  abbrev check : Bytes → Bytes → F → Option RawHeader
  check raw expected ref = verify_header80 fl compact_to_big parse_header raw expected ref

  abbrev pub check_prev : BlockTemplate → Templates → Bool × Templates
  check_prev t wm =
      verify_template_prev_header fl compact_to_big parse_header hash_text parse_bits sc t wm

  abbrev pub ref_diff : F
  ref_diff = target_to_diff fl (some (compact_to_big (get_recent_network_bits sc)))

  -- Headers that pass the check lead from a block to one that the chain knows.
  pub data Leads (ref : F) : Bytes → Type 0 where
    known : {cur : Bytes} → knows_block_hash hash_text sc cur ≡ true → Leads ref cur
    back :
        {cur : Bytes} {hdr : RawHeader} (raw : Bytes)
        → verify_header80 fl compact_to_big parse_header raw cur ref ≡ some hdr
        → Leads ref hdr.prev_block
        → Leads ref cur

  links-Leads :
      (ref : F) (cur : Bytes) (linked : Bool) (ancs : List Bytes)
      → (linked ≡ true → Leads ref cur)
      → links fl compact_to_big parse_header hash_text parse_bits sc ref cur linked ancs ≡ true
      → Leads ref cur
  unfolding links
  links-Leads ref cur linked [] from e = from e
  links-Leads ref cur true (anc ∷ ancs) from e = from refl
  links-Leads ref cur false (anc ∷ ancs) from e = elim (Option-cases (check anc cur ref)) [
    | inl bad ↦ absurd (ground (arith, e, bad))
    | inr (hdr, at) ↦ elim (Bool-cases (knows_block_hash hash_text sc cur)) [
      | inl here ↦ known here
      | inr not_here ↦ elim (Bool-cases (knows_block_hash hash_text sc hdr.prev_block)) [
        | inl next ↦ back anc at (known next)
        | inr no_next ↦ back anc at (
            links-Leads ref hdr.prev_block false ancs (λ f. absurd (cc))
              (ground (arith, e, at, not_here, no_next)))
      ]
    ]
  ]

  -- The previous block was found good before, or is good now.
  pub data GoodParent (t : BlockTemplate) (wm : Templates) : Type 0 where
    before : get_or false t.previous_block_hash wm.verified_blocks ≡ true → GoodParent t wm
    proven :
        (hdr : RawHeader)
        → verify_header80 fl compact_to_big parse_header t.prev_block_header_hex
            t.previous_block_hash ref_diff
          ≡ some hdr
        → Leads ref_diff t.previous_block_hash
        → GoodParent t wm

  check_prev-GoodParent :
      (t : BlockTemplate) (wm : Templates) → (check_prev t wm).0 ≡ true → GoodParent t wm
  unfolding verify_template_prev_header
  check_prev-GoodParent t wm e =
      elim (Bool-cases (get_or false t.previous_block_hash wm.verified_blocks)) [
        | inl seen ↦ before seen
        | inr new ↦
            elim (Option-cases (check t.prev_block_header_hex t.previous_block_hash ref_diff)) [
              | inl bad ↦ absurd (ground (arith, e, new, bad))
              | inr (hdr, at) ↦
                  proven hdr at
                    (elim (Bool-cases (knows_block_hash hash_text sc t.previous_block_hash)) [
                      | inl here ↦ known here
                      | inr far ↦ back t.prev_block_header_hex at (
                          links-Leads ref_diff hdr.prev_block
                            (knows_block_hash hash_text sc hdr.prev_block) t.ancestor_headers_hex
                            known (ground (arith, e, new, at, far)))
                    ])
            ]
      ]

  check_prev-kept :
      (t : BlockTemplate) (wm : Templates) → (check_prev t wm).1.peer_tmpl ≡ wm.peer_tmpl
  unfolding verify_template_prev_header
  check_prev-kept t wm = ground arith

  module _ (sha256 : Bytes → Bytes) (decimal : ℕ → Bytes) where
    -- `ApplyRemoteTemplateJSON` up to the blocks, on a template that was read.
    unfoldable pub apply_remote_template_json :
        Bool
        → ℤ
        → Bytes
        → Bytes
        → Bool
        → BlockTemplate
        → Templates
        → Option BlockTemplate × Templates
    apply_remote_template_json light now peer_id voter_key is_pinned t wm =
        apply_remote_template sha256 decimal light now peer_id voter_key is_pinned
          (λ u m.
            verify_template_prev_header fl compact_to_big parse_header hash_text parse_bits sc u m)
          t wm

    -- A light node takes over a template that a peer sent only where its previous block was found good
    -- before or checked headers lead from it to a block that the share chain knows; it is one for light
    -- nodes; no fee is negative; its coinbase value is positive and at most the subsidy and the fees, of
    -- which at most the subsidy counts; and its height is not below the current template's, while that
    -- is fresh, nor over 100 above. It then takes the transactions only where votes of two different
    -- voters are for them, by their hash, and a trusted peer's is, or else what a trusted peer's vote
    -- and another voter's, of another peer if that is trusted too, have in common, with the subsidy and
    -- those fees; otherwise it takes none of them, with the subsidy alone. Votes count that are less
    -- than two minutes old and for the same previous block and bits. The map of votes has one entry for
    -- a key.
    pub apply_remote_template_json-Accepted :
        (light : Bool) (now : ℤ) (peer_id voter_key : Bytes) (is_pinned : Bool) (t : BlockTemplate)
        (wm : Templates) (t' : BlockTemplate) (wm' : Templates)
        → Distinct wm.peer_tmpl
        → apply_remote_template_json light now peer_id voter_key is_pinned t wm ≡ (some t', wm')
        → GoodParent t wm × Accepted sha256 decimal light now check_prev t wm t' wm'
    unfolding apply_remote_template_json
    apply_remote_template_json-Accepted light now peer_id voter_key is_pinned t wm t' wm' d e =
        let a =
          apply_remote_template-Accepted sha256 decimal light now peer_id voter_key is_pinned
            check_prev t wm t' wm' (subst Distinct (sym (check_prev-kept t wm)) d) e in
        (check_prev-GoodParent t wm a.checked, a)
