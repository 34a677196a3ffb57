-- ===== src/Template/Headers.antt =====
-- The check of a template's previous block: `verifyHeader80` and `verifyTemplatePrevHeader` of
-- work/manager.go, and what they ask the share chain (work/sharechain.go). The texts of hashes and
-- numbers, and a header from its hex digits with its Verthash, are parameters.
use p2pool_go_vtc.Prelude.{
  ℕ, Bool, true, false, ◌&&◌, ◌||◌, not, Option, none, some, List, [], ◌∷◌, length, ◌==◌,
  if◌then◌else◌,
}
use p2pool_go_vtc.Prelude.Int.{ℤ, pos, ltb_ℤ}
use p2pool_go_vtc.Prelude.Bytes.{Bytes, bytes_eq}
use p2pool_go_vtc.Prelude.Eq.{nat_Eq, bytes_Eq}
use p2pool_go_vtc.Prelude.Dict.{Dict, lookup, get_or, insert}
use p2pool_go_vtc.Env.{Float64}
use p2pool_go_vtc.Share.{Share, target_to_diff}
use p2pool_go_vtc.Chain.{ShareChain}
use p2pool_go_vtc.Chain.Index.{is_verified}
use p2pool_go_vtc.Template.{BlockTemplate, Templates, is_empty}

-- A header of 80 bytes: the texts of its hash and of its parent's, its bits and its Verthash, which
-- is `none` for an error.
pub record RawHeader : Type 0 where
  pub block_hash : Bytes
  pub prev_block : Bytes
  pub bits : ℕ
  pub pow : Option ℕ

module _ {F : Type 0} (hash_text : ℕ → Bytes) where
  -- The loop of `KnowsBlockHash`, and of `HasShareWithPrevBlock`.
  unfoldable pub names_prev_block : ShareChain F → Bytes → Dict ℕ (Share F) → Bool
  names_prev_block sc text [] = false
  names_prev_block sc text (e ∷ shares) =
      let rest = names_prev_block sc text shares in
      (is_verified sc e.0 && (elim e.1.min_header.previous_block [
        | none ↦ false
        | some p ↦ bytes_eq (hash_text p) text
      ]))
      || rest

  -- `HasShareWithPrevBlock`
  unfoldable pub has_share_with_prev_block : ShareChain F → Bytes → Bool
  has_share_with_prev_block sc text = not (is_empty text) && names_prev_block sc text sc.shares

  -- Is a verified share held under the text of its hash?
  unfoldable pub holds_verified : ShareChain F → Bytes → Dict ℕ (Share F) → Bool
  holds_verified sc text [] = false
  holds_verified sc text (e ∷ shares) =
      let rest = holds_verified sc text shares in
      (bytes_eq (hash_text e.0) text && is_verified sc e.0) || rest

  -- `KnowsBlockHash`
  unfoldable pub knows_block_hash : ShareChain F → Bytes → Bool
  knows_block_hash sc text =
      not (is_empty text)
      && not (length sc.verified == 0)
      && (holds_verified sc text sc.shares || names_prev_block sc text sc.shares)

module _ {F : Type 0} where
  -- The loop of `GetRecentNetworkBits`.
  unfoldable pub first_bits : ShareChain F → Dict ℕ (Share F) → ℕ
  first_bits sc [] = 0
  first_bits sc (e ∷ shares) =
      let rest = first_bits sc shares in
      if is_verified sc e.0 && not (e.1.min_header.bits == 0) then e.1.min_header.bits else rest

  -- `GetRecentNetworkBits`
  unfoldable pub get_recent_network_bits : ShareChain F → ℕ
  get_recent_network_bits sc = elim sc.tip_hash [
    | none ↦ first_bits sc sc.shares
    | some t ↦ elim (lookup t sc.shares) [
      | none ↦ first_bits sc sc.shares
      | some s ↦ if s.min_header.bits == 0 then first_bits sc sc.shares else s.min_header.bits
    ]
  ]

module _ (fl : Float64) (compact_to_big : ℕ → ℤ) (parse_header : Bytes → Option RawHeader) where
  open fl use {F, fmul, flt, fle, lit}

  -- Is a difficulty more than twice away from another?
  abbrev pub far_from : F → F → Bool
  far_from d ref = flt d (fmul ref (lit 1 2)) || flt (fmul ref (lit 2 1)) d

  -- `verifyHeader80`, with a Verthash at hand.
  unfoldable pub verify_header80 : Bytes → Bytes → F → Option RawHeader
  verify_header80 raw expected ref = elim (length raw == 160) [
    | false ↦ none
    | true ↦ elim (parse_header raw) [
      | none ↦ none
      | some hdr ↦
          let d = target_to_diff fl (some (compact_to_big hdr.bits)) in
          if not (is_empty expected) && not (bytes_eq hdr.block_hash expected)
          then none
          else if hdr.bits == 0
          then none
          else if fle d (lit 0 1) || fle ref (lit 0 1)
          then none
          else if far_from d ref
          then none
          else elim hdr.pow [
            | none ↦ none
            | some p ↦ if ltb_ℤ (compact_to_big hdr.bits) (pos p) then none else some hdr
          ]
    ]
  ]

  module _ (hash_text : ℕ → Bytes) (parse_bits : Bytes → Option ℕ) (sc : ShareChain F) where
    -- The loop over the ancestors' headers: do they lead to a block that the chain knows?
    unfoldable pub links : F → Bytes → Bool → List Bytes → Bool
    links ref cur linked [] = linked
    links ref cur true (anc ∷ ancs) = true
    links ref cur false (anc ∷ ancs) = elim (verify_header80 anc cur ref) [
      | none ↦ false
      | some hdr ↦
          elim (knows_block_hash hash_text sc cur || knows_block_hash hash_text sc hdr.prev_block) [
            | true ↦ true
            | false ↦ links ref hdr.prev_block false ancs
          ]
    ]

    -- `verifyTemplatePrevHeader`: is the template's previous block good, and the state. Where the
    -- source logs the first 12 digits of a shorter text, it panics: here it is a refusal.
    unfoldable pub verify_template_prev_header : BlockTemplate → Templates → Bool × Templates
    verify_template_prev_header t wm =
        let ref_bits = get_recent_network_bits sc in
        let ref = target_to_diff fl (some (compact_to_big ref_bits)) in
        elim (parse_bits t.bits) [
          | none ↦ (false, wm)
          | some b ↦
              let d = target_to_diff fl (some (compact_to_big b)) in
              if b == 0 || fle d (lit 0 1) || ref_bits == 0 || fle ref (lit 0 1) || far_from d ref
              then (false, wm)
              else if get_or false t.previous_block_hash wm.verified_blocks
              then (true, wm)
              else if is_empty t.prev_block_header_hex
              then (false, wm)
              else elim (verify_header80 t.prev_block_header_hex t.previous_block_hash ref) [
                | none ↦ (false, wm)
                | some hdr ↦
                    if links ref hdr.prev_block
                      (knows_block_hash hash_text sc t.previous_block_hash
                        || knows_block_hash hash_text sc hdr.prev_block)
                      t.ancestor_headers_hex
                    then (
                      true,
                      record wm {
                        verified_blocks = insert t.previous_block_hash true wm.verified_blocks;
                      },
                    )
                    else (false, wm)
              ]
        ]
