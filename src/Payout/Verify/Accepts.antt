-- ===== src/Payout/Verify/Accepts.antt =====
-- How `VerifyShareCoinbase` judges a coinbase that the node itself would build.
use p2pool_go_vtc.Prelude.{
  ℕ, ◌^◌, ◌<◌, ◌≡◌, refl, inl, inr, Bool, true, none, some, List, [], ◌∷◌, ◌++◌, length, any, ltb,
  arith, Bool-cases, Option-cases, All, ◌∙◌, ap, subst, sym,
}
use p2pool_go_vtc.Prelude.Int.{ℤ, pos, eqb_ℤ, int32}
use p2pool_go_vtc.Prelude.Bytes.{Bytes, contains-append}
use p2pool_go_vtc.Prelude.Eq.{bytes_Eq}
use p2pool_go_vtc.Env.{Float64, Codec, Wire, TxOut}
use p2pool_go_vtc.Script.{op_return, add_op, add_data, push_header}
use p2pool_go_vtc.Share.{Share, prev_of, share_version_v2}
use p2pool_go_vtc.Share.Owner.{decode_share_address}
use p2pool_go_vtc.Share.Metadata.{
  Metadata, metadata_of, commitment, holds_commitment, read_coinbase,
}
use p2pool_go_vtc.Chain.{ShareChain}
use p2pool_go_vtc.Payout.{PayoutOutput, calculate_pplns_outputs_at_tip}
use p2pool_go_vtc.Payout.Sorting.{Differing}
use p2pool_go_vtc.Payout.Conservation.{
  calculate_pplns_outputs_at_tip-total, calculate_pplns_outputs_at_tip-WellFormed,
}
use p2pool_go_vtc.Payout.Verify.Counting.{
  scripts, Fresh, tally_payouts, tally-append, tally_zeros, any-append_right,
}
use p2pool_go_vtc.Payout.Verify.{
  Tally, tally, empty_tally, check_amounts, check_payouts, payout_tx_outs, data_script, zero_out,
  commitment_header, coinbase_tx_outs, built_metadata, build_coinbase_tx_outs, check_metadata,
  check_tx, verify_share_coinbase,
}

module _ (fl : Float64) (codec : Codec) (testnet : Bool) (compact_to_big : ℕ → ℤ)
    (sha256 : Bytes → Bytes) (wire : Wire) where
  open fl use {F}
  open wire use {Tx, tx_out}

  holds_own_commitment :
      (m : Metadata)
      → holds_commitment sha256 wire
          (commitment sha256 m)
          (record { value = pos 0; pk_script = data_script (commitment sha256 m) })
        ≡ true
  unfolding data_script add_data
  holds_own_commitment m = ground (
    arith,
    contains-append (add_op op_return [] ++ push_header (length (commitment sha256 m)))
        (commitment sha256 m),
  )

  -- The parts of what is built.
  coinbase_tx_outs-parts :
      (m : Metadata) (wc : Bytes) (payouts : List PayoutOutput) (outs : List TxOut)
      → coinbase_tx_outs fl codec testnet compact_to_big sha256 m wc payouts ≡ some outs
      → (paid : List TxOut) × (zs : List TxOut) × (payout_tx_outs codec payouts ≡ some paid)
        × (outs ≡ paid ++ zs)
        × All (λ o. o.value ≡ pos 0) zs
        × (any (holds_commitment sha256 wire (commitment sha256 m)) zs ≡ true)
  unfolding coinbase_tx_outs zero_out
  coinbase_tx_outs-parts m wc payouts outs e = elim (Option-cases (payout_tx_outs codec payouts)) [
    | inl bad ↦ ground arith
    | inr (paid, good) ↦ elim (Bool-cases (ltb 0 (length wc))) [
      | inl some_wc ↦ (
        paid,
        record { value = pos 0; pk_script = data_script (commitment_header ++ wc) }
            ∷ record { value = pos 0; pk_script = data_script (commitment sha256 m) }
            ∷ [],
        good,
        ground arith,
        (refl, (refl, tt)),
        ground (arith, holds_own_commitment m),
      )
      | inr no_wc ↦ (
        paid,
        record { value = pos 0; pk_script = data_script (commitment sha256 m) } ∷ [],
        good,
        ground arith,
        (refl, tt),
        ground (arith, holds_own_commitment m),
      )
    ]
  ]

  check_payouts_ok :
      (t : Tally) (es : List PayoutOutput)
      → t.nz ≡ length es
      → check_amounts codec t.actual es ≡ none
      → check_payouts codec t es ≡ none
  unfolding check_payouts
  check_payouts_ok t [] count amounts = refl
  check_payouts_ok t (e ∷ es) count amounts = ground arith

  -- What the coinbase of a share built on a chain comes to: read from its bytes it has the outputs
  -- that the builder makes for the share's parent, fields and reward, and these go to different
  -- scripts.
  pub record Built (s : Share F) (sc : ShareChain F) (tx : Tx) : Type 0 where
    pub value : ℕ
    pub value_pos : 0 < value
    pub value_i64 : value < 2 ^ 63
    pub donation : ℕ
    pub height : ℤ
    pub addr : Bytes
    pub witness_commitment : Bytes
    pub has_bytes : 0 < length s.share_info.share_data.coin_base
    pub reads : read_coinbase sha256 wire s.share_info.share_data.coin_base ≡ some tx
    pub outputs :
        build_coinbase_tx_outs fl codec testnet compact_to_big sha256 sc
          (prev_of s)
          addr
          value
          donation
          height
          witness_commitment
        ≡ some (tx_out tx)
    pub owner : (decode_share_address codec testnet s).0 ≡ addr
    pub fields :
        metadata_of s
        ≡ built_metadata fl codec testnet compact_to_big sha256 sc
            (prev_of s)
            addr
            value
            donation
            height
    pub on_time : eqb_ℤ s.share_info.timestamp (int32 s.min_header.timestamp) ≡ true
    pub apart :
        (paid : List TxOut)
        → payout_tx_outs codec (
            calculate_pplns_outputs_at_tip fl codec testnet compact_to_big
              (pos value)
              addr
              (some sc)
              (prev_of s))
          ≡ some paid
        → Differing (scripts paid)

  check_metadata_ok :
      (s : Share F) (tx : Tx)
      → eqb_ℤ s.share_info.timestamp (int32 s.min_header.timestamp) ≡ true
      → any (holds_commitment sha256 wire (commitment sha256 (metadata_of s))) (tx_out tx) ≡ true
      → check_metadata fl codec testnet compact_to_big sha256 wire s tx ≡ none
  unfolding check_metadata
  check_metadata_ok s tx on_time held = ground arith

  check_tx_ok :
      (s : Share F) (sc : ShareChain F) (tx : Tx) (v : ℕ)
      → (tally (tx_out tx) empty_tally).tot ≡ pos v
      → 0 < v
      → v < 2 ^ 63
      → s.share_info.share_data.subsidy ≡ v
      → s.type ≡ share_version_v2
      → check_metadata fl codec testnet compact_to_big sha256 wire s tx ≡ none
      → check_payouts codec (tally (tx_out tx) empty_tally) (
          calculate_pplns_outputs_at_tip fl codec testnet compact_to_big
            (pos v)
            (decode_share_address codec testnet s).0
            (some sc)
            (prev_of s))
        ≡ none
      → check_tx fl codec testnet compact_to_big sha256 wire s sc tx ≡ none
  unfolding check_tx
  check_tx_ok s sc tx v tot pos_v fits sub type metadata payouts =
      rw (tot, metadata, check_tx) (ground (arith, payouts))

  start-Fresh : (outs : List TxOut) → Fresh codec empty_tally outs
  unfolding empty_tally
  start-Fresh [] = tt
  start-Fresh (o ∷ outs) = (refl, start-Fresh outs)

  verify_reads :
      (s : Share F) (sc : ShareChain F) (tx : Tx)
      → 0 < length s.share_info.share_data.coin_base
      → read_coinbase sha256 wire s.share_info.share_data.coin_base ≡ some tx
      → check_tx fl codec testnet compact_to_big sha256 wire s sc tx ≡ none
      → verify_share_coinbase fl codec testnet compact_to_big sha256 wire s sc ≡ none
  unfolding verify_share_coinbase
  verify_reads s sc tx some_bytes reads checked = ground arith

  -- A node verifies as correct every coinbase that it would build on the same chain: one whose
  -- bytes read as a transaction with the built outputs, for a positive reward below 2^63, in a
  -- share that has the fields committed to, its owner's address and its header's time, where the
  -- payouts of the share go to different scripts.
  pub verify_share_coinbase-Built :
      (s : Share F) (sc : ShareChain F) (tx : Tx)
      → Built s sc tx
      → verify_share_coinbase fl codec testnet compact_to_big sha256 wire s sc ≡ none
  unfolding build_coinbase_tx_outs built_metadata metadata_of empty_tally
  verify_share_coinbase-Built s sc tx b =
      let payouts =
        calculate_pplns_outputs_at_tip fl codec testnet compact_to_big (pos b.value) b.addr
          (some sc) (prev_of s) in
      let m =
        built_metadata fl codec testnet compact_to_big sha256 sc (prev_of s) b.addr b.value
          b.donation b.height in
      let (paid, zs, good, shape, zeros, committed) =
        coinbase_tx_outs-parts m b.witness_commitment payouts (tx_out tx) b.outputs in
      let total =
        calculate_pplns_outputs_at_tip-total fl codec testnet compact_to_big b.value b.addr
          (some sc) (prev_of s) in
      let (positive, _) =
        calculate_pplns_outputs_at_tip-WellFormed fl codec testnet compact_to_big (pos b.value)
          b.addr (some sc) (prev_of s) in
      let (tot, count, amounts) =
        tally_payouts codec payouts paid empty_tally 0 good positive (b.apart paid good)
          (start-Fresh paid) refl (omega (arith, total, b.value_i64)) in
      let counted : tally (tx_out tx) empty_tally ≡ tally paid empty_tally =
        ap (λ os. tally os empty_tally) shape
        ∙ tally-append paid zs empty_tally
        ∙ tally_zeros zs (tally paid empty_tally) zeros in
      let held =
        subst
          (λ os. any (holds_commitment sha256 wire (commitment sha256 (metadata_of s))) os ≡ true)
          (sym shape)
          (any-append_right _ paid zs (
            subst (λ f. any (holds_commitment sha256 wire (commitment sha256 f)) zs ≡ true)
              (sym b.fields) committed)) in
      let checked =
        check_tx_ok s sc tx b.value (ap (λ t. t.tot) counted ∙ tot ∙ ap pos (omega (arith, total)))
          b.value_pos b.value_i64 (ap (λ f. f.sub) b.fields) (ap (λ f. f.ver) b.fields)
          (check_metadata_ok s tx b.on_time held)
          (subst
            (λ a.
              check_payouts codec (tally (tx_out tx) empty_tally) (
                calculate_pplns_outputs_at_tip fl codec testnet compact_to_big (pos b.value) a
                  (some sc) (prev_of s))
              ≡ none)
            (sym b.owner)
            (check_payouts_ok _ payouts (ap (λ t. t.nz) counted ∙ count ∙ omega arith)
              (subst (λ t. check_amounts codec t.actual payouts ≡ none) (sym counted) amounts))) in
      verify_reads s sc tx b.has_bytes b.reads checked
