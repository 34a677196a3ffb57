-- ===== src/Payout/Verify/Enforces.antt =====
-- What a verified coinbase pays.
use p2pool_go_vtc.Prelude.{
  ℕ, ◌^◌, ◌%◌, ap, ◌<◌, ◌≡◌, refl, inl, inr, Bool, true, none, some, List, [], ◌∷◌, length, arith,
  Option-cases, All,
}
use p2pool_go_vtc.Prelude.Int.{ℤ, pos, negsuc, eqb_ℤ, bits64, pos_part}
use p2pool_go_vtc.Prelude.Bytes.{Bytes}
use p2pool_go_vtc.Prelude.Eq.{bytes_Eq}
use p2pool_go_vtc.Prelude.Dict.{get_or}
use p2pool_go_vtc.Env.{Float64, Codec, Wire, TxOut}
use p2pool_go_vtc.Address.{address_to_script}
use p2pool_go_vtc.Share.{Share, prev_of}
use p2pool_go_vtc.Share.Owner.{decode_share_address}
use p2pool_go_vtc.Share.Metadata.{read_coinbase}
use p2pool_go_vtc.Chain.{ShareChain}
use p2pool_go_vtc.Payout.{PayoutOutput, calculate_pplns_outputs_at_tip}
use p2pool_go_vtc.Payout.Conservation.{total_of, calculate_pplns_outputs_at_tip-total}
use p2pool_go_vtc.Payout.Verify.Sums.{
  paid, paid_to, payments, tally-paid, tally-payments, tally-paid_to, tally-small,
}
use p2pool_go_vtc.Payout.Verify.{
  Tally, tally, empty_tally, check_amounts, check_payouts, check_tx, verify_share_coinbase,
}

module _ (codec : Codec) where
  -- What is counted under a payout's script is its amount.
  abbrev Counts : Tally → PayoutOutput → Type 0
  Counts t e =
      (script : Bytes) × (address_to_script codec e.address ≡ some script)
      × (get_or (pos 0) script t.actual ≡ pos e.amount)

  eqb_ℤ→eq : (a b : ℤ) → eqb_ℤ a b ≡ true → a ≡ b
  eqb_ℤ→eq a b h = ground arith

  check_amounts-Counts :
      (t : Tally) (es : List PayoutOutput)
      → check_amounts codec t.actual es ≡ none
      → All (Counts t) es
  unfolding check_amounts
  check_amounts-Counts t [] h = tt
  check_amounts-Counts t (e ∷ es) h = elim (Option-cases (address_to_script codec e.address)) [
    | inl bad ↦ absurd (ground arith)
    | inr (script, good) ↦
        ((script, good, eqb_ℤ→eq _ _ (ground arith)), check_amounts-Counts t es (ground arith))
  ]

  check_payouts-Counts :
      (t : Tally) (es : List PayoutOutput)
      → check_payouts codec t es ≡ none
      → 0 < total_of es
      → (t.nz ≡ length es) × All (Counts t) es
  unfolding check_payouts
  check_payouts-Counts t [] h some_total = absurd (omega arith)
  check_payouts-Counts t (e ∷ es) h some_total =
      (ground arith, check_amounts-Counts t (e ∷ es) (ground arith))

  -- The outputs to a payout's script pay its amount, up to the wrap of the sum.
  abbrev pub Pays : List TxOut → PayoutOutput → Type 0
  Pays outs e =
      (script : Bytes) × (address_to_script codec e.address ≡ some script)
      × (paid_to script outs % 2 ^ 64 ≡ e.amount % 2 ^ 64)

  Counts-Pays :
      (outs : List TxOut) (es : List PayoutOutput)
      → All (Counts (tally outs empty_tally)) es
      → All (Pays outs) es
  unfolding empty_tally
  Counts-Pays outs [] all = tt
  Counts-Pays outs (e ∷ es) ((script, good, amount), all) =
      let counted = ap bits64 amount in
      let summed = tally-paid_to script outs empty_tally in
      ((script, good, omega (arith, counted, summed)), Counts-Pays outs es all)

module _ (fl : Float64) (codec : Codec) (testnet : Bool) (compact_to_big : ℕ → ℤ)
    (sha256 : Bytes → Bytes) (wire : Wire) where
  open fl use {F}
  open wire use {Tx, tx_out}

  -- The payouts that the chain asks of a share's coinbase, for a reward.
  abbrev pub asked : Share F → ShareChain F → ℕ → List PayoutOutput
  asked s sc reward =
      calculate_pplns_outputs_at_tip fl codec testnet compact_to_big (pos reward)
        (decode_share_address codec testnet s).0 (some sc) (prev_of s)

  checked_parts :
      (s : Share F) (sc : ShareChain F) (tx : Tx)
      → check_tx fl codec testnet compact_to_big sha256 wire s sc tx ≡ none
      → (reward : ℕ) × ((tally (tx_out tx) empty_tally).tot ≡ pos reward)
        × (0 < reward)
        × (0 < s.share_info.share_data.subsidy
            → bits64 (pos reward) ≡ s.share_info.share_data.subsidy)
        × (check_payouts codec (tally (tx_out tx) empty_tally) (asked s sc reward) ≡ none)
  unfolding check_tx
  checked_parts s sc tx h = by_sign (tally (tx_out tx) empty_tally).tot refl
    where
      by_sign :
          (z : ℤ)
          → (tally (tx_out tx) empty_tally).tot ≡ z
          → (reward : ℕ) × ((tally (tx_out tx) empty_tally).tot ≡ pos reward)
            × (0 < reward)
            × (0 < s.share_info.share_data.subsidy
                → bits64 (pos reward) ≡ s.share_info.share_data.subsidy)
            × (check_payouts codec (tally (tx_out tx) empty_tally) (asked s sc reward) ≡ none)
      by_sign (negsuc n) e = absurd (ground arith)
      by_sign (pos n) e = (n, e, ground arith, λ some_subsidy. ground arith, ground arith)

  -- A verified coinbase pays what the chain asks: its positive outputs sum to a positive reward (to
  -- the share's subsidy, if that is not 0), there are as many of them as payouts asked for that
  -- reward, and the positive outputs to each payout's script sum to its amount. The sums are taken
  -- modulo 2 ^ 64, as int64 takes them, and the reward is below 2 ^ 63.
  pub verify_share_coinbase-Pays :
      (s : Share F) (sc : ShareChain F)
      → verify_share_coinbase fl codec testnet compact_to_big sha256 wire s sc ≡ none
      → (tx : Tx) × (reward : ℕ) × (read_coinbase sha256 wire s.share_info.share_data.coin_base
          ≡ some tx)
        × (paid (tx_out tx) % 2 ^ 64 ≡ reward)
        × (0 < reward)
        × (reward < 2 ^ 63)
        × (0 < s.share_info.share_data.subsidy → reward ≡ s.share_info.share_data.subsidy)
        × (payments (tx_out tx) ≡ length (asked s sc reward))
        × All (Pays codec (tx_out tx)) (asked s sc reward)
  unfolding verify_share_coinbase empty_tally
  verify_share_coinbase-Pays s sc h =
      elim (Option-cases (read_coinbase sha256 wire s.share_info.share_data.coin_base)) [
        | inl bad ↦ absurd (ground arith)
        | inr (tx, reads) ↦
            let (reward, tot, positive, subsidy, payouts) = checked_parts s sc tx (ground arith) in
            let total =
              calculate_pplns_outputs_at_tip-total fl codec testnet compact_to_big reward
                (decode_share_address codec testnet s).0 (some sc) (prev_of s) in
            let (count, pays) =
              check_payouts-Counts codec _ (asked s sc reward) payouts (omega (arith, total)) in
            let summed = tally-paid (tx_out tx) empty_tally in
            let tot_bits = ap bits64 tot in
            let limit = tally-small (tx_out tx) empty_tally (ground arith) in
            let tot_part = ap pos_part tot in
            let small : reward < 2 ^ 63 = omega (arith, limit, tot_part) in
            let counted = tally-payments (tx_out tx) empty_tally in
            (
              tx,
              reward,
              reads,
              omega (arith, summed, tot_bits, small),
              positive,
              small,
              λ some_subsidy. (let own = subsidy some_subsidy in omega (arith, own, small)),
              omega (arith, counted, count),
              Counts-Pays codec (tx_out tx) (asked s sc reward) pays,
            )
      ]
