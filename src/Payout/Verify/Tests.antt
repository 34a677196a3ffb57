-- ===== src/Payout/Verify/Tests.antt =====
-- The coinbase theorems at a share built on three others.
use p2pool_go_vtc.Address.{
  is_standard_payout, address_to_script, to_lower, trim_space, decode_address_to_pkh,
}
use p2pool_go_vtc.Share.Check.{share_has_standard_payout}
use p2pool_go_vtc.Script.{le_bytes, add_op, add_data, be_bytes}
use p2pool_go_vtc.Share.Hash.{be_value, clone_bytes}
use p2pool_go_vtc.Chain.{
  get_effective_share_diff, get_expected_share_difficulty, get_ordered_chain_walk, walk_loop,
}
use p2pool_go_vtc.Chain.Window.{get_shares_for_payout, payout_loop, visit, start_window}
use p2pool_go_vtc.Payout.Sorting.{Differing}
use mathlib.Core.Option.{some-injective}
use p2pool_go_vtc.Prelude.{
  ◌%◌, map, subst, sym, ◌∙◌, ℕ, ◌*◌, ◌^◌, ◌≡◌, ◌<◌, refl, false, none, some, List, [], ◌∷◌, ◌++◌,
  replicate, take, All, arith, length,
}
use p2pool_go_vtc.Prelude.Int.{pos, ◌-ℤ◌}
use p2pool_go_vtc.Prelude.Bytes.{Bytes}
use p2pool_go_vtc.Env.{TxOut}
use p2pool_go_vtc.Share.{Share, get_target_diff, target_to_diff, get_prev_key, diff_to_target}
use p2pool_go_vtc.Share.Metadata.{metadata_of, read_coinbase, commitment}
use p2pool_go_vtc.Share.Owner.{decode_share_address}
use p2pool_go_vtc.Payout.{calculate_pplns_outputs_at_tip, outputs_of, sort_strings, allocate}
use p2pool_go_vtc.Payout.Verify.{
  build_coinbase_tx_outs, built_metadata, payout_tx_outs, verify_share_coinbase,
}
use p2pool_go_vtc.Payout.Verify.Accepts.{Built, verify_share_coinbase-Built}
use p2pool_go_vtc.Payout.Verify.Sums.{paid, payments}
use p2pool_go_vtc.Payout.Verify.Enforces.{Pays, asked, verify_share_coinbase-Pays}
use p2pool_go_vtc.Sample.{
  milli, plain_codec, plain_wire, first_32, easy_bits, share_with, trio, write_outs,
}

-- A pay-to-public-key-hash script.
abbrev script_of : ℕ → Bytes
script_of owner = 0x76 ∷ 0xa9 ∷ 20 ∷ owner ∷ replicate 19 7 ++ (0x88 ∷ 0xac ∷ [])

-- The outputs of 100 units on the three shares.
abbrev built_outs : List TxOut
built_outs =
    record { value = pos 33; pk_script = script_of 1 }
    ∷ record { value = pos 67; pk_script = script_of 2 }
    ∷ record {
      value = pos 0;
      pk_script = 0x6a ∷ 36 ∷ 80 ∷ 50 ∷ 80 ∷ 86 ∷ replicate 7 0 ++ (24 ∷ 3 ∷ replicate 23 0);
    }
    ∷ []

abbrev built_share : Share ℕ
built_share = share_with 4 3 1 1040 (write_outs built_outs) 100 (2 * 0xFFFF * 2 ^ 216)

abbrev owner_addr : Bytes
owner_addr = 71 ∷ 1 ∷ replicate 19 7 ++ replicate 4 0

built_reads :
    read_coinbase first_32 plain_wire built_share.share_info.share_data.coin_base ≡ some built_outs
unfolding read_coinbase
built_reads = refl

built_outputs :
    build_coinbase_tx_outs milli plain_codec false easy_bits first_32 trio
      (some 3)
      owner_addr
      100
      100
      (pos 5)
      []
    ≡ some built_outs
unfolding build_coinbase_tx_outs payout_tx_outs calculate_pplns_outputs_at_tip outputs_of
    sort_strings get_shares_for_payout payout_loop visit start_window ◌-ℤ◌ get_effective_share_diff
    get_target_diff target_to_diff be_value clone_bytes le_bytes get_expected_share_difficulty
    get_ordered_chain_walk walk_loop get_prev_key share_has_standard_payout is_standard_payout
    decode_share_address allocate address_to_script to_lower trim_space add_op add_data commitment
    be_bytes
built_outputs = refl

built_owner : (decode_share_address plain_codec false built_share).0 ≡ owner_addr
unfolding decode_share_address
built_owner = refl

built_fields :
    metadata_of built_share
    ≡ built_metadata milli plain_codec false easy_bits first_32 trio
        (some 3)
        owner_addr
        100
        100
        (pos 5)
unfolding metadata_of built_metadata diff_to_target decode_address_to_pkh
    get_expected_share_difficulty to_lower get_ordered_chain_walk walk_loop get_prev_key
built_fields = refl

built_apart :
    payout_tx_outs plain_codec (
      calculate_pplns_outputs_at_tip milli plain_codec false easy_bits
        (pos 100)
        owner_addr
        (some trio)
        (some 3))
    ≡ some (take 2 built_outs)
unfolding payout_tx_outs calculate_pplns_outputs_at_tip outputs_of sort_strings
    get_shares_for_payout payout_loop visit start_window ◌-ℤ◌ get_effective_share_diff
    get_target_diff target_to_diff be_value clone_bytes le_bytes get_expected_share_difficulty
    get_ordered_chain_walk walk_loop get_prev_key share_has_standard_payout is_standard_payout
    decode_share_address allocate address_to_script to_lower trim_space add_op add_data
built_apart = refl

built : Built milli plain_codec false easy_bits first_32 plain_wire built_share trio built_outs
built = record {
  value = 100;
  value_pos = omega arith;
  value_i64 = ground arith;
  donation = 100;
  height = pos 5;
  addr = owner_addr;
  witness_commitment = [];
  has_bytes = omega arith;
  reads = built_reads;
  outputs = built_outputs;
  owner = built_owner;
  fields = built_fields;
  on_time = refl;
  apart = λ paid e.
      subst (λ outs. Differing (map (λ o. o.pk_script) outs))
        (some-injective _ paid (sym built_apart ∙ e)) differing;
}
  where
    differing : Differing (map (λ o. o.pk_script) (take 2 built_outs))
    differing = ground arith

verify_share_coinbase-Built_example :
    verify_share_coinbase milli plain_codec false easy_bits first_32 plain_wire built_share trio
    ≡ none
verify_share_coinbase-Built_example =
    verify_share_coinbase-Built milli plain_codec false easy_bits first_32 plain_wire built_share
      trio built_outs built

built_verified :
    verify_share_coinbase milli plain_codec false easy_bits first_32 plain_wire built_share trio
    ≡ none
built_verified =
    verify_share_coinbase-Built milli plain_codec false easy_bits first_32 plain_wire built_share
      trio built_outs built

verify_share_coinbase-Pays_example :
    (tx : List TxOut) × (reward : ℕ) × (read_coinbase first_32 plain_wire (write_outs built_outs)
      ≡ some tx)
    × (paid tx % 2 ^ 64 ≡ reward)
    × (0 < reward)
    × (reward < 2 ^ 63)
    × (0 < 100 → reward ≡ 100)
    × (payments tx
        ≡ length
            (asked milli plain_codec false easy_bits first_32 plain_wire built_share trio reward))
    × All
        (Pays plain_codec tx)
        (asked milli plain_codec false easy_bits first_32 plain_wire built_share trio reward)
verify_share_coinbase-Pays_example =
    verify_share_coinbase-Pays milli plain_codec false easy_bits first_32 plain_wire built_share
      trio built_verified
