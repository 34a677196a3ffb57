-- ===== src/Payout/Verify.antt =====
-- Building the outputs of a coinbase and verifying them: `buildCoinbaseMsgTxAtTip` and
-- `VerifyShareCoinbase` of work/coinbase.go.
pub mod Counting
pub mod Sums
pub mod Accepts
pub mod Enforces
mod Tests
use p2pool_go_vtc.Prelude.{
  ℕ, zero, suc, ◌+◌, ◌*◌, ◌-◌, ◌^◌, Bool, true, false, ◌&&◌, ◌||◌, not, Option, none, some, List,
  [], ◌∷◌, ◌++◌, length, any, ltb, leb, ◌==◌, if◌then◌else◌, ◌>>=◌,
}
use p2pool_go_vtc.Prelude.Int.{ℤ, pos, negsuc, eqb_ℤ, leb_ℤ, int32, add64, bits64}
use p2pool_go_vtc.Prelude.Bytes.{Bytes}
use p2pool_go_vtc.Prelude.Eq.{bytes_Eq}
use p2pool_go_vtc.Prelude.Dict.{Dict, lookup, get_or, insert}
use p2pool_go_vtc.Env.{Float64, Codec, Wire, TxOut}
use p2pool_go_vtc.Script.{op_return, add_op, add_data}
use p2pool_go_vtc.Address.{address_to_script, decode_address_to_pkh}
use p2pool_go_vtc.Share.{
  Share, diff_to_target, stale_info_none, share_version_v2, v2_mandatory_activation_time,
}
use p2pool_go_vtc.Share.Check.{min_pool_share_diff}
use p2pool_go_vtc.Share.Owner.{decode_share_address}
use p2pool_go_vtc.Share.Metadata.{
  Reason, empty_coinbase, invalid_coinbase, zero_reward, subsidy_mismatch, outdated,
  timestamp_mismatch, metadata_mismatch, count_mismatch, invalid_payout_addr, amount_mismatch,
  Metadata, metadata_of, commitment, holds_commitment, read_coinbase,
}
use p2pool_go_vtc.Chain.{ShareChain, get_expected_share_difficulty}
use p2pool_go_vtc.Payout.{PayoutOutput, calculate_pplns_outputs_at_tip}

-- The sums of the positive outputs: by script, in all, and how many there are.
pub record Tally : Type 0 where
  pub actual : Dict Bytes ℤ
  pub tot : ℤ  -- int64
  pub nz : ℕ

pub count_out : Tally → TxOut → Tally
count_out t o = if leb_ℤ o.value (pos 0) then t else record {
  actual = insert o.pk_script (add64 (get_or (pos 0) o.pk_script t.actual) o.value) t.actual;
  tot = add64 t.tot o.value;
  nz = t.nz + 1;
}

pub tally : List TxOut → Tally → Tally
unfolding count_out
tally [] t = t
tally (o ∷ os) t = tally os (count_out t o)

pub empty_tally : Tally
empty_tally = record { actual = []; tot = pos 0; nz = 0 }

module _ (codec : Codec) where
  -- The last loop: each expected output has its amount under its script.
  pub check_amounts : Dict Bytes ℤ → List PayoutOutput → Option Reason
  check_amounts actual [] = none
  check_amounts actual (e ∷ es) =
      let rest = check_amounts actual es in
      elim (address_to_script codec e.address) [
        | none ↦ some invalid_payout_addr
        | some script ↦
            if not (eqb_ℤ (get_or (pos 0) script actual) (pos e.amount))
            then some amount_mismatch
            else rest
      ]

  pub check_payouts : Tally → List PayoutOutput → Option Reason
  unfolding check_amounts
  check_payouts t [] = none
  check_payouts t (e ∷ es) =
      if not (t.nz == length (e ∷ es)) then some count_mismatch else check_amounts t.actual (e ∷ es)

  -- The loop of `buildCoinbaseMsgTxAtTip` over the payouts.
  pub payout_tx_outs : List PayoutOutput → Option (List TxOut)
  payout_tx_outs [] = some []
  payout_tx_outs (o ∷ os) =
      let rest = payout_tx_outs os in
      address_to_script codec o.address >>= λ script.
      rest >>= λ outs. some (record { value = pos o.amount; pk_script = script } ∷ outs)

-- OP_RETURN and one push.
pub data_script : Bytes → Bytes
data_script d = add_data d (add_op op_return [])

zero_out : Bytes → TxOut
zero_out script = record { value = pos 0; pk_script = script }

-- The witness commitment's header.
abbrev pub commitment_header : Bytes
commitment_header = 0xaa ∷ 0x21 ∷ 0xa9 ∷ 0xed ∷ []

module _ (fl : Float64) (codec : Codec) (testnet : Bool) (compact_to_big : ℕ → ℤ)
    (sha256 : Bytes → Bytes) where
  open fl use {F}

  -- The fields that the builder commits to; `donation` is `config.Active.Fee * 100`.
  pub built_metadata : ShareChain F → Option ℕ → Bytes → ℕ → ℕ → ℤ → Metadata
  built_metadata sc tip addr value donation height =
      let (ver, pkh) = decode_address_to_pkh codec addr in
      record {
        ver = share_version_v2;
        prev = tip;
        target = some (diff_to_target fl (get_expected_share_difficulty fl sc tip));
        pkh_ver = ver;
        pkh = pkh;
        sub = value;
        don = donation;
        stale = stale_info_none;
        abs_h = height;
      }

  -- The outputs of `buildCoinbaseMsgTxAtTip` on a held chain, from the payouts on.
  pub coinbase_tx_outs : Metadata → Bytes → List PayoutOutput → Option (List TxOut)
  unfolding zero_out data_script
  coinbase_tx_outs metadata witness_commitment payouts =
      let witness =
        if ltb 0 (length witness_commitment)
        then zero_out (data_script (commitment_header ++ witness_commitment)) ∷ []
        else [] in
      payout_tx_outs codec payouts >>= λ outs.
      some (outs ++ (witness ++ zero_out (data_script (commitment sha256 metadata)) ∷ []))

  pub build_coinbase_tx_outs :
      ShareChain F → Option ℕ → Bytes → ℕ → ℕ → ℤ → Bytes → Option (List TxOut)
  unfolding coinbase_tx_outs built_metadata
  build_coinbase_tx_outs sc tip addr value donation height witness_commitment =
      coinbase_tx_outs (built_metadata sc tip addr value donation height) witness_commitment (
        calculate_pplns_outputs_at_tip fl codec testnet compact_to_big (pos value) addr (some sc)
          tip)

  module _ (wire : Wire) where
    open wire use {Tx, tx_out}

    -- The checks of a version 24 share's metadata.
    check_metadata : Share F → Tx → Option Reason
    check_metadata s tx =
        if ltb s.type share_version_v2
        then none
        else if not (eqb_ℤ s.share_info.timestamp (int32 s.min_header.timestamp))
        then some timestamp_mismatch
        else if any (holds_commitment sha256 wire (commitment sha256 (metadata_of s))) (tx_out tx)
        then none
        else some metadata_mismatch

    check_tx : Share F → ShareChain F → Tx → Option Reason
    unfolding check_metadata
    check_tx s sc tx =
        let t = tally (tx_out tx) empty_tally in
        if leb_ℤ t.tot (pos 0)
        then some zero_reward
        else if ltb 0 s.share_info.share_data.subsidy
            && not (bits64 t.tot == s.share_info.share_data.subsidy)
        then some subsidy_mismatch
        else if leb v2_mandatory_activation_time s.min_header.timestamp
            && ltb s.type share_version_v2
        then some outdated
        else elim (check_metadata s tx) [
          | some r ↦ some r
          | none ↦ check_payouts codec t (
              calculate_pplns_outputs_at_tip fl codec testnet compact_to_big t.tot
                (decode_share_address codec testnet s).0 (some sc)
                s.share_info.share_data.previous_share_hash)
        ]

    -- `VerifyShareCoinbase`; `none` is (true, "").
    pub verify_share_coinbase : Share F → ShareChain F → Option Reason
    unfolding check_tx
    verify_share_coinbase s sc =
        if length s.share_info.share_data.coin_base == 0
        then some empty_coinbase
        else elim (read_coinbase sha256 wire s.share_info.share_data.coin_base) [
          | none ↦ some invalid_coinbase
          | some tx ↦ check_tx s sc tx
        ]
