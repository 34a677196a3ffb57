-- ===== src/Share/Owner.antt =====
-- `DecodeShareAddress` of work/sharechain.go: the address that a share pays.
use p2pool_go_vtc.Prelude.{
  Bool, true, ◌&&◌, ◌||◌, Option, none, some, [], ◌∷◌, length, ltb, leb, ◌==◌, if◌then◌else◌,
}
use p2pool_go_vtc.Prelude.Int.{pos, leb_ℤ}
use p2pool_go_vtc.Prelude.Bytes.{Bytes}
use p2pool_go_vtc.Env.{Codec}
use p2pool_go_vtc.Address.{hrp_vtc, hrp_tvtc}
use p2pool_go_vtc.Share.{Share, time_of, taproot_payout_activation_time}

module _ (codec : Codec) (testnet : Bool) where
  open codec use {bech32_encode, convert_bits, base58_check_encode}

  abbrev pub hrp : Bytes
  hrp = if testnet then hrp_tvtc else hrp_vtc

  -- Is the payout read as a witness program at the share's time?
  abbrev pub reads_as_segwit : {F : Type 0} → Share F → Bool
  reads_as_segwit s =
      let ver = s.share_info.share_data.pub_key_hash_version in
      ver == 0 || (leb ver 16 && leb_ℤ (pos taproot_payout_activation_time) (time_of s))

  -- The address by its data, with what an encoder's error leaves, the empty string.
  encode_payout : {F : Type 0} → Share F → Option Bytes
  encode_payout s =
      let ver = s.share_info.share_data.pub_key_hash_version in
      let pkh = s.share_info.share_data.pub_key_hash in
      if reads_as_segwit s
      then elim (convert_bits pkh 8 5 true) [
        | none ↦ none
        | some converted ↦ elim (bech32_encode (ltb 0 ver) hrp (ver ∷ converted)) [
          | none ↦ some []
          | some addr ↦ some addr
        ]
      ]
      else some (base58_check_encode pkh ver)

  -- The address, and the share with its cache filled.
  unfoldable pub decode_share_address : {F : Type 0} → Share F → Bytes × Share F
  unfolding encode_payout
  decode_share_address s =
      if length s.share_info.share_data.pub_key_hash == 0 then ([], s) else elim s.decoded_addr [
        | c ∷ rest ↦ (c ∷ rest, s)
        | [] ↦ elim (encode_payout s) [
          | none ↦ ([], s)
          | some addr ↦ (addr, record s { decoded_addr = addr })
        ]
      ]
