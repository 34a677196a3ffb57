-- ===== src/Address.antt =====
-- Payout addresses and their scripts: work/coinbase.go. A Go string is its bytes; `ToLower` and
-- `TrimSpace` are modelled on ASCII, which every valid address is.
use p2pool_go_vtc.Prelude.{
  ℕ, ◌+◌, ◌-◌, Bool, true, false, ◌&&◌, ◌||◌, not, Option, none, some, [], ◌∷◌, map, length, take,
  drop, ltb, leb, ◌==◌, if◌then◌else◌, ◌>>=◌,
}
use p2pool_go_vtc.Prelude.Bytes.{Bytes, bytes_eq, has_prefix}
use p2pool_go_vtc.Env.{Codec}
use p2pool_go_vtc.Script.{
  op_0, op_1, op_dup, op_equal, op_equalverify, op_hash160, op_checksig, add_op, add_data,
}

-- "vtc" and "tvtc", and the prefixes of their bech32 addresses, "vtc1" and "tvtc1".
abbrev pub hrp_vtc : Bytes
hrp_vtc = 118 ∷ 116 ∷ 99 ∷ []

abbrev pub hrp_tvtc : Bytes
hrp_tvtc = 116 ∷ hrp_vtc

abbrev pub prefix_vtc1 : Bytes
prefix_vtc1 = 118 ∷ 116 ∷ 99 ∷ 49 ∷ []

abbrev pub prefix_tvtc1 : Bytes
prefix_tvtc1 = 116 ∷ prefix_vtc1

abbrev lower_byte : ℕ → ℕ
lower_byte c = if leb 65 c && leb c 90 then c + 32 else c

unfoldable pub to_lower : Bytes → Bytes
to_lower = map lower_byte

abbrev is_space : ℕ → Bool
is_space c = c == 32 || (leb 9 c && leb c 13)

unfoldable pub trim_left : Bytes → Bytes
trim_left [] = []
trim_left (c ∷ s) = elim (is_space c) [ true ↦ trim_left s | false ↦ c ∷ s ]

unfoldable pub trim_right : Bytes → Bytes
trim_right [] = []
trim_right (c ∷ s) = elim (trim_right s) [
  | [] ↦ if is_space c then [] else c ∷ []
  | d ∷ r ↦ c ∷ d ∷ r
]

unfoldable pub trim_space : Bytes → Bytes
unfolding trim_left trim_right
trim_space s = trim_right (trim_left s)

-- The test for a bech32 address that each caller makes.
abbrev pub has_segwit_prefix : Bytes → Bool
has_segwit_prefix l = has_prefix l prefix_vtc1 || has_prefix l prefix_tvtc1

-- `IsStandardPayout`
unfoldable pub is_standard_payout : ℕ → ℕ → Bool → Bool
is_standard_payout ver n segwit =
    if not segwit then n == 20 else (ver == 0 && (n == 20 || n == 32)) || (ver == 1 && n == 32)

module _ (codec : Codec) where
  open codec use {bech32_decode, convert_bits, base58_decode}

  segwit_program : Bytes → ℕ → Bytes → Bool → Option (Bytes × ℕ × Bytes)
  segwit_program hrp ver rest version0 =
      if not (leb ver 16)
      then none
      else if (if ver == 0 then not version0 else version0)
      then none
      else (convert_bits rest 5 8 false >>= λ prog.
          if ltb (length prog) 2
            || ltb 40 (length prog)
            || (ver == 0 && not (length prog == 20) && not (length prog == 32))
          then none
          else some (hrp, ver, prog))

  -- `DecodeSegwitAddress`: the prefix, the witness version and the program.
  pub decode_segwit_address : Bytes → Option (Bytes × ℕ × Bytes)
  unfolding segwit_program
  decode_segwit_address addr = elim (bech32_decode (to_lower (trim_space addr))) [
    | none ↦ none
    | some (hrp, words, version0) ↦ elim words [
      | [] ↦ none
      | ver ∷ rest ↦ segwit_program hrp ver rest version0
    ]
  ]

  pub witness_script : ℕ → Bytes → Bytes
  witness_script ver program =
      add_data program (add_op (if ltb 0 ver then op_1 + ver - 1 else op_0) [])

  segwit_script : Bytes → Option Bytes
  unfolding witness_script
  segwit_script addr = decode_segwit_address addr >>= λ d.
      if not (bytes_eq d.0 hrp_vtc) && not (bytes_eq d.0 hrp_tvtc)
      then none
      else some (witness_script d.1 d.2)

  -- The payload between the version byte and the checksum.
  abbrev pub base58_payload : Bytes → Bytes
  base58_payload decoded = take (length decoded - 5) (drop 1 decoded)

  base58_script : Bytes → Bytes → Option Bytes
  base58_script [] whole = none
  base58_script (version ∷ rest) whole =
      if ltb (length whole) 5
      then none
      else let pkh = base58_payload whole in
        if version == 0x05 || version == 0xc4
        then some (add_op op_equal (add_data pkh (add_op op_hash160 [])))
        else some (
            add_op op_checksig
              (add_op op_equalverify (add_data pkh (add_op op_hash160 (add_op op_dup [])))))

  -- `AddressToScriptPubKey`
  unfoldable pub address_to_script : Bytes → Option Bytes
  unfolding segwit_script base58_script
  address_to_script payout_address =
      let addr = trim_space payout_address in
      if has_segwit_prefix (to_lower addr)
      then segwit_script addr
      else base58_script (base58_decode addr) (base58_decode addr)

  pkh_of_base58 : Bytes → Bytes → ℕ × Bytes
  pkh_of_base58 [] whole = (0, [])
  pkh_of_base58 (version ∷ rest) whole =
      if leb 5 (length whole) then (version, base58_payload whole) else (0, [])

  -- `DecodeAddressToPKH`
  unfoldable pub decode_address_to_pkh : Bytes → ℕ × Bytes
  unfolding pkh_of_base58
  decode_address_to_pkh addr =
      if has_segwit_prefix (to_lower addr)
      then elim (decode_segwit_address (to_lower addr)) [
        | none ↦ (0, [])
        | some (hrp, ver, prog) ↦ (ver, prog)
      ]
      else pkh_of_base58 (base58_decode addr) (base58_decode addr)
