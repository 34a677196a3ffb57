-- ===== src/Share/Metadata.antt =====
-- The metadata that a share's proof of work commits to: work/coinbase.go.
pub mod Binding
use p2pool_go_vtc.Prelude.{
  ℕ, ◌+◌, ◌-◌, ◌^◌, ◌%◌, Bool, true, false, ◌&&◌, ◌||◌, not, Option, none, some, List, [], ◌∷◌,
  ◌++◌, length, replicate, any, ltb, ◌==◌, if◌then◌else◌,
}
use p2pool_go_vtc.Prelude.Int.{ℤ, pos, negsuc, eqb_ℤ, int32}
use p2pool_go_vtc.Prelude.Bytes.{Bytes, contains}
use p2pool_go_vtc.Env.{Wire, TxOut}
use p2pool_go_vtc.Script.{be_bytes}
use p2pool_go_vtc.Share.Hash.{clone_bytes}
use p2pool_go_vtc.Share.{Share}

-- The low 32 bits of an int32.
unfoldable pub bits32 : ℤ → ℕ
bits32 (pos n) = n % 2 ^ 32
bits32 (negsuc n) = 2 ^ 32 - 1 - n % 2 ^ 32

-- The fields that `ComputeShareMetadataCommitment` is given.
pub record Metadata : Type 0 where
  pub ver : ℕ  -- uint64
  pub prev : Option ℕ
  pub target : Option ℤ
  pub pkh_ver : ℕ  -- uint8
  pub pkh : Bytes
  pub sub : ℕ  -- uint64
  pub don : ℕ  -- uint16
  pub stale : ℕ  -- uint8
  pub abs_h : ℤ  -- int32

prev_bytes : Option ℕ → Bytes
prev_bytes none = replicate 32 0
prev_bytes (some h) = clone_bytes h

target_bytes : Option ℤ → Bytes
target_bytes none = replicate 32 0
target_bytes (some (negsuc n)) = replicate 32 0
target_bytes (some (pos n)) = if ltb 0 n && ltb n (2 ^ 256) then be_bytes 32 n else replicate 32 0

-- What is hashed.
pub preimage : Metadata → Bytes
unfolding prev_bytes target_bytes
preimage m =
    be_bytes 8 m.ver
    ++ (prev_bytes m.prev
        ++ (target_bytes m.target
            ++ (m.pkh_ver
                ∷ (m.pkh
                    ++ (be_bytes 8 m.sub
                        ++ (be_bytes 2 m.don ++ (m.stale ∷ be_bytes 4 (bits32 m.abs_h))))))))

-- "P2PV"
abbrev pub tag : Bytes
tag = 80 ∷ 50 ∷ 80 ∷ 86 ∷ []

unfoldable pub metadata_of : {F : Type 0} → Share F → Metadata
metadata_of s = record {
  ver = s.type;
  prev = s.share_info.share_data.previous_share_hash;
  target = s.target;
  pkh_ver = s.share_info.share_data.pub_key_hash_version;
  pkh = s.share_info.share_data.pub_key_hash;
  sub = s.share_info.share_data.subsidy;
  don = s.share_info.share_data.donation;
  stale = s.share_info.share_data.stale_info;
  abs_h = s.share_info.abs_height;
}

pub data Reason : Type 0 where
  empty_coinbase timestamp_mismatch invalid_coinbase metadata_mismatch : Reason
  no_pow_hash bad_target wide_target not_standard outdated above_target : Reason
  zero_reward subsidy_mismatch count_mismatch invalid_payout_addr amount_mismatch : Reason

module _ (sha256 : Bytes → Bytes) where
  -- `ComputeShareMetadataCommitment`
  unfoldable pub commitment : Metadata → Bytes
  unfolding preimage
  commitment m = tag ++ sha256 (preimage m)

  module _ (wire : Wire) where
    open wire use {Tx, deserialize, deserialize_no_witness, tx_out}

    -- With the witness, else without it.
    unfoldable pub read_coinbase : Bytes → Option Tx
    read_coinbase b = elim (deserialize b) [ some tx ↦ some tx | none ↦ deserialize_no_witness b ]

    -- An output of value 0 whose script holds the commitment.
    abbrev pub holds_commitment : Bytes → TxOut → Bool
    holds_commitment em o = eqb_ℤ o.value (pos 0) && contains o.pk_script em

    -- `VerifyShareMetadata`; `none` is (true, "").
    pub verify_share_metadata : {F : Type 0} → Share F → Option Reason
    verify_share_metadata s =
        if length s.share_info.share_data.coin_base == 0
        then some empty_coinbase
        else if not (eqb_ℤ s.share_info.timestamp (int32 s.min_header.timestamp))
        then some timestamp_mismatch
        else elim (read_coinbase s.share_info.share_data.coin_base) [
          | none ↦ some invalid_coinbase
          | some tx ↦
              if any (holds_commitment (commitment (metadata_of s))) (tx_out tx)
              then none
              else some metadata_mismatch
        ]
