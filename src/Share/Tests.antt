-- ===== src/Share/Tests.antt =====
-- The theorems on one share, at concrete shares.
use p2pool_go_vtc.Share.Hash.{clone_bytes}
use p2pool_go_vtc.Script.{be_bytes, le_bytes}
use p2pool_go_vtc.Prelude.{ℕ, ◌^◌, ◌≡◌, ◌≢◌, ◌<◌, ◌↔◌, ◌⊎◌, refl, none, some, replicate, arith}
use p2pool_go_vtc.Prelude.Int.{pos}
use p2pool_go_vtc.Prelude.Bytes.{Bytes}
use p2pool_go_vtc.Share.Metadata.{Metadata, commitment}
use p2pool_go_vtc.Share.Metadata.Binding.{InRange, commitment_binding}
use p2pool_go_vtc.Share.Check.{is_valid}
use p2pool_go_vtc.Share.Check.Laws.{Valid, is_valid_iff}
use p2pool_go_vtc.Sample.{milli, plain_wire, first_32, share}

is_valid_iff_example :
    (is_valid first_32 plain_wire milli (share 4 3 1 1040) ≡ none)
    ↔ Valid first_32 plain_wire milli (share 4 3 1 1040)
is_valid_iff_example = is_valid_iff first_32 plain_wire milli (share 4 3 1 1040)

abbrev fields : ℕ → Metadata
fields subsidy = record {
  ver = 24;
  prev = some 3;
  target = some (pos 1000);
  pkh_ver = 71;
  pkh = replicate 20 7;
  sub = subsidy;
  don = 100;
  stale = 0;
  abs_h = pos 5;
}

fields-InRange : (subsidy : ℕ) → subsidy < 2 ^ 64 → InRange (fields subsidy)
fields-InRange subsidy small = record {
  ver_u64 = ground arith;
  prev = (3, refl, ground arith);
  target = (1000, refl, ground arith, ground arith);
  sub_u64 = small;
  don_u16 = ground arith;
  abs_h_low = ground arith;
  abs_h_high = ground arith;
}

same_commitment : commitment first_32 (fields 100) ≡ commitment first_32 (fields 200)
unfolding commitment be_bytes clone_bytes le_bytes
same_commitment = refl

-- Two sets of fields that the stand-in for SHA-256 does not tell apart.
commitment_binding_example :
    (fields 100 ≡ fields 200) ⊎ ((x : Bytes) × (y : Bytes) × (x ≢ y) × (first_32 x ≡ first_32 y))
commitment_binding_example =
    commitment_binding first_32 (fields 100) (fields 200) (fields-InRange 100 (ground arith))
      (fields-InRange 200 (ground arith)) same_commitment
