-- ===== src/Sample.antt =====
-- Concrete parameters and data for the tests: fixed-point floats, a plain codec of addresses, outputs
-- written one after the other, and a short chain.
pub mod Whole
use p2pool_go_vtc.Prelude.{
  ℕ, zero, suc, ◌+◌, ◌*◌, ◌-◌, ◌/◌, ◌^◌, ◌≡◌, false, Option, none, some, List, [], ◌∷◌, ◌++◌,
  length, length-append, length-take, take, drop, replicate, ltb, leb, arith,
}
use p2pool_go_vtc.Prelude.Int.{ℤ, pos, negsuc}
use p2pool_go_vtc.Prelude.Bytes.{Bytes}
use p2pool_go_vtc.Prelude.Dict.{Dict}
use p2pool_go_vtc.Env.{Float64, Codec, Wire, TxOut}
use p2pool_go_vtc.Share.{Share}
use p2pool_go_vtc.Chain.{ShareChain}

-- Thousandths.
abbrev pub milli : Float64
milli = record {
  F = ℕ;
  fadd = ◌+◌;
  fsub = ◌-◌;
  fmul = λ a b. a * b / 1000;
  fdiv = λ a b. a * 1000 / b;
  flt = ltb;
  fle = leb;
  lit = λ n d. n * 1000 / d;
  of_int = λ z. elim z [ pos n ↦ n * 1000 | negsuc n ↦ 0 ];
  to_int64 = λ a. pos (a / 1000);
  big_quo = λ a b. a * 1000 / b;
  quo_int = λ a b. pos (a * 1000 / b);
}

-- An address is its version, its hash and four bytes.
abbrev pub plain_codec : Codec
plain_codec = record {
  bech32_decode = λ a. none;
  bech32_encode = λ m h a. none;
  convert_bits = λ b from to grow. none;
  base58_decode = λ a. a;
  base58_check_encode = λ pkh version. version ∷ pkh ++ replicate 4 0;
}

-- Reads an output as its value, the length of its script and its script.
abbrev read_outs : ℕ → Bytes → Option (List TxOut)
read_outs zero b = some []
read_outs (suc steps) [] = some []
read_outs (suc steps) (v ∷ []) = none
read_outs (suc steps) (v ∷ n ∷ b) = elim (read_outs steps (drop n b)) [
  | none ↦ none
  | some outs ↦ some (record { value = pos v; pk_script = take n b } ∷ outs)
]

abbrev pub write_outs : List TxOut → Bytes
write_outs [] = []
write_outs (o ∷ outs) =
    (elim o.value [ pos n ↦ n | negsuc n ↦ 0 ]) ∷ length o.pk_script ∷ o.pk_script
    ++ write_outs outs

abbrev pub plain_wire : Wire
plain_wire = record {
  Tx = List TxOut;
  deserialize = λ b. read_outs (length b) b;
  deserialize_no_witness = λ b. none;
  tx_hash = λ tx. replicate 32 0;
  tx_out = λ tx. tx;
}

-- The first 32 bytes, in place of a hash.
abbrev pub first_32 : Bytes → Bytes
first_32 b = take 32 (b ++ replicate 32 0)

pub length-first_32 : (b : Bytes) → length (first_32 b) ≡ 32
length-first_32 b =
    omega (arith, length-take 32 (b ++ replicate 32 0), length-append b (replicate 32 0))

abbrev pub easy_bits : ℕ → ℤ
easy_bits n = pos n

-- The share with a hash, a parent, the first byte of its owner's hash, a time, a coinbase, a subsidy
-- and a target.
abbrev pub share_with : ℕ → ℕ → ℕ → ℕ → Bytes → ℕ → ℕ → Share ℕ
share_with h parent owner time coin_base subsidy target = record {
  type = 24;
  min_header = record {
    version = pos 1;
    previous_block = some 7;
    timestamp = time;
    bits = 0;
    nonce = 0;
  };
  share_info = record {
    share_data = record {
      previous_share_hash = some parent;
      coin_base = coin_base;
      nonce = 0;
      pub_key_hash = owner ∷ replicate 19 7;
      pub_key_hash_version = 71;
      subsidy = subsidy;
      donation = 100;
      stale_info = 0;
      desired_version = 24;
    };
    segwit_data = none;
    new_transaction_hashes = [];
    transaction_hash_refs = [];
    far_share_hash = none;
    max_bits = 0;
    bits = 0;
    timestamp = pos time;
    abs_height = pos 5;
    abs_work = none;
  };
  ref_merkle_link = record { branch = []; index = 0 };
  last_tx_out_nonce = 0;
  hash_link = record { state = []; extra_data = []; length = 0 };
  merkle_link = record { branch = []; index = 0 };
  hash = some h;
  pow_hash = some (2 ^ 248);
  target = some (pos target);
  decoded_addr = [];
  target_diff = 0;
  eff_diff = 0;
  eff_diff_ready = false;
  prev_key = none;
}

-- A share of difficulty 1.
abbrev pub share : ℕ → ℕ → ℕ → ℕ → Share ℕ
share h parent owner time = share_with h parent owner time [] 0 (0xFFFF * 2 ^ 216)

abbrev pub chain_of : Dict ℕ (Share ℕ) → Option ℕ → ShareChain ℕ
chain_of shares tip = record {
  shares = shares;
  verified = [];
  received = [];
  cum_work = [];
  chain_len = [];
  children = [];
  dirty = [];
  changes = 0;
  tip_hash = tip;
}

-- Three shares of two owners on the genesis hash.
abbrev pub trio : ShareChain ℕ
trio =
    chain_of ((3, share 3 2 2 1030) ∷ (2, share 2 1 1 1020) ∷ (1, share 1 0 2 1010) ∷ []) (some 3)
