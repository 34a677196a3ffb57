-- ===== src/Env.antt =====
-- What the program uses and src/ does not define: float64 arithmetic and the codecs of btcd.
use p2pool_go_vtc.Prelude.{ℕ, Bool, Option, List}
use p2pool_go_vtc.Prelude.Int.{ℤ}
use p2pool_go_vtc.Prelude.Bytes.{Bytes}

-- float64. `lit n d` is the literal n / d; `big_quo a b` is the float64 nearest to the quotient of
-- two positive integers that math/big computes with 256 bits of precision, and `quo_int a f` the
-- integer part of the quotient that it computes of an integer and a float64.
pub record Float64 : Type 1 where
  pub F : Type 0
  pub fadd : F → F → F
  pub fsub : F → F → F
  pub fmul : F → F → F
  pub fdiv : F → F → F
  pub flt : F → F → Bool
  pub fle : F → F → Bool
  pub lit : ℕ → ℕ → F
  pub of_int : ℤ → F
  pub to_int64 : F → ℤ
  pub big_quo : ℕ → ℕ → F
  pub quo_int : ℕ → F → ℤ

-- The address codecs: btcutil/bech32 (`DecodeGeneric`, whose last part says whether the checksum is
-- the one of version 0; `Encode` and `EncodeM`, chosen by the first argument; `ConvertBits`) and
-- btcutil/base58. `none` is an error.
pub record Codec : Type 0 where
  pub bech32_decode : Bytes → Option (Bytes × Bytes × Bool)
  pub bech32_encode : Bool → Bytes → Bytes → Option Bytes
  pub convert_bits : Bytes → ℕ → ℕ → Bool → Option Bytes
  pub base58_decode : Bytes → Bytes
  pub base58_check_encode : Bytes → ℕ → Bytes

-- An output of a `wire.MsgTx`.
pub record TxOut : Type 0 where
  pub value : ℤ  -- int64
  pub pk_script : Bytes

-- What the program takes of btcd's wire package: the two ways to read a transaction (`none` is an
-- error), its hash and its outputs.
pub record Wire : Type 1 where
  pub Tx : Type 0
  pub deserialize : Bytes → Option Tx
  pub deserialize_no_witness : Bytes → Option Tx
  pub tx_hash : Tx → Bytes
  pub tx_out : Tx → List TxOut

-- The header that `FullBlockHeader` builds; its time is in seconds.
pub record BlockHeader : Type 0 where
  pub version : ℤ
  pub prev_block : ℕ
  pub merkle_root : Bytes
  pub timestamp : ℕ
  pub bits : ℕ
  pub nonce : ℕ

-- The hashes of a header: `wire.BlockHeader.BlockHash` and `Serialize`, and the Verthash of its bytes.
pub record HeaderHash : Type 0 where
  pub block_hash : BlockHeader → ℕ
  pub serialize : BlockHeader → Option Bytes
  pub verthash : Bytes → Option Bytes
