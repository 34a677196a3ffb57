-- ===== src/Script.antt =====
-- `ScriptBuilder` of work/coinbase.go: output scripts as byte strings.
pub mod Push
mod Tests
use p2pool_go_vtc.Prelude.{
  ℕ, zero, suc, ◌/◌, ◌%◌, ◌^◌, List, [], ◌∷◌, ◌++◌, length, ltb, leb, if◌then◌else◌,
}
use p2pool_go_vtc.Prelude.Bytes.{Bytes}

-- Opcodes of txscript.
abbrev pub op_0 : ℕ
op_0 = 0

abbrev pub op_pushdata1 : ℕ
op_pushdata1 = 0x4c

abbrev pub op_pushdata2 : ℕ
op_pushdata2 = 0x4d

abbrev pub op_pushdata4 : ℕ
op_pushdata4 = 0x4e

abbrev pub op_1 : ℕ
op_1 = 0x51

abbrev pub op_return : ℕ
op_return = 0x6a

abbrev pub op_dup : ℕ
op_dup = 0x76

abbrev pub op_equal : ℕ
op_equal = 0x87

abbrev pub op_equalverify : ℕ
op_equalverify = 0x88

abbrev pub op_hash160 : ℕ
op_hash160 = 0xa9

abbrev pub op_checksig : ℕ
op_checksig = 0xac

-- `binary.LittleEndian` and `binary.BigEndian`: the `n` low bytes of a value.
unfoldable pub le_bytes : ℕ → ℕ → Bytes
le_bytes zero v = []
le_bytes (suc n) v = v % 256 ∷ le_bytes n (v / 256)

unfoldable pub be_bytes : ℕ → ℕ → Bytes
be_bytes zero v = []
be_bytes (suc n) v = be_bytes n (v / 256) ++ v % 256 ∷ []

-- What `AddData` writes before the data.
pub push_header : ℕ → Bytes
push_header n =
    if ltb n op_pushdata1
    then n % 256 ∷ []
    else if leb n 0xff
    then op_pushdata1 ∷ n % 256 ∷ []
    else if leb n 0xffff
    then op_pushdata2 ∷ le_bytes 2 (n % 2 ^ 16)
    else op_pushdata4 ∷ le_bytes 4 (n % 2 ^ 32)

unfoldable pub add_data : Bytes → Bytes → Bytes
unfolding push_header
add_data d script = (script ++ push_header (length d)) ++ d

unfoldable pub add_op : ℕ → Bytes → Bytes
add_op op script = script ++ op ∷ []
