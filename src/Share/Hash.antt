-- ===== src/Share/Hash.antt =====
-- `chainhash.Hash` as a number and as its 32 bytes, and big-endian values.
use p2pool_go_vtc.Prelude.{
  ℕ, zero, suc, ◌+◌, ◌*◌, ◌/◌, ◌%◌, ◌^◌, ◌<◌, ◌≡◌, refl, Option, none, some, [], ◌∷◌, ◌++◌, length,
  length-append, ◌==◌, if◌then◌else◌, arith, ap, sym, ◌∙◌,
}
use native.Mathlib.Nat.{pow-suc}
use p2pool_go_vtc.Prelude.Bytes.{Bytes}
use p2pool_go_vtc.Script.{le_bytes, be_bytes}
use p2pool_go_vtc.Script.Push.{le_value, le_value-le_bytes}

-- `big.Int.SetBytes`
be_value_from : ℕ → Bytes → ℕ
be_value_from acc [] = acc
be_value_from acc (b ∷ bs) = be_value_from (acc * 256 + b) bs

unfoldable pub be_value : Bytes → ℕ
unfolding be_value_from
be_value bs = be_value_from 0 bs

-- The bytes of a hash stand in the reverse order of its digits.
unfoldable pub clone_bytes : ℕ → Bytes
clone_bytes h = le_bytes 32 h

-- `chainhash.NewHash`: nil unless there are 32 bytes.
unfoldable pub new_hash : Bytes → Option ℕ
unfolding le_value
new_hash b = if length b == 32 then some (le_value b) else none

pub length-le_bytes : (n v : ℕ) → length (le_bytes n v) ≡ n
unfolding le_bytes
length-le_bytes zero v = refl
length-le_bytes (suc n) v = ap suc (length-le_bytes n (v / 256))

pub length-be_bytes : (n v : ℕ) → length (be_bytes n v) ≡ n
unfolding be_bytes
length-be_bytes zero v = refl
length-be_bytes (suc n) v =
    length-append (be_bytes n (v / 256)) (v % 256 ∷ []) ∙ omega (arith, length-be_bytes n (v / 256))

be_value_from-append :
    (acc : ℕ) (xs : Bytes) (b : ℕ)
    → be_value_from acc (xs ++ b ∷ []) ≡ be_value_from acc xs * 256 + b
unfolding be_value_from
be_value_from-append acc [] b = refl
be_value_from-append acc (x ∷ xs) b = be_value_from-append (acc * 256 + x) xs b

pub be_value-be_bytes : (n v : ℕ) → v < 256 ^ n → be_value (be_bytes n v) ≡ v
unfolding be_value be_bytes
be_value-be_bytes zero v h = omega arith
be_value-be_bytes (suc n) v h =
    let below : v < 256 ^ n * 256 = rw pow-suc at h in
    rw (be_value_from-append 0 (be_bytes n (v / 256)) (v % 256))
      (omega (arith, be_value-be_bytes n (v / 256) (omega arith)))

-- A value is known from its bytes.
pub be_bytes_injective :
    (n u v : ℕ) → u < 256 ^ n → v < 256 ^ n → be_bytes n u ≡ be_bytes n v → u ≡ v
be_bytes_injective n u v hu hv e =
    sym (be_value-be_bytes n u hu) ∙ ap be_value e ∙ be_value-be_bytes n v hv

pub le_bytes_injective :
    (n u v : ℕ) → u < 256 ^ n → v < 256 ^ n → le_bytes n u ≡ le_bytes n v → u ≡ v
le_bytes_injective n u v hu hv e =
    sym (le_value-le_bytes n u hu) ∙ ap le_value e ∙ le_value-le_bytes n v hv
