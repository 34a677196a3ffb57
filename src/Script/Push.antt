-- ===== src/Script/Push.antt =====
-- Reading back what `AddData` wrote, as a script interpreter reads it.
use p2pool_go_vtc.Prelude.{
  ℕ, zero, suc, ◌+◌, ◌*◌, ◌/◌, ◌%◌, ◌^◌, ◌<◌, ◌≡◌, inl, inr, Option, none, some, [], ◌∷◌, ◌++◌,
  length, take, drop, take-append, drop-append, length-append, ltb, leb, ◌==◌, if◌then◌else◌, arith,
  Bool-cases, ◌∙◌,
}
use native.Mathlib.Nat.{pow-suc}
use mathlib.Core.List.{append_assoc}
use p2pool_go_vtc.Prelude.Bytes.{Bytes}
use p2pool_go_vtc.Script.{op_pushdata1, op_pushdata2, op_pushdata4, le_bytes, push_header, add_data}

-- The value of a little-endian string.
unfoldable pub le_value : Bytes → ℕ
le_value [] = 0
le_value (b ∷ bs) = b + 256 * le_value bs

pub le_value-le_bytes : (n v : ℕ) → v < 256 ^ n → le_value (le_bytes n v) ≡ v
unfolding le_value le_bytes
le_value-le_bytes zero v h = omega arith
le_value-le_bytes (suc n) v h =
    let below : v < 256 ^ n * 256 = rw pow-suc at h in
    omega (arith, le_value-le_bytes n (v / 256) (omega arith))

-- `n` bytes off the front, if there are as many.
split : ℕ → Bytes → Option (Bytes × Bytes)
split n s = if leb n (length s) then some (take n s, drop n s) else none

read_sized : ℕ → Bytes → Option (Bytes × Bytes)
unfolding split le_value
read_sized k s = elim (split k s) [ none ↦ none | some (size, rest) ↦ split (le_value size) rest ]

-- One push operation: its data and the rest of the script.
pub read_push : Bytes → Option (Bytes × Bytes)
read_push [] = none
read_push (op ∷ s) =
    if ltb op op_pushdata1
    then split op s
    else if op == op_pushdata1
    then read_sized 1 s
    else if op == op_pushdata2
    then read_sized 2 s
    else if op == op_pushdata4
    then read_sized 4 s
    else none

split-append : (d rest : Bytes) → split (length d) (d ++ rest) ≡ some (d, rest)
unfolding split
split-append d rest = ground (arith, length-append d rest, take-append d rest, drop-append d rest)

read_sized-append :
    (size d rest : Bytes)
    → le_value size ≡ length d
    → read_sized (length size) (size ++ (d ++ rest)) ≡ some (d, rest)
unfolding read_sized
read_sized-append size d rest h =
    rw (split-append size (d ++ rest), read_sized, h) (split-append d rest)

read_header :
    (d rest : Bytes)
    → length d < 2 ^ 32
    → read_push (push_header (length d) ++ (d ++ rest)) ≡ some (d, rest)
unfolding read_push push_header le_value le_bytes
read_header d rest h = elim (Bool-cases (ltb (length d) op_pushdata1)) [
  | inl tiny ↦
      let same : length d % 256 ≡ length d = ground arith in
      rw (tiny, same, tiny) (split-append d rest)
  | inr more ↦ elim (Bool-cases (leb (length d) 0xff)) [
    | inl small ↦ rw (more, small) (read_sized-append (length d % 256 ∷ []) d rest (ground arith))
    | inr larger ↦ elim (Bool-cases (leb (length d) 0xffff)) [
      | inl medium ↦
          rw (more, larger, medium)
            (read_sized-append (le_bytes 2 (length d % 2 ^ 16)) d rest
              (le_value-le_bytes 2 (length d % 2 ^ 16) (omega arith) ∙ ground arith))
      | inr large ↦
          rw (more, larger, large)
            (read_sized-append (le_bytes 4 (length d % 2 ^ 32)) d rest
              (le_value-le_bytes 4 (length d % 2 ^ 32) (omega arith) ∙ ground arith))
    ]
  ]
]

-- Data of less than 2^32 bytes is read back whole, and nothing of what follows is lost.
pub read_push-add_data :
    (d rest : Bytes) → length d < 2 ^ 32 → read_push (add_data d [] ++ rest) ≡ some (d, rest)
unfolding add_data
read_push-add_data d rest h = rw append_assoc (read_header d rest h)
