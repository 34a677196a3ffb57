-- ===== src/Prelude/Bytes.antt =====
-- Byte strings, compared as Go compares strings.
use Prim.Native.Nat.{ℕ}
use mathlib.Core.Path.{◌≡◌, refl, subst}
use mathlib.Core.Logic.{◌≢◌}
use mathlib.Core.Bool.{Bool, true, false, ◌&&◌, ◌||◌}
use mathlib.Core.List.{List, [], ◌∷◌, ◌++◌}
use native.Mathlib.Omega.{arith}
use p2pool_go_vtc.Prelude.Tests.{ltb, ◌==◌}
use p2pool_go_vtc.Prelude.Lists.{length}

abbrev pub Bytes : Type 0
Bytes = List ℕ

-- a == b
abbrev pub bytes_eq : Bytes → Bytes → Bool
bytes_eq [] [] = true
bytes_eq [] (y ∷ ys) = false
bytes_eq (x ∷ xs) [] = false
bytes_eq (x ∷ xs) (y ∷ ys) = x == y && bytes_eq xs ys

-- a < b, in lexicographic order.
abbrev pub bytes_lt : Bytes → Bytes → Bool
bytes_lt [] [] = false
bytes_lt [] (y ∷ ys) = true
bytes_lt (x ∷ xs) [] = false
bytes_lt (x ∷ xs) (y ∷ ys) = ltb x y || (x == y && bytes_lt xs ys)

-- `bytes.HasPrefix`
abbrev pub has_prefix : Bytes → Bytes → Bool
has_prefix s [] = true
has_prefix [] (y ∷ ys) = false
has_prefix (x ∷ xs) (y ∷ ys) = x == y && has_prefix xs ys

-- `bytes.Contains`
abbrev pub contains : Bytes → Bytes → Bool
contains [] p = has_prefix [] p
contains (x ∷ xs) p = has_prefix (x ∷ xs) p || contains xs p

pub bytes_eq→eq : (a b : Bytes) → bytes_eq a b ≡ true → a ≡ b
bytes_eq→eq [] [] h = refl
bytes_eq→eq [] (y ∷ ys) h = cc
bytes_eq→eq (x ∷ xs) [] h = cc
bytes_eq→eq (x ∷ xs) (y ∷ ys) h = ground (arith, bytes_eq→eq xs ys)

pub bytes_eq_refl : (a : Bytes) → bytes_eq a a ≡ true
bytes_eq_refl [] = refl
bytes_eq_refl (x ∷ xs) = ground (arith, bytes_eq_refl xs)

pub bytes_lt_irrefl : (a : Bytes) → bytes_lt a a ≡ false
bytes_lt_irrefl [] = refl
bytes_lt_irrefl (x ∷ xs) = ground (arith, bytes_lt_irrefl xs)

pub bytes_lt_trans :
    (a b c : Bytes) → bytes_lt a b ≡ true → bytes_lt b c ≡ true → bytes_lt a c ≡ true
bytes_lt_trans [] [] c h k = cc
bytes_lt_trans [] (y ∷ ys) [] h k = cc
bytes_lt_trans [] (y ∷ ys) (z ∷ zs) h k = refl
bytes_lt_trans (x ∷ xs) [] c h k = cc
bytes_lt_trans (x ∷ xs) (y ∷ ys) [] h k = cc
bytes_lt_trans (x ∷ xs) (y ∷ ys) (z ∷ zs) h k = ground (arith, bytes_lt_trans xs ys zs)

-- Two strings are equal, or one is below the other.
pub bytes_lt_total :
    (a b : Bytes) → bytes_eq a b ≡ false → bytes_lt a b ≡ false → bytes_lt b a ≡ true
bytes_lt_total [] [] h k = cc
bytes_lt_total [] (y ∷ ys) h k = cc
bytes_lt_total (x ∷ xs) [] h k = refl
bytes_lt_total (x ∷ xs) (y ∷ ys) h k = ground (arith, bytes_lt_total xs ys)

pub bytes_eq_ne : (a b : Bytes) → bytes_eq a b ≡ false → a ≢ b
bytes_eq_ne a b h e = cc (subst (λ t. bytes_eq a t ≡ true) e (bytes_eq_refl a))

-- Concatenations whose parts have equal lengths are equal part by part.
pub append_cancel : (a b c d : Bytes) → length a ≡ length b → a ++ c ≡ b ++ d → (a ≡ b) × (c ≡ d)
append_cancel [] [] c d l e = (refl, e)
append_cancel [] (y ∷ ys) c d l e = absurd (omega arith)
append_cancel (x ∷ xs) [] c d l e = absurd (omega arith)
append_cancel (x ∷ xs) (y ∷ ys) c d l e =
    let (p, q) = append_cancel xs ys c d (omega arith) (cc) in (cc, q)

pub bytes_eq_sym_false : (a b : Bytes) → bytes_eq a b ≡ false → bytes_eq b a ≡ false
bytes_eq_sym_false [] [] h = h
bytes_eq_sym_false [] (y ∷ ys) h = refl
bytes_eq_sym_false (x ∷ xs) [] h = refl
bytes_eq_sym_false (x ∷ xs) (y ∷ ys) h = ground (arith, bytes_eq_sym_false xs ys)

has_prefix-append : (p r : Bytes) → has_prefix (p ++ r) p ≡ true
has_prefix-append [] [] = refl
has_prefix-append [] (x ∷ r) = refl
has_prefix-append (x ∷ p) r = ground (arith, has_prefix-append p r)

has_prefix_self : (p : Bytes) → has_prefix p p ≡ true
has_prefix_self [] = refl
has_prefix_self (x ∷ p) = ground (arith, has_prefix_self p)

-- A string contains each of its ends.
pub contains-append : (s p : Bytes) → contains (s ++ p) p ≡ true
contains-append [] [] = refl
contains-append [] (x ∷ p) = ground (arith, has_prefix_self (x ∷ p))
contains-append (x ∷ s) p = ground (arith, contains-append s p)
