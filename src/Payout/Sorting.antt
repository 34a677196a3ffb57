-- ===== src/Payout/Sorting.antt =====
-- Sorting addresses: the order of the result, and sums over it.
use p2pool_go_vtc.Prelude.{
  ℕ, suc, ◌+◌, ◌≡◌, refl, inl, inr, true, false, List, [], ◌∷◌, length, All, arith, Bool-cases,
}
use p2pool_go_vtc.Prelude.Bytes.{
  Bytes, bytes_lt, bytes_lt_trans, bytes_lt_total, bytes_eq, bytes_eq_sym_false,
}
use p2pool_go_vtc.Payout.{insert_sorted, sort_strings}

-- A sum over a list of addresses.
abbrev pub sum_over : (Bytes → ℕ) → List Bytes → ℕ
sum_over f [] = 0
sum_over f (a ∷ rest) = f a + sum_over f rest

sum_over-insert_sorted :
    (f : Bytes → ℕ) (a : Bytes) (bs : List Bytes)
    → sum_over f (insert_sorted a bs) ≡ f a + sum_over f bs
unfolding insert_sorted
sum_over-insert_sorted f a [] = refl
sum_over-insert_sorted f a (b ∷ bs) = ground (arith, sum_over-insert_sorted f a bs)

-- Sorting leaves every sum as it was.
pub sum_over-sort_strings :
    (f : Bytes → ℕ) (bs : List Bytes) → sum_over f (sort_strings bs) ≡ sum_over f bs
unfolding sort_strings
sum_over-sort_strings f [] = refl
sum_over-sort_strings f (a ∷ bs) =
    omega (arith, sum_over-insert_sorted f a (sort_strings bs), sum_over-sort_strings f bs)

length-insert_sorted : (a : Bytes) (bs : List Bytes) → length (insert_sorted a bs) ≡ suc (length bs)
unfolding insert_sorted
length-insert_sorted a [] = refl
length-insert_sorted a (b ∷ bs) = ground (arith, length-insert_sorted a bs)

pub length-sort_strings : (bs : List Bytes) → length (sort_strings bs) ≡ length bs
unfolding sort_strings
length-sort_strings [] = refl
length-sort_strings (a ∷ bs) =
    omega (arith, length-insert_sorted a (sort_strings bs), length-sort_strings bs)

-- Each address is below the next.
abbrev pub Ascending : List Bytes → Type 0
Ascending [] = Unit
Ascending (a ∷ rest) = All (λ b. bytes_lt a b ≡ true) rest × Ascending rest

-- No address stands twice.
abbrev pub Differing : List Bytes → Type 0
Differing [] = Unit
Differing (a ∷ rest) = All (λ b. bytes_eq a b ≡ false) rest × Differing rest

All-insert_sorted :
    (P : Bytes → Type 0) (a : Bytes) (bs : List Bytes) → P a → All P bs → All P (insert_sorted a bs)
unfolding insert_sorted
All-insert_sorted P a [] p all = (p, tt)
All-insert_sorted P a (b ∷ bs) p all = elim (Bool-cases (bytes_lt b a)) [
  | inl above ↦ rw above (all.0, All-insert_sorted P a bs p all.1)
  | inr below ↦ rw below (p, (all.0, all.1))
]

pub All-sort_strings : (P : Bytes → Type 0) (bs : List Bytes) → All P bs → All P (sort_strings bs)
unfolding sort_strings
All-sort_strings P [] all = tt
All-sort_strings P (a ∷ bs) all =
    All-insert_sorted P a (sort_strings bs) all.0 (All-sort_strings P bs all.1)

above_all :
    (a b : Bytes) (bs : List Bytes)
    → bytes_lt a b ≡ true
    → All (λ c. bytes_lt b c ≡ true) bs
    → All (λ c. bytes_lt a c ≡ true) bs
above_all a b [] lt all = tt
above_all a b (c ∷ cs) lt all = (bytes_lt_trans a b c lt all.0, above_all a b cs lt all.1)

insert_sorted-Ascending :
    (a : Bytes) (bs : List Bytes)
    → All (λ b. bytes_eq a b ≡ false) bs
    → Ascending bs
    → Ascending (insert_sorted a bs)
unfolding insert_sorted
insert_sorted-Ascending a [] differ up = (tt, tt)
insert_sorted-Ascending a (b ∷ bs) differ up = elim (Bool-cases (bytes_lt b a)) [
  | inl above ↦ rw above (
    All-insert_sorted (λ c. bytes_lt b c ≡ true) a bs above up.0,
    insert_sorted-Ascending a bs differ.1 up.1,
  )
  | inr below ↦
      let lt : bytes_lt a b ≡ true = bytes_lt_total b a (bytes_eq_sym_false a b differ.0) below in
      rw below ((lt, above_all a b bs lt up.0), up)
]

-- Different addresses come out in strictly ascending order.
pub sort_strings-Ascending : (bs : List Bytes) → Differing bs → Ascending (sort_strings bs)
unfolding sort_strings
sort_strings-Ascending [] differ = tt
sort_strings-Ascending (a ∷ bs) differ =
    insert_sorted-Ascending a (sort_strings bs)
      (All-sort_strings (λ b. bytes_eq a b ≡ false) bs differ.0)
      (sort_strings-Ascending bs differ.1)

insert_sorted-Differing :
    (a : Bytes) (bs : List Bytes)
    → All (λ b. bytes_eq a b ≡ false) bs
    → Differing bs
    → Differing (insert_sorted a bs)
unfolding insert_sorted
insert_sorted-Differing a [] differ d = (tt, tt)
insert_sorted-Differing a (b ∷ bs) differ d = elim (Bool-cases (bytes_lt b a)) [
  | inl above ↦ rw above (
    All-insert_sorted (λ c. bytes_eq b c ≡ false) a bs (bytes_eq_sym_false a b differ.0) d.0,
    insert_sorted-Differing a bs differ.1 d.1,
  )
  | inr below ↦ rw below (differ, d)
]

pub sort_strings-Differing : (bs : List Bytes) → Differing bs → Differing (sort_strings bs)
unfolding sort_strings
sort_strings-Differing [] differ = tt
sort_strings-Differing (a ∷ bs) differ =
    insert_sorted-Differing a (sort_strings bs)
      (All-sort_strings (λ b. bytes_eq a b ≡ false) bs differ.0)
      (sort_strings-Differing bs differ.1)
