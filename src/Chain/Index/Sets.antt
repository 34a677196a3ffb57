-- ===== src/Chain/Index/Sets.antt =====
-- Lists of hashes as sets.
use p2pool_go_vtc.Prelude.{
  ℕ, ◌+◌, ◌≤◌, ◌≡◌, ◌↔◌, refl, true, false, ◌&&◌, ◌||◌, not, List, [], ◌∷◌, ◌++◌, length, ◌==◌,
  arith, Bool-cases, inl, inr, if◌then◌else◌, ==_iff, ap,
}
use p2pool_go_vtc.Prelude.Eq.{nat_Eq}
use p2pool_go_vtc.Prelude.Dict.{Dict, get_or}
use p2pool_go_vtc.Chain.Sync.{in_set}
use p2pool_go_vtc.Chain.Sync.Replies.{AllNew}
use p2pool_go_vtc.Chain.Index.{fresh_of, child_count}
use p2pool_go_vtc.Chain.Index.Unlink.{count}

pub in_set-union : (x : ℕ) (xs ys : List ℕ) → in_set x (xs ++ ys) ≡ in_set x xs || in_set x ys
in_set-union x [] ys = refl
in_set-union x (y ∷ xs) ys = ground (arith, in_set-union x xs ys)

pub AllNew-union :
    (xs ys : List ℕ)
    → AllNew xs
    → AllNew ys
    → ((x : ℕ) → in_set x xs ≡ true → in_set x ys ≡ false)
    → AllNew (xs ++ ys)
AllNew-union [] ys new more apart = more
AllNew-union (x ∷ xs) ys new more apart = (
  ground (arith, in_set-union x xs ys, new.0, apart x),
  AllNew-union xs ys new.1 more (λ y at. apart y (ground (arith, at))),
)

pub fresh_of-in_set :
    (x : ℕ) (known cs : List ℕ) → in_set x (fresh_of known cs) ≡ in_set x cs && not (in_set x known)
fresh_of-in_set x known [] = refl
fresh_of-in_set x known (c ∷ cs) = elim (Bool-cases (c == x)) [
  | inl same ↦ ground (
    arith,
    same,
    ap (λ y. in_set y known) ((==_iff c x).0 same),
    fresh_of-in_set x known cs,
    fresh_of-in_set x (c ∷ known) cs,
  )
  | inr other ↦ ground (arith, other, fresh_of-in_set x known cs, fresh_of-in_set x (c ∷ known) cs)
]

pub fresh_of-AllNew : (known cs : List ℕ) → AllNew (fresh_of known cs)
fresh_of-AllNew known [] = tt
fresh_of-AllNew known (c ∷ cs) = elim (Bool-cases (in_set c known)) [
  | inl old ↦ rw (fresh_of, old) (fresh_of-AllNew known cs)
  | inr new ↦
      rw (fresh_of, new)
        (ground (arith, fresh_of-in_set c (c ∷ known) cs), fresh_of-AllNew (c ∷ known) cs)
]

pub length-fresh_of : (known cs : List ℕ) → length (fresh_of known cs) ≤ length cs
length-fresh_of known [] = omega arith
length-fresh_of known (c ∷ cs) =
    ground (arith, length-fresh_of known cs, length-fresh_of (c ∷ known) cs)

-- The lengths of the children lists of the keys that are not in a set.
pub children_left : Dict ℕ (List ℕ) → List ℕ → ℕ
children_left [] done = 0
children_left (e ∷ m) done =
    let rest = children_left m done in if in_set e.0 done then rest else length e.1 + rest

pub children_left-none : (m : Dict ℕ (List ℕ)) → children_left m [] ≡ child_count m
unfolding children_left child_count
children_left-none [] = refl
children_left-none (e ∷ m) = ground (arith, children_left-none m)

children_left-more :
    (m : Dict ℕ (List ℕ)) (h : ℕ) (done : List ℕ)
    → children_left m (h ∷ done) ≤ children_left m done
unfolding children_left
children_left-more [] h done = omega arith
children_left-more (e ∷ m) h done = ground (arith, children_left-more m h done)

-- Passing a new key takes its children off what is left.
pub children_left-pass :
    (m : Dict ℕ (List ℕ)) (h : ℕ) (done : List ℕ)
    → in_set h done ≡ false
    → length (get_or [] h m) + children_left m (h ∷ done) ≤ children_left m done
unfolding children_left
children_left-pass [] h done new = omega arith
children_left-pass (e ∷ m) h done new = elim (Bool-cases (e.0 == h)) [
  | inl same ↦ ground (
    arith,
    same,
    new,
    ap (λ y. in_set y done) ((==_iff e.0 h).0 same),
    children_left-more m h done,
  )
  | inr other ↦ ground (arith, other, children_left-pass m h done new)
]

pub count-in_set : (g : ℕ) (cs : List ℕ) → (in_set g cs ≡ false) ↔ (count g cs ≡ 0)
count-in_set g [] = ground arith
count-in_set g (c ∷ cs) = let ih = count-in_set g cs in ground (arith, ih)

pub AllNew-count : (cs : List ℕ) → AllNew cs → (g : ℕ) → count g cs ≤ 1
AllNew-count [] new g = omega arith
AllNew-count (c ∷ cs) new g =
    let ih = AllNew-count cs new.1 g in
    let out = count-in_set c cs in
    elim (Bool-cases (c == g)) [
      | inl same ↦ ground (arith, same, out, new.0, ap (λ y. count y cs) ((==_iff c g).0 same))
      | inr other ↦ ground (arith, other, ih)
    ]

pub count-AllNew : (cs : List ℕ) → ((g : ℕ) → count g cs ≤ 1) → AllNew cs
count-AllNew [] few = tt
count-AllNew (c ∷ cs) few = (
  (let out = count-in_set c cs in ground (arith, few c, out)),
  count-AllNew cs (λ g. ground (arith, few g)),
)
