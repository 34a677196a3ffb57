-- ===== src/Chain/Index/Roots.antt =====
-- The shares to update whose parent is not one of them.
use p2pool_go_vtc.Prelude.{
  ℕ, ◌≤◌, ◌≡◌, refl, true, false, some, List, [], ◌∷◌, length, ◌==◌, arith, Bool-cases,
  Option-cases, inl, inr, ==_iff, ap, subst,
}
use p2pool_go_vtc.Prelude.Eq.{nat_Eq}
use p2pool_go_vtc.Prelude.Dict.{lookup}
use p2pool_go_vtc.Share.{Share}
use p2pool_go_vtc.Chain.{ShareChain, next_key}
use p2pool_go_vtc.Chain.Sync.{in_set}
use p2pool_go_vtc.Chain.Sync.Replies.{AllNew}
use p2pool_go_vtc.Chain.Index.{roots_of}

module _ {F : Type 0} (sc : ShareChain F) (all : List ℕ) where
  -- No share under the hash has a parent in the set.
  abbrev pub Parentless : ℕ → Type 0
  Parentless x =
      (s : Share F) (p : ℕ)
      → lookup x sc.shares ≡ some s
      → next_key s ≡ some p
      → in_set p all ≡ false

  pub record Roots (hs qs : List ℕ) : Type 0 where
    pub new : AllNew hs → AllNew qs
    pub few : length qs ≤ length hs
    pub among : (x : ℕ) → in_set x qs ≡ true → in_set x hs ≡ true
    pub free : (x : ℕ) → in_set x qs ≡ true → Parentless x
    pub complete : (x : ℕ) → in_set x hs ≡ true → Parentless x → in_set x qs ≡ true

  take_root : (h : ℕ) (hs qs : List ℕ) → Parentless h → Roots hs qs → Roots (h ∷ hs) (h ∷ qs)
  take_root h hs qs free r = record {
    new = λ n. (by_among (n.0), r.new n.1);
    few = omega (arith, r.few);
    among = λ x at. ground (arith, at, r.among x);
    free = λ x at. elim (Bool-cases (h == x)) [
      | inl same ↦ subst Parentless ((==_iff h x).0 same) free
      | inr other ↦ r.free x (ground (arith, at, other))
    ];
    complete = λ x at none_in. ground (arith, at, r.complete x);
  }
    where
      by_among : in_set h hs ≡ false → in_set h qs ≡ false
      by_among out = ground (arith, out, r.among h)

  skip_child :
      (h p : ℕ) (s : Share F) (hs qs : List ℕ)
      → lookup h sc.shares ≡ some s
      → next_key s ≡ some p
      → in_set p all ≡ true
      → Roots hs qs
      → Roots (h ∷ hs) qs
  skip_child h p s hs qs held at inside r = record {
    new = λ n. r.new n.1;
    few = omega (arith, r.few);
    among = λ x at. ground (arith, at, r.among x);
    free = r.free;
    complete = λ x there free. elim (Bool-cases (h == x)) [
      | inl same ↦ absurd (
          ground (
            arith,
            inside,
            free s p (subst (λ y. lookup y sc.shares ≡ some s) ((==_iff h x).0 same) held) at,
          ))
      | inr other ↦ r.complete x (ground (arith, there, other)) free
    ];
  }

  -- Where all shares are held, the roots are found.
  pub roots_of-Roots :
      (hs : List ℕ)
      → ((x : ℕ) → in_set x hs ≡ true → (s : Share F) × (lookup x sc.shares ≡ some s))
      → (qs : List ℕ) × (roots_of sc all hs ≡ some qs) × Roots hs qs
  unfolding roots_of
  roots_of-Roots [] held = (
    [],
    refl,
    record {
      new = λ n. tt;
      few = omega arith;
      among = λ x at. at;
      free = λ x at. absurd (cc);
      complete = λ x at free. at;
    },
  )
  roots_of-Roots (h ∷ hs) held =
      let here = held h (ground arith) in
      let rest = roots_of-Roots hs (λ x at. held x (ground (arith, at))) in
      elim (Option-cases (next_key here.0)) [
        | inl root ↦ (
          h ∷ rest.0,
          rw (roots_of, here.1, rest.1, root) refl,
          take_root h hs rest.0 (λ s p at up. absurd (ground (arith, up, root, at, here.1))) rest.2,
        )
        | inr (p, up) ↦ elim (Bool-cases (in_set p all)) [
          | inl inside ↦ (
            rest.0,
            rw (roots_of, here.1, rest.1, up, inside) refl,
            skip_child h p here.0 hs rest.0 here.1 up inside rest.2,
          )
          | inr outside ↦ (
            h ∷ rest.0,
            rw (roots_of, here.1, rest.1, up, outside) refl,
            take_root h hs rest.0
                (λ s q at above.
                  let same : here.0 ≡ s = ground (arith, at, here.1) in
                  let key : p ≡ q = ground (arith, up, above, ap next_key same) in
                  subst (λ y. in_set y all ≡ false) key outside)
                rest.2,
          )
        ]
      ]
