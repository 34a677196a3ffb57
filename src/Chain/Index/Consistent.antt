-- ===== src/Chain/Index/Consistent.antt =====
-- The works after `updateWorkLocked`.
use p2pool_go_vtc.Prelude.{
  ℕ, zero, suc, ◌<◌, ◌≡◌, refl, true, false, none, some, List, arith, Bool-cases, Option-cases, inl,
  inr, ap, subst, ◌∙◌,
}
use p2pool_go_vtc.Prelude.Eq.{nat_Eq}
use p2pool_go_vtc.Prelude.Dict.{Dict, lookup, has}
use p2pool_go_vtc.Env.{Float64}
use p2pool_go_vtc.Share.{Share}
use p2pool_go_vtc.Chain.{ShareChain, next_key}
use p2pool_go_vtc.Chain.Sync.{in_set}
use p2pool_go_vtc.Chain.Index.{parent_work, held_once, update_work}
use p2pool_go_vtc.Chain.Index.Descend.{Below}
use p2pool_go_vtc.Chain.Index.Indexed.{Indexed}
use p2pool_go_vtc.Chain.Index.Works.{Worked}
use p2pool_go_vtc.Chain.Index.Roots.{Parentless}
use p2pool_go_vtc.Chain.Index.Visits.{with_works}
use p2pool_go_vtc.Chain.Index.Updated.{Update, update_work-Update, held_once-in_set}

module _ (fl : Float64) where
  open fl use {F, lit}

  -- `updateWorkLocked` ends, with fuel for the hashes and the children lists, whatever shares it is
  -- given, where the children index is right. It returns the held ones among them with all shares
  -- below these, each once, and changes nothing but the works and the lengths.
  pub update_work-total :
      (hs : List ℕ) (sc : ShareChain F)
      → Indexed sc
      → (all : List ℕ) × (works : Dict ℕ F) × (sizes : Dict ℕ ℕ) × (update_work fl hs sc
          ≡ some (all, with_works fl sc works sizes))
        × Below sc.children (held_once sc hs) all
  update_work-total hs sc index =
      let u = update_work-Update fl hs sc index in (u.all, u.works, u.sizes, u.result, u.below)

  -- Parents have a smaller rank: no share is below itself.
  abbrev pub Ranked : ShareChain F → (ℕ → ℕ) → Type 0
  Ranked sc rank =
      (x p : ℕ) (s t : Share F)
      → lookup x sc.shares ≡ some s
      → next_key s ≡ some p
      → lookup p sc.shares ≡ some t
      → rank p < rank x

  -- The works of two chains with the same entries for a share and its parent.
  same-Worked :
      (sc : ShareChain F) (works : Dict ℕ F) (sizes : Dict ℕ ℕ) (x : ℕ)
      → (lookup x works ≡ lookup x sc.cum_work) × (lookup x sizes ≡ lookup x sc.chain_len)
      → ((s : Share F) (p : ℕ)
          → lookup x sc.shares ≡ some s
          → next_key s ≡ some p
          → (lookup p works ≡ lookup p sc.cum_work) × (lookup p sizes ≡ lookup p sc.chain_len))
      → Worked fl sc x
      → Worked fl (with_works fl sc works sizes) x
  unfolding parent_work
  same-Worked sc works sizes x own up right s at =
      let r = right s at in
      let pw : parent_work fl (with_works fl sc works sizes) s ≡ parent_work fl sc s =
        elim (Option-cases (next_key s)) [
          | inl root ↦ rw (parent_work, root) refl
          | inr (p, e) ↦
              let same = up s p at e in
              elim (Option-cases (lookup p sc.shares)) [
                | inl gone ↦ rw (parent_work, e, gone) refl
                | inr (t, there) ↦ rw (parent_work, e, there, same.0, same.1) refl
              ]
        ] in
      rw pw (own.0 ∙ r.0, own.1 ∙ r.1)

  module _ (hs : List ℕ) (sc : ShareChain F) (index : Indexed sc) (rank : ℕ → ℕ)
      (ranked : Ranked sc rank) where
    abbrev up_date : Update fl hs sc index
    up_date = update_work-Update fl hs sc index

    -- Every share to update was visited.
    all_visited :
        (n x : ℕ) → rank x < n → in_set x up_date.all ≡ true → in_set x up_date.visited ≡ true
    all_visited zero x low at = absurd (omega (arith, low))
    all_visited (suc n) x low at =
        let s = up_date.held x at in
        elim (Option-cases (next_key s.0)) [
          | inl root ↦ from_root (λ t p there up. absurd (clash s.0 t there s.1 root up))
          | inr (p, up) ↦ elim (Bool-cases (in_set p up_date.all)) [
            | inr outside ↦ from_root (λ t q there above.
                let same : s.0 ≡ t = ground (arith, there, s.1) in
                let key : p ≡ q = ground (arith, up, above, ap next_key same) in
                subst (λ y. in_set y up_date.all ≡ false) key outside)
            | inl inside ↦
                let t = up_date.held p inside in
                let above =
                  all_visited n p (omega (arith, low, ranked x p s.0 t.0 s.1 up t.1)) inside in
                let met = up_date.visits.children p x above (index.complete p x s.0 s.1 up) in
                ground (arith, met)
          ]
        ]
      where
        from_root : Parentless sc up_date.all x → in_set x up_date.visited ≡ true
        from_root free =
            let met = up_date.visits.seeded x (up_date.parentless.complete x at free) in
            ground (arith, met)

        clash :
            (s t : Share F)
            → lookup x sc.shares ≡ some t
            → lookup x sc.shares ≡ some s
            → next_key s ≡ none
            → {p : ℕ} → next_key t ≡ some p
            → ⊥
        clash s t there here root up =
            let same : s ≡ t = ground (arith, there, here) in
            ground (arith, root, up, ap next_key same)

    untouched :
        (x : ℕ)
        → in_set x up_date.all ≡ false
        → (lookup x up_date.works ≡ lookup x sc.cum_work)
          × (lookup x up_date.sizes ≡ lookup x sc.chain_len)
    untouched x outside = up_date.visits.others x (elim (Bool-cases (in_set x up_date.visited)) [
      | inr out ↦ out
      | inl was ↦ absurd (ground (arith, outside, was, up_date.visits.inside x))
    ])

    above_outside :
        (x : ℕ) (t : Share F) (p : ℕ)
        → in_set x up_date.all ≡ false
        → lookup x sc.shares ≡ some t
        → next_key t ≡ some p
        → in_set p up_date.all ≡ false
    above_outside x t p outside there up = elim (Bool-cases (in_set p up_date.all)) [
      | inr out ↦ out
      | inl inside ↦
          absurd (
            ground
              (arith, outside, up_date.below.closed p x inside (index.complete p x t there up)))
    ]

    not_given :
        (x : ℕ) (s : Share F)
        → lookup x sc.shares ≡ some s
        → in_set x up_date.all ≡ false
        → in_set x hs ≡ false
    not_given x s at outside = elim (Bool-cases (in_set x hs)) [
      | inr out ↦ out
      | inl given ↦
          absurd
            (ground (arith, outside, at, given, held_once-in_set sc x hs, up_date.below.seeded x))
    ]

    -- `updateWorkLocked` restores the works: where no share is below itself, the children index is
    -- right, and every held share that is not given to it has its parent's work plus its own, every
    -- held share has it afterwards, and its length likewise. Nothing but works and lengths changes, and
    -- not those of a hash that is not held.
    pub update_work-Worked :
        ((x : ℕ) → in_set x hs ≡ false → Worked fl sc x)
        → (all : List ℕ) × (works : Dict ℕ F) × (sizes : Dict ℕ ℕ) × (update_work fl hs sc
            ≡ some (all, with_works fl sc works sizes))
          × ((x : ℕ) → Worked fl (with_works fl sc works sizes) x)
          × ((x : ℕ)
              → has x sc.shares ≡ false
              → (lookup x works ≡ lookup x sc.cum_work) × (lookup x sizes ≡ lookup x sc.chain_len))
    update_work-Worked right = (
      up_date.all,
      up_date.works,
      up_date.sizes,
      up_date.result,
      λ x. elim (Bool-cases (in_set x up_date.all)) [
        | inl inside ↦ up_date.visits.right x (all_visited (suc (rank x)) x (omega arith) inside)
        | inr outside ↦ λ s at.
            same-Worked sc up_date.works up_date.sizes x (untouched x outside)
              (λ t p there up. untouched p (above_outside x t p outside there up))
              (right x (not_given x s at outside)) s at
      ],
      λ x gone. untouched x (elim (Bool-cases (in_set x up_date.all)) [
        | inr out ↦ out
        | inl inside ↦ absurd (let s = up_date.held x inside in ground (arith, gone, s.1))
      ]),
    )
