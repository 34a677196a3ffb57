-- ===== src/Chain/Index/Works.antt =====
-- The last loop of `updateWorkLocked`: the works.
use p2pool_go_vtc.Prelude.{
  ℕ, ◌+◌, ◌≡◌, ◌≢◌, refl, some, ◌==◌, arith, Bool-cases, Option-cases, inl, inr, ==_iff, ap, sym,
  ◌∙◌,
}
use p2pool_go_vtc.Prelude.Eq.{nat_Eq}
use p2pool_go_vtc.Prelude.Dict.{lookup, get_or, insert, lookup-insert}
use p2pool_go_vtc.Env.{Float64}
use p2pool_go_vtc.Share.{Share}
use p2pool_go_vtc.Chain.{ShareChain, next_key}
use p2pool_go_vtc.Chain.Index.{parent_work, own_work, set_work}

module _ (fl : Float64) where
  open fl use {F, fadd, lit}

  -- The work and the length of a share are those of its held parent, or zero, plus its own.
  abbrev pub Worked : ShareChain F → ℕ → Type 0
  Worked sc x =
      (s : Share F)
      → lookup x sc.shares ≡ some s
      → (lookup x sc.cum_work ≡ some (fadd (parent_work fl sc s).0 (own_work fl s).0))
        × (lookup x sc.chain_len ≡ some ((parent_work fl sc s).1 + (own_work fl s).1))

  parent_work-set_work :
      (h : ℕ) (s t : Share F) (sc : ShareChain F)
      → next_key t ≢ some h
      → parent_work fl (set_work fl h s sc) t ≡ parent_work fl sc t
  unfolding parent_work set_work
  parent_work-set_work h s t sc other = elim (Option-cases (next_key t)) [
    | inl root ↦ rw (parent_work, root) refl
    | inr (p, at) ↦ elim (Bool-cases (h == p)) [
      | inl same ↦ absurd (other (at ∙ ap some (sym ((==_iff h p).0 same))))
      | inr apart ↦
          let pw = parent_work fl sc s in
          let own = own_work fl s in
          let cum = lookup-insert h p (fadd pw.0 own.0) sc.cum_work in
          let len = lookup-insert h p (pw.1 + own.1) sc.chain_len in
          let work : get_or (lit 0 1) p (insert h (fadd pw.0 own.0) sc.cum_work)
              ≡ get_or (lit 0 1) p sc.cum_work =
            ground (arith, cum, apart) in
          let size : get_or 0 p (insert h (pw.1 + own.1) sc.chain_len) ≡ get_or 0 p sc.chain_len =
            ground (arith, len, apart) in
          elim (Option-cases (lookup p sc.shares)) [
            | inl gone ↦ rw (parent_work, at, set_work, gone) refl
            | inr (ps, there) ↦ rw (parent_work, at, set_work, there) (λ i. (work i, size i))
          ]
    ]
  ]

  -- Setting the work of a share makes it right, and keeps the works that do not rest on it.
  pub set_work-Worked :
      (h x : ℕ) (s : Share F) (sc : ShareChain F)
      → lookup h sc.shares ≡ some s
      → ((t : Share F) → lookup x sc.shares ≡ some t → next_key t ≢ some h)
      → (h ≢ x → Worked sc x)
      → Worked (set_work fl h s sc) x
  unfolding set_work
  set_work-Worked h x s sc held apart right t at =
      let pw = parent_work fl sc s in
      let own = own_work fl s in
      let cum = lookup-insert h x (fadd pw.0 own.0) sc.cum_work in
      let len = lookup-insert h x (pw.1 + own.1) sc.chain_len in
      rw (parent_work-set_work h s t sc (apart t at)) (elim (Bool-cases (h == x)) [
        | inl same ↦
            let key = (==_iff h x).0 same in
            let same_share : s ≡ t = ground (arith, held, at, ap (λ y. lookup y sc.shares) key) in
            rw (sym same_share) (ground (arith, cum, same), ground (arith, len, same))
        | inr other ↦
            let old = right (λ e. ground (arith, e, other)) t at in
            (ground (arith, cum, other, old.0), ground (arith, len, other, old.1))
      ])
