-- ===== src/Chain/Work/Whole/Added.antt =====
-- `linkLocked` and `addWorkLocked`.
use p2pool_go_vtc.Prelude.{
  ℕ, ◌≡◌, refl, true, false, inl, inr, Option, none, some, List, [], ◌∷◌, ◌++◌, ◌==◌, ==_iff,
  if◌then◌else◌, Bool-cases, Option-cases, arith, ap, subst, ◌∙◌,
}
use p2pool_go_vtc.Prelude.Eq.{nat_Eq}
use p2pool_go_vtc.Prelude.Dict.{Dict, lookup, has, get_or, insert, lookup-insert}
use p2pool_go_vtc.Env.{Float64}
use p2pool_go_vtc.Share.{Share}
use p2pool_go_vtc.Chain.{ShareChain, next_key}
use p2pool_go_vtc.Chain.Sync.{in_set}
use p2pool_go_vtc.Chain.Sync.Replies.{AllNew, AllNew-append, in_set-append}
use p2pool_go_vtc.Chain.Index.{children_of, link, parent_work}
use p2pool_go_vtc.Chain.Index.Consistent.{Ranked, update_work-Worked}
use p2pool_go_vtc.Chain.Index.Visits.{with_works}
use p2pool_go_vtc.Chain.Work.{link_all, add_work}
use p2pool_go_vtc.Chain.Work.Frame.{consider_tip-frame}
use p2pool_go_vtc.Chain.Work.Whole.{IndexedBut, IndexedBut-Indexed, WholeBut, Whole}

module _ {F : Type 0} where
  module _ (pend : List ℕ) (h : ℕ) (sc : ShareChain F) (s : Share F)
      (held : lookup h sc.shares ≡ some s) (i : IndexedBut (h ∷ pend) sc) where
    same_share : (c : ℕ) (t : Share F) → h ≡ c → lookup c sc.shares ≡ some t → s ≡ t
    same_share c t key at = ground (arith, at, held, ap (λ y. lookup y sc.shares) key)

    root-IndexedBut : next_key s ≡ none → IndexedBut pend sc
    root-IndexedBut root = record {
      once = i.once;
      sound = λ p c at. let t = i.sound p c at in (ground (arith, t.0), t.1, t.2, t.3);
      complete = λ p c t at up out. elim (Bool-cases (h == c)) [
        | inl same ↦
            let key = same_share c t ((==_iff h c).0 same) at in
            absurd (ground (arith, up, root, ap next_key key))
        | inr other ↦ i.complete p c t at up (ground (arith, out, other))
      ];
    }

    -- The children after the head was linked below a hash.
    linked_children :
        (q p : ℕ)
        → get_or [] p (insert q (children_of sc q ++ h ∷ []) sc.children)
          ≡ (if q == p then children_of sc q ++ h ∷ [] else children_of sc p)
    linked_children q p = ground (arith, lookup-insert q p (children_of sc q ++ h ∷ []) sc.children)

    is_linked :
        (q p c : ℕ)
        → in_set c (if q == p then children_of sc q ++ h ∷ [] else children_of sc p) ≡ true
        → in_set c (children_of sc p) ≡ false
        → (q ≡ p) × (h ≡ c)
    is_linked q p c at now = elim (Bool-cases (q == p)) [
      | inr apart ↦ absurd (ground (arith, at, now, apart))
      | inl same ↦
          let key = (==_iff q p).0 same in
          (
            key,
            (==_iff h c).0 (
                ground (
                  arith,
                  at,
                  now,
                  same,
                  ap (λ y. in_set c (children_of sc y)) key,
                  in_set-append c h (children_of sc q),
                )),
          )
    ]

    child-IndexedBut :
        (q : ℕ)
        → next_key s ≡ some q
        → in_set h pend ≡ false
        → IndexedBut pend
            (record sc { children = insert q (children_of sc q ++ h ∷ []) sc.children })
    child-IndexedBut q up fresh = record {
      once = λ p. rw (linked_children q p) (elim (Bool-cases (q == p)) [
        | inl same ↦ rw same (
            AllNew-append (children_of sc q) h (i.once q)
              (elim (Bool-cases (in_set h (children_of sc q))) [
                | inr out ↦ out
                | inl there ↦ absurd (let t = i.sound q h there in ground (arith, t.0))
              ]))
        | inr other ↦ rw other (i.once p)
      ]);
      sound = λ p c at.
          let linked = subst (λ l. in_set c l ≡ true) (linked_children q p) at in
          elim (Bool-cases (in_set c (children_of sc p))) [
            | inl old ↦ let t = i.sound p c old in (ground (arith, t.0), t.1, t.2, t.3)
            | inr now ↦
                let only = is_linked q p c linked now in
                (
                  subst (λ y. in_set y pend ≡ false) (only.1) fresh,
                  s,
                  subst (λ y. lookup y sc.shares ≡ some s) (only.1) held,
                  up ∙ ap some (only.0),
                )
          ];
      complete = λ p c t at above out. rw (linked_children q p) (elim (Bool-cases (h == c)) [
        | inl same ↦
            let key = same_share c t ((==_iff h c).0 same) at in
            let parent : q ≡ p = ground (arith, up, above, ap next_key key) in
            ground (arith, same, (==_iff q p).1 parent, in_set-append c h (children_of sc q))
        | inr other ↦
            let old = i.complete p c t at above (ground (arith, out, other)) in
            elim (Bool-cases (q == p)) [
              | inl same ↦ ground (
                arith,
                old,
                same,
                ap (λ y. in_set c (children_of sc y)) ((==_iff q p).0 same),
                in_set-append c h (children_of sc q),
              )
              | inr apart ↦ rw apart old
            ]
      ]);
    }

module _ (fl : Float64) where
  open fl use {F}

  -- Linking all shares that are not indexed yet.
  pub link_all-IndexedBut :
      (hs : List ℕ) (sc : ShareChain F)
      → AllNew hs
      → ((x : ℕ) → in_set x hs ≡ true → has x sc.shares ≡ true)
      → IndexedBut hs sc
      → (cs : Dict ℕ (List ℕ)) × (link_all fl hs sc ≡ some (record sc { children = cs }))
        × IndexedBut [] (record sc { children = cs })
  unfolding link_all link
  link_all-IndexedBut [] sc new held i = (sc.children, refl, i)
  link_all-IndexedBut (h ∷ hs) sc new held i = elim (Option-cases (lookup h sc.shares)) [
    | inl gone ↦ absurd (let there = held h (ground arith) in ground (arith, gone, there))
    | inr (s, here) ↦ elim (Option-cases (next_key s)) [
      | inl root ↦
          let rest =
            link_all-IndexedBut hs sc new.1 (λ x at. held x (ground (arith, at)))
              (root-IndexedBut hs h sc s here i root) in
          (rest.0, rw (link_all, here, link, root) (rest.1), rest.2)
      | inr (q, up) ↦
          let rest =
            link_all-IndexedBut hs
              (record sc { children = insert q (children_of sc q ++ h ∷ []) sc.children }) new.1
              (λ x at. held x (ground (arith, at)))
              (child-IndexedBut hs h sc s here i q up new.0) in
          (rest.0, rw (link_all, here, link, up) (rest.1), rest.2)
    ]
  ]

  -- A new tip changes nothing.
  pub tip-Whole :
      (sc : ShareChain F) (t : Option ℕ) → Whole fl sc → Whole fl (record sc { tip_hash = t })
  unfolding parent_work
  tip-Whole sc t whole = record {
    indexed = record {
      once = whole.indexed.once;
      sound = whole.indexed.sound;
      complete = whole.indexed.complete;
    };
    worked = whole.worked;
    bare = whole.bare;
    stored = whole.stored;
  }

  -- `addWorkLocked` ends, and makes a chain whole again whose index and works fit all shares but the
  -- given ones, which are held, each given once: where no share is below itself.
  pub add_work-Whole :
      (hs : List ℕ) (sc : ShareChain F) (rank : ℕ → ℕ)
      → AllNew hs
      → Ranked fl sc rank
      → WholeBut fl hs sc
      → (sc' : ShareChain F) × (add_work fl hs sc ≡ some sc')
        × (sc'.shares ≡ sc.shares)
        × (sc'.verified ≡ sc.verified)
        × Whole fl sc'
  unfolding add_work parent_work
  add_work-Whole hs sc rank new ranked whole =
      let linked = link_all-IndexedBut hs sc new whole.stored whole.indexed in
      let sc1 = record sc { children = linked.0 } in
      let u =
        update_work-Worked fl hs sc1 (IndexedBut-Indexed sc1 linked.2) rank ranked whole.worked in
      let sc2 = with_works fl sc1 u.1 u.2 in
      let tip = consider_tip-frame fl (u.0) sc2 in
      (
        record sc2 { tip_hash = tip.0 },
        rw (add_work, linked.1, u.3, tip.1) refl,
        refl,
        refl,
        tip-Whole sc2 tip.0 (record {
          indexed = record {
            once = linked.2.once;
            sound = linked.2.sound;
            complete = linked.2.complete;
          };
          worked = λ x out. u.4 x;
          bare = λ x why. elim why [
            | inl gone ↦
                let same = u.5 x gone in
                let none' = whole.bare x (inl gone) in (same.0 ∙ none'.0, same.1 ∙ none'.1)
            | inr at ↦ absurd (cc)
          ];
          stored = λ x at. absurd (cc);
        }),
      )
