-- ===== src/Store/Synced.antt =====
-- The database against the chain, while commits run beside the chain's operations.
use p2pool_go_vtc.Prelude.{
  ℕ, ◌≡◌, refl, sym, ap, Bool, true, false, Option, none, some, [], ◌∷◌, ◌||◌, if◌then◌else◌, ◌==◌,
  Option-cases, Bool-cases, inl, inr, arith, length, subst, ◌∙◌, ==_iff, ◌&&◌, not,
}
use p2pool_go_vtc.Prelude.Bytes.{Bytes}
use p2pool_go_vtc.Prelude.Eq.{nat_Eq}
use p2pool_go_vtc.Prelude.Dict.{Dict, lookup, has, insert, lookup-insert}
use p2pool_go_vtc.Share.{Share}
use p2pool_go_vtc.Chain.{ShareChain}
use p2pool_go_vtc.Chain.Index.{is_verified}
use p2pool_go_vtc.Chain.Sync.{in_set}
use p2pool_go_vtc.Store.{
  Batch, Store, split_dirty, begin_commit, mark_all, write, end_commit, wanted_value, batch_value,
}
use p2pool_go_vtc.Store.Writes.{write-lookup}

pub mark_all-has :
    (h : ℕ) (taken dirty : Dict ℕ Bool) → has h (mark_all taken dirty) ≡ has h taken || has h dirty
unfolding mark_all
mark_all-has h [] dirty = refl
mark_all-has h (e ∷ taken) dirty =
    ground (arith, mark_all-has h taken (insert e.0 true dirty), lookup-insert e.0 h true dirty)

module _ {F : Type 0} where
  pub split_dirty-taken :
      (sc : ShareChain F) (dirty : Dict ℕ Bool) → (split_dirty sc dirty).taken ≡ dirty
  unfolding split_dirty
  split_dirty-taken sc [] = refl
  split_dirty-taken sc (e ∷ dirty) = ground (arith, split_dirty-taken sc dirty)

  -- Is the hash held and verified?
  abbrev kept : ShareChain F → ℕ → Bool
  kept sc h = has h sc.shares && is_verified sc h

  -- A batch takes out the dirty hashes that are not kept, and writes the kept ones.
  split_dirty-parts :
      (sc : ShareChain F) (dirty : Dict ℕ Bool) (h : ℕ)
      → (in_set h (split_dirty sc dirty).dels ≡ has h dirty && not (kept sc h))
        × (lookup h (split_dirty sc dirty).puts
            ≡ (if has h dirty && kept sc h then lookup h sc.shares else none))
  unfolding split_dirty
  split_dirty-parts sc [] h = (refl, refl)
  split_dirty-parts sc (e ∷ dirty) h =
      let ih = split_dirty-parts sc dirty h in
      elim (Bool-cases (e.0 == h)) [
        | inl same ↦
            let key = (==_iff e.0 h).0 same in
            let held = ap (λ k. lookup k sc.shares) key in
            let seen = ap (λ k. is_verified sc k) key in
            (ground (arith, same, held, seen, ih.0), ground (arith, same, held, seen, ih.1))
        | inr other ↦ (ground (arith, other, ih.0), ground (arith, other, ih.1))
      ]

  module _ (marshal : Share F → Option Bytes) where
    -- A batch of dirty hashes leaves what is not dirty, and brings the rest up to date.
    split_dirty-value :
        (sc : ShareChain F) (dirty : Dict ℕ Bool) (h : ℕ) (v : Option Bytes)
        → batch_value marshal (split_dirty sc dirty) h v
          ≡ (if has h dirty then wanted_value marshal sc h else v)
    unfolding batch_value wanted_value
    split_dirty-value sc dirty h v =
        let parts = split_dirty-parts sc dirty h in ground (arith, parts.0, parts.1)

    -- What an entry becomes when the commit under way has landed.
    abbrev pub coming : Option (Batch F) → ℕ → Option Bytes → Option Bytes
    coming none h v = v
    coming (some b) h v = batch_value marshal b h v

    -- A batch changes the entries of the hashes that it took, and no others.
    abbrev pub Scoped : Option (Batch F) → Type 0
    Scoped none = Unit
    Scoped (some b) =
        (h : ℕ) (v : Option Bytes) → has h b.taken ≡ false → batch_value marshal b h v ≡ v

    -- Verified shares are held, and an entry that is not dirty is, or is about to be, what the chain
    -- wants it to be: the share when it is held and verified, else nothing.
    pub record Synced (st : Store F) : Type 0 where
      pub held : (h : ℕ) → is_verified st.chain h ≡ true → has h st.chain.shares ≡ true
      pub scoped : Scoped st.batch
      pub stored :
          (d : Dict ℕ Bytes)
          → st.db ≡ some d
          → (h : ℕ) → has h st.chain.dirty ≡ false
          → coming st.batch h (lookup h d) ≡ wanted_value marshal st.chain h

    -- The batch of all dirty hashes brings every entry up to date.
    pub taken_up_to_date :
        (st : Store F) (d : Dict ℕ Bytes)
        → Synced st
        → st.batch ≡ none
        → st.db ≡ some d
        → (h : ℕ)
        → batch_value marshal (split_dirty st.chain st.chain.dirty) h (lookup h d)
          ≡ wanted_value marshal st.chain h
    taken_up_to_date st d inv idle at h =
        split_dirty-value st.chain st.chain.dirty h (lookup h d)
        ∙ elim (Bool-cases (has h st.chain.dirty)) [
          | inl noted ↦ rw noted refl
          | inr clean ↦
              rw clean (sym (ap (λ b. coming b h (lookup h d)) idle) ∙ inv.stored d at h clean)
        ]

    pub begin_commit-Synced :
        (st st' : Store F) → st.batch ≡ none → begin_commit st ≡ some st' → Synced st → Synced st'
    unfolding begin_commit wanted_value
    begin_commit-Synced st st' idle e inv = elim (Option-cases st.db) [
      | inl closed ↦ absurd (ground (arith, e, closed))
      | inr (d, opened) ↦ elim (Bool-cases (length st.chain.dirty == 0)) [
        | inl clean ↦
            let same : st ≡ st' = ground (arith, e, opened, clean) in subst Synced same inv
        | inr busy ↦
            let b = split_dirty st.chain st.chain.dirty in
            let made : record st { chain = record st.chain { dirty = [] }; batch = some b } ≡ st' =
              ground (arith, e, opened, busy) in
            subst Synced made (record {
              held = inv.held;
              scoped = λ h v out.
                  split_dirty-value st.chain st.chain.dirty h v
                  ∙ rw (sym (ap (λ t. has h t) (split_dirty-taken st.chain st.chain.dirty)) ∙ out)
                      refl;
              stored = λ d1 at h clean. taken_up_to_date st d1 inv idle at h;
            })
      ]
    ]

    -- A change of the chain that notes every share whose wanted entry changes.
    pub chain_change-Synced :
        (st : Store F) (sc : ShareChain F)
        → ((h : ℕ) → is_verified sc h ≡ true → has h sc.shares ≡ true)
        → ((h : ℕ)
            → has h sc.dirty ≡ false
            → (has h st.chain.dirty ≡ false)
              × (wanted_value marshal sc h ≡ wanted_value marshal st.chain h))
        → Synced st
        → Synced (record st { chain = sc })
    chain_change-Synced st sc held noted inv = record {
      held = held;
      scoped = inv.scoped;
      stored = λ d at h clean. let same = noted h clean in inv.stored d at h same.0 ∙ sym same.1;
    }

    write-coming :
        (refused : Bool) (b : Batch F) (o : Option (Batch F)) (d d' : Dict ℕ Bytes)
        → o ≡ some b
        → write marshal refused b d ≡ some d'
        → (h : ℕ) → lookup h d' ≡ coming o h (lookup h d)
    write-coming refused b o d d' at e h =
        write-lookup marshal refused b d d' e h ∙ sym (ap (λ o. coming o h (lookup h d)) at)

    pub end_commit-Synced :
        (refused : Bool) (st : Store F) → Synced st → Synced (end_commit marshal refused st).0
    unfolding end_commit wanted_value
    end_commit-Synced refused st inv = elim (Option-cases st.batch) [
      | inl idle ↦ rw (end_commit, idle) inv
      | inr (b, at) ↦ elim (Option-cases st.db) [
        | inl closed ↦ rw (end_commit, at, closed) inv
        | inr (d, opened) ↦ elim (Option-cases (write marshal refused b d)) [
          | inr (d', done) ↦
              rw (end_commit, at, opened, done)
                (record {
                  held = inv.held;
                  scoped = tt;
                  stored = λ d1 same h clean.
                      let landed : d' ≡ d1 = ground (arith, same) in
                      subst (λ x. lookup h x ≡ wanted_value marshal st.chain h) landed
                        (write-coming refused b st.batch d d' at done h
                          ∙ inv.stored d opened h clean);
                })
          | inl failed ↦
              rw (end_commit, at, opened, failed)
                (record {
                  held = inv.held;
                  scoped = tt;
                  stored = λ d1 same h clean.
                      let dirty = mark_all-has h b.taken st.chain.dirty in
                      let untaken : has h b.taken ≡ false = ground (arith, dirty, clean) in
                      let unnoted : has h st.chain.dirty ≡ false = ground (arith, dirty, clean) in
                      sym (subst Scoped at inv.scoped h (lookup h d1) untaken)
                      ∙ sym (ap (λ o. coming o h (lookup h d1)) at)
                      ∙ inv.stored d1 same h unnoted;
                })
        ]
      ]
    ]
