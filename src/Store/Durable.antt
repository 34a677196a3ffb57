-- ===== src/Store/Durable.antt =====
-- A commit with nothing beside it.
use p2pool_go_vtc.Prelude.{
  ℕ, ◌≡◌, refl, sym, ap, Bool, true, false, Option, none, some, List, [], ◌∷◌, ◌==◌, Option-cases,
  Bool-cases, inl, inr, arith, length, ◌∙◌, subst,
}
use p2pool_go_vtc.Prelude.Bytes.{Bytes}
use p2pool_go_vtc.Prelude.Eq.{nat_Eq}
use p2pool_go_vtc.Prelude.Dict.{Dict, lookup, has}
use p2pool_go_vtc.Share.{Share}
use p2pool_go_vtc.Chain.{ShareChain}
use p2pool_go_vtc.Store.{
  Store, split_dirty, begin_commit, mark_all, write, end_commit, commit, wanted_value,
}
use p2pool_go_vtc.Store.Writes.{write-lookup}
use p2pool_go_vtc.Store.Synced.{Synced, coming, split_dirty-taken, mark_all-has, taken_up_to_date}

module _ {F : Type 0} (marshal : Share F → Option Bytes) where
  -- A commit that succeeds: every entry is what the chain wants, and no share is dirty.
  pub record Landed (st st' : Store F) : Type 0 where
    pub d : Dict ℕ Bytes
    pub opened : st'.db ≡ some d
    pub shares : st'.chain.shares ≡ st.chain.shares
    pub verified : st'.chain.verified ≡ st.chain.verified
    pub clean : st'.chain.dirty ≡ []
    pub exact : (h : ℕ) → lookup h d ≡ wanted_value marshal st'.chain h

  -- A commit that fails: the database is as it was, and the same shares are dirty.
  pub record Refused (st st' : Store F) : Type 0 where
    pub db : st'.db ≡ st.db
    pub shares : st'.chain.shares ≡ st.chain.shares
    pub verified : st'.chain.verified ≡ st.chain.verified
    pub dirty : (h : ℕ) → has h st'.chain.dirty ≡ has h st.chain.dirty

  empty_of_length : {A : Type 0} → (xs : List A) → length xs == 0 ≡ true → xs ≡ []
  empty_of_length [] e = refl
  empty_of_length (x ∷ xs) e = absurd (ground (arith, e))

  -- What becomes of a commit.
  data Fate (st : Store F) : Store F × Bool → Type 0 where
    closed : st.db ≡ none → Fate st (st, false)
    nothing : {d : Dict ℕ Bytes} → st.db ≡ some d → st.chain.dirty ≡ [] → Fate st (st, true)
    fails :
        {d : Dict ℕ Bytes}
        → st.db ≡ some d
        → Fate st (
          record st {
            chain = record st.chain {
              dirty = mark_all (split_dirty st.chain st.chain.dirty).taken [];
            };
            batch = none;
          },
          false,
        )
    lands :
        {d d' : Dict ℕ Bytes} (refused : Bool)
        → st.db ≡ some d
        → write marshal refused (split_dirty st.chain st.chain.dirty) d ≡ some d'
        → Fate st
            (record st { chain = record st.chain { dirty = [] }; db = some d'; batch = none }, true)

  commit-Fate :
      (refused : Bool) (st : Store F) → st.batch ≡ none → Fate st (commit marshal refused st)
  unfolding commit begin_commit end_commit
  commit-Fate refused st idle = elim (Option-cases st.db) [
    | inl shut ↦ from (closed shut) (ground (arith, shut))
    | inr (d, opened) ↦ elim (Bool-cases (length st.chain.dirty == 0)) [
      | inl clean ↦
          from (nothing opened (empty_of_length st.chain.dirty clean))
            (ground (arith, opened, clean, idle))
      | inr busy ↦
          elim (Option-cases (write marshal refused (split_dirty st.chain st.chain.dirty) d)) [
            | inl e ↦ from (fails opened) (ground (arith, opened, busy, e))
            | inr (d', e) ↦ from (lands refused opened e) (ground (arith, opened, busy, e))
          ]
    ]
  ]
    where
      from :
          {r : Store F × Bool}
          → Fate st r
          → commit marshal refused st ≡ r
          → Fate st (commit marshal refused st)
      from fate e = subst (Fate st) (sym e) fate

  wanted_value-dirty :
      (sc : ShareChain F) (dirty : Dict ℕ Bool) (h : ℕ)
      → wanted_value marshal sc h ≡ wanted_value marshal (record sc { dirty = dirty }) h
  unfolding wanted_value
  wanted_value-dirty sc dirty h = refl

  mark_all_anew :
      (h : ℕ) (sc : ShareChain F)
      → has h (mark_all (split_dirty sc sc.dirty).taken []) ≡ has h sc.dirty
  mark_all_anew h sc =
      rw (split_dirty-taken sc sc.dirty) (ground (arith, mark_all-has h sc.dirty []))

  -- A commit that succeeds, from a store in step: the database is open, the entry of every hash is the
  -- share when the chain holds it and it is verified, and absent otherwise, no share is dirty, and
  -- shares and verdicts are as before.
  pub commit-Landed :
      (refused : Bool) (st : Store F)
      → st.batch ≡ none
      → Synced marshal st
      → (commit marshal refused st).1 ≡ true
      → Landed st (commit marshal refused st).0
  commit-Landed refused st idle inv ok =
      by_fate (commit marshal refused st) (commit-Fate refused st idle) ok
    where
      by_fate : (r : Store F × Bool) → Fate st r → r.1 ≡ true → Landed st r.0
      by_fate r (closed shut) ok = absurd (cc)
      by_fate r (nothing {d} opened clean) ok = record {
        d = d;
        opened = opened;
        shares = refl;
        verified = refl;
        clean = clean;
        exact = λ h.
            sym (ap (λ o. coming marshal o h (lookup h d)) idle)
            ∙ inv.stored d opened h (rw clean refl);
      }
      by_fate r (fails opened) ok = absurd (cc)
      by_fate r (lands {d} {d'} refused opened e) ok = record {
        d = d';
        opened = refl;
        shares = refl;
        verified = refl;
        clean = refl;
        exact = λ h.
            write-lookup marshal refused (split_dirty st.chain st.chain.dirty) d d' e h
            ∙ taken_up_to_date marshal st d inv idle opened h
            ∙ wanted_value-dirty st.chain [] h;
      }

  -- A commit that fails leaves the database, the shares and the verdicts as they were, and the same
  -- shares are dirty.
  pub commit-Refused :
      (refused : Bool) (st : Store F)
      → st.batch ≡ none
      → (commit marshal refused st).1 ≡ false
      → Refused st (commit marshal refused st).0
  commit-Refused refused st idle bad =
      by_fate (commit marshal refused st) (commit-Fate refused st idle) bad
    where
      by_fate : (r : Store F × Bool) → Fate st r → r.1 ≡ false → Refused st r.0
      by_fate r (closed shut) bad = record {
        db = refl;
        shares = refl;
        verified = refl;
        dirty = λ h. refl;
      }
      by_fate r (nothing opened clean) bad = absurd (cc)
      by_fate r (fails opened) bad = record {
        db = refl;
        shares = refl;
        verified = refl;
        dirty = λ h. mark_all_anew h st.chain;
      }
      by_fate r (lands refused opened e) bad = absurd (cc)
