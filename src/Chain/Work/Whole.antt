-- ===== src/Chain/Work/Whole.antt =====
-- A share chain whose children index, works and lengths fit its shares: work/sharechain.go.
pub mod Stored
pub mod Added
pub mod Unlinking
pub mod Removed
pub mod Dropped
pub mod RemoveShares
pub mod Rebuilt
mod Tests
use p2pool_go_vtc.Prelude.{
  ℕ, ◌≡◌, refl, sym, true, false, ◌⊎◌, inl, inr, ◌∙◌, Bool, Option, none, some, List, [], ◌∷◌,
}
use p2pool_go_vtc.Prelude.Int.{ℤ}
use p2pool_go_vtc.Prelude.Eq.{nat_Eq}
use p2pool_go_vtc.Prelude.Dict.{Dict, lookup, has}
use p2pool_go_vtc.Env.{Float64}
use p2pool_go_vtc.Share.{Share}
use p2pool_go_vtc.Chain.{ShareChain, next_key}
use p2pool_go_vtc.Chain.Sync.{in_set}
use p2pool_go_vtc.Chain.Sync.Replies.{AllNew}
use p2pool_go_vtc.Chain.Index.{children_of, parent_work}
use p2pool_go_vtc.Chain.Index.Indexed.{Indexed}
use p2pool_go_vtc.Chain.Index.Works.{Worked}

module _ {F : Type 0} where
  -- The children of a hash are the held shares that name it as their parent, each once, except for
  -- held shares that are stored and not indexed yet.
  pub record IndexedBut (pend : List ℕ) (sc : ShareChain F) : Type 0 where
    pub once : (p : ℕ) → AllNew (children_of sc p)
    pub sound :
        (p c : ℕ)
        → in_set c (children_of sc p) ≡ true
        → (in_set c pend ≡ false)
          × (s : Share F) × (lookup c sc.shares ≡ some s)
          × (next_key s ≡ some p)
    pub complete :
        (p c : ℕ) (s : Share F)
        → lookup c sc.shares ≡ some s
        → next_key s ≡ some p
        → in_set c pend ≡ false
        → in_set c (children_of sc p) ≡ true

  pub IndexedBut-Indexed : (sc : ShareChain F) → IndexedBut [] sc → Indexed sc
  IndexedBut-Indexed sc i = record {
    once = i.once;
    sound = λ p c at. let s = i.sound p c at in (s.1, s.2, s.3);
    complete = λ p c s at up. i.complete p c s at up refl;
  }

  pub IndexedBut-same :
      (pend : List ℕ) (sc sc' : ShareChain F)
      → sc'.shares ≡ sc.shares
      → sc'.children ≡ sc.children
      → IndexedBut pend sc
      → IndexedBut pend sc'
  IndexedBut-same pend sc sc' shares children i = record {
    once = λ p. rw children (i.once p);
    sound = λ p c at. rw shares (i.sound p c (rw (sym children) at));
    complete = λ p c s at up out. rw children (i.complete p c s (rw (sym shares) at) up out);
  }

  -- There is no work where there is no share.
  abbrev pub Bare : List ℕ → ShareChain F → Type 0
  Bare pend sc =
      (x : ℕ)
      → (has x sc.shares ≡ false) ⊎ (in_set x pend ≡ true)
      → (lookup x sc.cum_work ≡ none) × (lookup x sc.chain_len ≡ none)

module _ (fl : Float64) where
  open fl use {F}

  -- The index and the works fit the shares, except for shares that are stored and no more.
  pub record WholeBut (pend : List ℕ) (sc : ShareChain F) : Type 0 where
    pub indexed : IndexedBut pend sc
    pub worked : (x : ℕ) → in_set x pend ≡ false → Worked fl sc x
    pub bare : Bare pend sc
    pub stored : (x : ℕ) → in_set x pend ≡ true → has x sc.shares ≡ true

  -- The index and the works fit the shares: the children of a hash are the held shares that name it
  -- as their parent, each once; the work and the length of each held share are its held parent's, or
  -- zero, plus its own; and no other hash has any.
  abbrev pub Whole : ShareChain F → Type 0
  Whole = WholeBut []

  -- What is not shares, index, works and lengths may change.
  pub WholeBut-frame :
      (pend : List ℕ) (sc : ShareChain F) (verified : Dict ℕ Bool) (received : Dict ℕ ℤ)
      (dirty : Dict ℕ Bool) (changes : ℕ) (tip : Option ℕ)
      → WholeBut pend sc
      → WholeBut pend (record sc {
        verified = verified;
        received = received;
        dirty = dirty;
        changes = changes;
        tip_hash = tip;
      })
  unfolding parent_work
  WholeBut-frame pend sc verified received dirty changes tip w = record {
    indexed = IndexedBut-same pend sc _ refl refl w.indexed;
    worked = w.worked;
    bare = w.bare;
    stored = w.stored;
  }

  -- The order of the shares that are not indexed yet does not matter.
  pub WholeBut-reorder :
      (pend other : List ℕ) (sc : ShareChain F)
      → ((x : ℕ) → in_set x other ≡ in_set x pend)
      → WholeBut pend sc
      → WholeBut other sc
  WholeBut-reorder pend other sc same w = record {
    indexed = record {
      once = w.indexed.once;
      sound = λ p c at. let t = w.indexed.sound p c at in (same c ∙ t.0, t.1, t.2, t.3);
      complete = λ p c s at up out. w.indexed.complete p c s at up (sym (same c) ∙ out);
    };
    worked = λ x out. w.worked x (sym (same x) ∙ out);
    bare = λ x why. elim why [
      | inl gone ↦ w.bare x (inl gone)
      | inr at ↦ w.bare x (inr (sym (same x) ∙ at))
    ];
    stored = λ x at. w.stored x (sym (same x) ∙ at);
  }
