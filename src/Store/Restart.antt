-- ===== src/Store/Restart.antt =====
-- A node that stops after a commit and starts again.
use p2pool_go_vtc.Prelude.{
  ℕ, ◌≡◌, refl, Bool, true, ◌&&◌, Option, none, some, List, [], ◌∷◌, Bool-cases, Option-cases, inl,
  inr, arith, ap, sym, subst, ◌∙◌,
}
use p2pool_go_vtc.Prelude.Int.{ℤ}
use p2pool_go_vtc.Prelude.Bytes.{Bytes}
use p2pool_go_vtc.Prelude.Eq.{nat_Eq}
use p2pool_go_vtc.Prelude.Dict.{Dict, lookup, has, Distinct, insert-Distinct}
use p2pool_go_vtc.Env.{Float64, Codec, Wire, HeaderHash}
use p2pool_go_vtc.Share.{Share}
use p2pool_go_vtc.Chain.{ShareChain}
use p2pool_go_vtc.Chain.Index.{is_verified}
use p2pool_go_vtc.Chain.Index.Consistent.{Ranked}
use p2pool_go_vtc.Chain.Work.Whole.{Whole}
use p2pool_go_vtc.Chain.Work.Whole.Rebuilt.{recompute_work_and_tip-Whole}
use p2pool_go_vtc.Store.{Store, wanted_value}
use p2pool_go_vtc.Store.Synced.{Synced, Scoped, coming}
use p2pool_go_vtc.Store.Load.{sort_shares, read_all, hashed, copy_of, load_all, load_trusted, load}
use p2pool_go_vtc.Store.Loaded.{Readable, loaded_entry, read_all-loaded}

module _ (fl : Float64) (codec : Codec) (testnet : Bool) (compact_to_big : ℕ → ℤ)
    (sha256 : Bytes → Bytes) (wire : Wire) (hashes : HeaderHash) where
  open fl use {F}

  load_all-Distinct :
      (fs : List (Share F)) (sc : ShareChain F)
      → Distinct sc.shares
      → Distinct (load_all fl codec testnet compact_to_big sha256 wire hashes fs sc).shares
  unfolding load_all
  load_all-Distinct [] sc d = d
  load_all-Distinct (s ∷ fs) sc d =
      elim (Option-cases (hashed fl codec testnet compact_to_big sha256 wire hashes s).hash) [
        | inl none' ↦ rw (load_all, none') (load_all-Distinct fs sc d)
        | inr (h, at) ↦ rw (load_all, at) (load_all-Distinct fs _ (insert-Distinct h _ sc.shares d))
      ]

  load_all-dirty :
      (fs : List (Share F)) (sc : ShareChain F)
      → (load_all fl codec testnet compact_to_big sha256 wire hashes fs sc).dirty ≡ sc.dirty
  unfolding load_all
  load_all-dirty [] sc = refl
  load_all-dirty (s ∷ fs) sc =
      elim (Option-cases (hashed fl codec testnet compact_to_big sha256 wire hashes s).hash) [
        | inl none' ↦ rw (load_all, none') (load_all-dirty fs sc)
        | inr (h, at) ↦ rw (load_all, at) (load_all-dirty fs _)
      ]

  module _ (marshal : Share F → Option Bytes) (unmarshal : Bytes → Option (Share F)) where
    -- The JSON of a share reads back as one with its hash, which is written as the same JSON when
    -- the chain holds it.
    abbrev pub RoundTrips : Type 0
    RoundTrips =
        (h : ℕ) (s : Share F) (v : Bytes)
        → marshal s ≡ some v
        → s.hash ≡ some h
        → (s' : Share F) × (unmarshal v ≡ some s')
          × ((hashed fl codec testnet compact_to_big sha256 wire hashes s').hash ≡ some h)
          × (marshal (copy_of fl codec testnet compact_to_big sha256 wire hashes s') ≡ some v)

    -- The database after a clean stop: what the chain wanted. Shares stand under their own hashes and
    -- have a JSON, and the bucket has no key twice.
    pub record Stopped (old : ShareChain F) (d : Dict ℕ Bytes) : Type 0 where
      pub exact : (h : ℕ) → lookup h d ≡ wanted_value marshal old h
      pub keyed : (h : ℕ) (s : Share F) → lookup h old.shares ≡ some s → s.hash ≡ some h
      pub written :
          (h : ℕ) (s : Share F) → lookup h old.shares ≡ some s → (v : Bytes) × (marshal s ≡ some v)
      pub distinct : Distinct d

    module _ (trips : RoundTrips) (old : ShareChain F) (d : Dict ℕ Bytes)
        (stop : Stopped old d) where
      wanted_share :
          (h : ℕ) (v : Bytes)
          → wanted_value marshal old h ≡ some v
          → (s : Share F) × (lookup h old.shares ≡ some s)
            × (marshal s ≡ some v)
            × (is_verified old h ≡ true)
      unfolding wanted_value
      wanted_share h v at = elim (Option-cases (lookup h old.shares)) [
        | inl gone ↦ absurd (ground (arith, at, gone))
        | inr (s, held) ↦ elim (Bool-cases (is_verified old h)) [
          | inl seen ↦ (s, held, ground (arith, at, held, seen), seen)
          | inr unseen ↦ absurd (ground (arith, at, held, unseen))
        ]
      ]

      stopped-Readable : Readable fl codec testnet compact_to_big sha256 wire hashes unmarshal d
      stopped-Readable h v at =
          let s = wanted_share h v (sym (stop.exact h) ∙ at) in
          let r = trips h s.0 v s.2 (stop.keyed h s.0 s.1) in (r.0, r.1, r.2)

      -- What a loaded chain holds for a hash.
      data Restored (h : ℕ) (sc : ShareChain F) : Type 0 where
        absent :
            wanted_value marshal old h ≡ none
            → lookup h sc.shares ≡ none
            → lookup h sc.verified ≡ none
            → Restored h sc
        back :
            (v : Bytes) (s' : Share F)
            → wanted_value marshal old h ≡ some v
            → lookup h sc.shares ≡ some s'
            → lookup h sc.verified ≡ some true
            → marshal s' ≡ some v
            → Restored h sc

      entry-Restored :
          (h : ℕ) (sc : ShareChain F)
          → (lookup h sc.shares, lookup h sc.verified)
            ≡ loaded_entry fl codec testnet compact_to_big sha256 wire hashes unmarshal h d
                (none, none)
          → Restored h sc
      entry-Restored h sc e = elim (Option-cases (wanted_value marshal old h)) [
        | inl none' ↦
            let out = stop.exact h ∙ none' in
            absent none' (ap (λ r. r.0) e ∙ rw (loaded_entry, out) refl)
              (ap (λ r. r.1) e ∙ rw (loaded_entry, out) refl)
        | inr (v, at) ↦
            let s = wanted_share h v at in
            let r = trips h s.0 v s.2 (stop.keyed h s.0 s.1) in
            let there = stop.exact h ∙ at in
            back v (copy_of fl codec testnet compact_to_big sha256 wire hashes r.0) at
              (ap (λ r. r.0) e ∙ rw (loaded_entry, there, r.1) refl)
              (ap (λ r. r.1) e ∙ rw (loaded_entry, there, r.1) refl) r.3
      ]

      -- The loaded chain holds and has verified exactly the shares that were held and verified.
      Restored-kept :
          (h : ℕ) (sc : ShareChain F)
          → Restored h sc
          → (has h sc.shares ≡ has h old.shares && is_verified old h)
            × (is_verified sc h ≡ has h sc.shares)
            × (wanted_value marshal sc h ≡ wanted_value marshal old h)
      unfolding wanted_value
      Restored-kept h sc (absent none' share seen) = elim (Option-cases (lookup h old.shares)) [
        | inl gone ↦
            (ground (arith, share, gone), ground (arith, share, seen), ground (arith, share, none'))
        | inr (s, held) ↦
            let v = stop.written h s held in
            (
              ground (arith, share, held, none', v.1),
              ground (arith, share, seen),
              ground (arith, share, none'),
            )
      ]
      Restored-kept h sc (back v s' at share seen same) =
          let s = wanted_share h v at in
          (
            ground (arith, share, s.1, s.3),
            ground (arith, share, seen),
            ground (arith, share, seen, same, at),
          )

      -- The chain after the restart, whose works and tip are made anew.
      pub record Restarted (st' : Store F) : Type 0 where
        pub db : st'.db ≡ some d
        pub held : (h : ℕ) → has h st'.chain.shares ≡ has h old.shares && is_verified old h
        pub verified : (h : ℕ) → is_verified st'.chain h ≡ has h st'.chain.shares
        pub synced : Synced marshal st'
        pub whole : Whole fl st'.chain

      -- A chain that is empty, and its store closed.
      pub record Closed (st : Store F) : Type 0 where
        pub db : st.db ≡ none
        pub batch : st.batch ≡ none
        pub shares : st.chain.shares ≡ []
        pub verified : st.chain.verified ≡ []

      -- A node that starts from the database of a clean stop loads it: where no loaded share is below
      -- itself, `load` succeeds, and the chain then holds exactly the shares that the old one held and
      -- had verified, all of them verified, its database is in step with it, and its index and works fit
      -- its shares. Shares must read back from their JSON with their hashes, and be written as the same
      -- JSON again.
      pub load-Restarted :
          (refused : Bool) (json : Option (List (Share F))) (st : Store F) (rank : ℕ → ℕ)
          → Closed st
          → ((fs : List (Share F))
              → read_all unmarshal d ≡ some fs
              → Ranked fl
                  (load_all fl codec testnet compact_to_big sha256 wire hashes
                    (sort_shares fs)
                    st.chain)
                  rank)
          → (st' : Store F) × (load fl codec testnet compact_to_big sha256 wire hashes marshal
                unmarshal refused
                (some d)
                json
                st
              ≡ some st')
            × Restarted st'
      unfolding load load_trusted
      load-Restarted refused json st rank closed ranked =
          let r =
            read_all-loaded fl codec testnet compact_to_big sha256 wire hashes unmarshal d
              stop.distinct stopped-Readable in
          let fs = sort_shares r.0 in
          let sc1 = load_all fl codec testnet compact_to_big sha256 wire hashes fs st.chain in
          let built =
            recompute_work_and_tip-Whole fl sc1 rank
              (load_all-Distinct fs st.chain (rw (closed.shares) tt)) (ranked r.0 r.1) in
          let restored : (h : ℕ) → Restored h built.0 = λ h. entry-Restored h built.0 (
            (λ i. (lookup h (built.2 i), lookup h (built.3 i)))
            ∙ r.3 h st.chain
            ∙ ap
                (λ o.
                  loaded_entry fl codec testnet compact_to_big sha256 wire hashes unmarshal h d o)
                (λ i. (lookup h (closed.shares i), lookup h (closed.verified i)))) in
          let kept = λ (h : ℕ). Restored-kept h built.0 (restored h) in
          (
            record st { chain = built.0; db = some d },
            rw (load, closed.db, r.1, load_trusted, built.1) refl,
            record {
              db = refl;
              held = λ h. (kept h).0;
              verified = λ h. (kept h).1;
              synced = record {
                held = λ h seen. sym (kept h).1 ∙ seen;
                scoped = subst (Scoped marshal) (sym closed.batch) tt;
                stored = λ d1 at h clean.
                    let same : d ≡ d1 = ground (arith, at) in
                    subst
                      (λ x. coming marshal st.batch h (lookup h x) ≡ wanted_value marshal built.0 h)
                      same
                      (ap (λ b. coming marshal b h (lookup h d)) closed.batch
                        ∙ stop.exact h
                        ∙ sym (kept h).2);
              };
              whole = built.5;
            },
          )
