-- ===== src/Store/Loaded.antt =====
-- What the chain holds after the store was opened.
use p2pool_go_vtc.Prelude.{
  ℕ, ◌≡◌, refl, Bool, true, false, Option, none, some, List, [], ◌∷◌, ◌==◌, ==_iff, ◌||◌,
  if◌then◌else◌, Bool-cases, Option-cases, inl, inr, arith, ap, sym, subst, ◌∙◌,
}
use p2pool_go_vtc.Prelude.Int.{ℤ, ltb_ℤ}
use p2pool_go_vtc.Prelude.Bytes.{Bytes}
use p2pool_go_vtc.Prelude.Eq.{nat_Eq}
use p2pool_go_vtc.Prelude.Dict.{Dict, lookup, has, insert, lookup-insert, Distinct}
use p2pool_go_vtc.Env.{Float64, Codec, Wire, HeaderHash}
use p2pool_go_vtc.Share.{Share, time_of}
use p2pool_go_vtc.Chain.{ShareChain}
use p2pool_go_vtc.Store.Load.{insert_share, sort_shares, read_all, hashed, copy_of, load_all}

module _ (fl : Float64) (codec : Codec) (testnet : Bool) (compact_to_big : ℕ → ℤ)
    (sha256 : Bytes → Bytes) (wire : Wire) (hashes : HeaderHash) where
  open fl use {F}

  abbrev key_of : Share F → Option ℕ
  key_of s = (hashed fl codec testnet compact_to_big sha256 wire hashes s).hash

  abbrev copy : Share F → Share F
  copy s = copy_of fl codec testnet compact_to_big sha256 wire hashes s

  abbrev loaded : List (Share F) → ShareChain F → ShareChain F
  loaded fs sc = load_all fl codec testnet compact_to_big sha256 wire hashes fs sc

  -- Does a share of the list have the hash?
  abbrev names : ℕ → List (Share F) → Bool
  names h [] = false
  names h (s ∷ ss) = (elim (key_of s) [ none ↦ false | some k ↦ k == h ]) || names h ss

  -- The entries of a chain for a hash.
  abbrev entry : ℕ → ShareChain F → Option (Share F) × Option Bool
  entry h sc = (lookup h sc.shares, lookup h sc.verified)

  abbrev put : ℕ → Share F → ShareChain F → ShareChain F
  put k s sc = record sc {
    shares = insert k (copy s) sc.shares;
    verified = insert k true sc.verified;
  }

  entry-put :
      (h k : ℕ) (s : Share F) (sc : ShareChain F)
      → entry h (put k s sc) ≡ (if k == h then (some (copy s), some true) else entry h sc)
  entry-put h k s sc = elim (Bool-cases (k == h)) [
    | inl same ↦
        let share : lookup h (insert k (copy s) sc.shares) ≡ some (copy s) =
          ground (arith, same, lookup-insert k h (copy s) sc.shares) in
        let seen : lookup h (insert k true sc.verified) ≡ some true =
          ground (arith, same, lookup-insert k h true sc.verified) in
        rw same (λ i. (share i, seen i))
    | inr other ↦
        let share : lookup h (insert k (copy s) sc.shares) ≡ lookup h sc.shares =
          ground (arith, other, lookup-insert k h (copy s) sc.shares) in
        let seen : lookup h (insert k true sc.verified) ≡ lookup h sc.verified =
          ground (arith, other, lookup-insert k h true sc.verified) in
        rw other (λ i. (share i, seen i))
  ]

  -- Loading rests on the entries alone.
  entry-loaded :
      (h : ℕ) (fs : List (Share F)) (sc sc' : ShareChain F)
      → entry h sc ≡ entry h sc'
      → entry h (loaded fs sc) ≡ entry h (loaded fs sc')
  unfolding load_all
  entry-loaded h [] sc sc' e = e
  entry-loaded h (s ∷ fs) sc sc' e = elim (Option-cases (key_of s)) [
    | inl none' ↦ rw (load_all, none') (entry-loaded h fs sc sc' e)
    | inr (k, at) ↦
        rw (load_all, at)
          (entry-loaded h fs (put k s sc) (put k s sc') (
            entry-put h k s sc
            ∙ ap (λ r. if k == h then (some (copy s), some true) else r) e
            ∙ sym (entry-put h k s sc')))
  ]

  entry-unnamed :
      (h : ℕ) (fs : List (Share F)) (sc : ShareChain F)
      → names h fs ≡ false
      → entry h (loaded fs sc) ≡ entry h sc
  unfolding load_all
  entry-unnamed h [] sc out = refl
  entry-unnamed h (s ∷ fs) sc out = elim (Option-cases (key_of s)) [
    | inl none' ↦ rw (load_all, none') (entry-unnamed h fs sc (ground (arith, out)))
    | inr (k, at) ↦
        let other : k == h ≡ false = ground (arith, out, at) in
        rw (load_all, at)
          (entry-unnamed h fs (put k s sc) (ground (arith, out))
            ∙ entry-put h k s sc
            ∙ rw other refl)
  ]

  entry-fresh :
      (h k : ℕ) (s : Share F) (fs : List (Share F)) (sc : ShareChain F)
      → names k fs ≡ false
      → entry h (loaded fs (put k s sc))
        ≡ (if k == h then (some (copy s), some true) else entry h (loaded fs sc))
  entry-fresh h k s fs sc out = elim (Bool-cases (k == h)) [
    | inl same ↦
        entry-unnamed h fs (put k s sc) (subst (λ y. names y fs ≡ false) ((==_iff k h).0 same) out)
        ∙ entry-put h k s sc
        ∙ rw same refl
    | inr other ↦
        entry-loaded h fs (put k s sc) sc (entry-put h k s sc ∙ rw other refl) ∙ rw other refl
  ]

  -- A share with a hash of its own may be loaded at any place.
  entry-insert_share :
      (h k : ℕ) (s : Share F) (fs : List (Share F)) (sc : ShareChain F)
      → key_of s ≡ some k
      → names k fs ≡ false
      → entry h (loaded (insert_share s fs) sc)
        ≡ (if k == h then (some (copy s), some true) else entry h (loaded fs sc))
  unfolding insert_share load_all
  entry-insert_share h k s [] sc at out = rw (load_all, at) (entry-put h k s sc)
  entry-insert_share h k s (t ∷ fs) sc at out = elim (Bool-cases (ltb_ℤ (time_of t) (time_of s))) [
    | inr first ↦ rw (insert_share, first, load_all, at) (entry-fresh h k s (t ∷ fs) sc out)
    | inl later ↦ elim (Option-cases (key_of t)) [
      | inl none' ↦
          rw (insert_share, later, load_all, none')
            (entry-insert_share h k s fs sc at (ground (arith, out)))
      | inr (j, there) ↦
          rw (insert_share, later, load_all, there)
            (entry-insert_share h k s fs (put j t sc) at (ground (arith, out)))
    ]
  ]

  names-insert_share :
      (h : ℕ) (s : Share F) (fs : List (Share F)) → names h (insert_share s fs) ≡ names h (s ∷ fs)
  unfolding insert_share
  names-insert_share h s [] = refl
  names-insert_share h s (t ∷ fs) = elim (Bool-cases (ltb_ℤ (time_of t) (time_of s))) [
    | inr first ↦ rw (insert_share, first) refl
    | inl later ↦ rw (insert_share, later) (ground (arith, names-insert_share h s fs))
  ]

  module _ (unmarshal : Bytes → Option (Share F)) where
    -- Every entry of the file holds a share under its hash.
    abbrev pub Readable : Dict ℕ Bytes → Type 0
    Readable d =
        (h : ℕ) (v : Bytes)
        → lookup h d ≡ some v
        → (s : Share F) × (unmarshal v ≡ some s) × (key_of s ≡ some h)

    -- What the chain holds for an entry of the file.
    abbrev pub loaded_entry :
        ℕ → Dict ℕ Bytes → Option (Share F) × Option Bool → Option (Share F) × Option Bool
    loaded_entry h d old = elim (lookup h d) [
      | none ↦ old
      | some v ↦ elim (unmarshal v) [ none ↦ old | some s ↦ (some (copy s), some true) ]
    ]

    Readable-rest :
        (e : ℕ × Bytes) (d : Dict ℕ Bytes) → Distinct (e ∷ d) → Readable (e ∷ d) → Readable d
    Readable-rest e d distinct readable h v at = elim (Bool-cases (e.0 == h)) [
      | inl same ↦
          absurd (ground (arith, at, distinct.0, ap (λ y. lookup y d) ((==_iff e.0 h).0 same)))
      | inr other ↦ readable h v (ground (arith, at, other))
    ]

    pub read_all-loaded :
        (d : Dict ℕ Bytes)
        → Distinct d
        → Readable d
        → (fs : List (Share F)) × (read_all unmarshal d ≡ some fs)
          × ((h : ℕ) → names h (sort_shares fs) ≡ has h d)
          × ((h : ℕ) (sc : ShareChain F)
              → entry h (loaded (sort_shares fs) sc) ≡ loaded_entry h d (entry h sc))
    unfolding read_all sort_shares load_all
    read_all-loaded [] distinct readable = ([], refl, λ h. refl, λ h sc. refl)
    read_all-loaded (e ∷ d) distinct readable =
        let s = readable e.0 e.1 (ground (arith, ==_iff e.0 e.0)) in
        let rest = read_all-loaded d distinct.1 (Readable-rest e d distinct readable) in
        (
          s.0 ∷ rest.0,
          rw (read_all, s.1, rest.1) refl,
          λ h. names-insert_share h s.0 (sort_shares rest.0) ∙ ground (arith, s.2, rest.2 h),
          λ h sc.
              entry-insert_share h e.0 s.0 (sort_shares rest.0) sc s.2
                (rest.2 e.0 ∙ ground (arith, distinct.0))
              ∙ elim (Bool-cases (e.0 == h)) [
                | inl same ↦ rw (loaded_entry, same, s.1) refl
                | inr other ↦ rw (loaded_entry, other) (rest.3 h sc)
              ],
        )
