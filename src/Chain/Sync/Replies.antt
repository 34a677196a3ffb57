-- ===== src/Chain/Sync/Replies.antt =====
-- What a node sends for a request of shares.
use p2pool_go_vtc.Prelude.{
  ℕ, zero, suc, ◌+◌, ◌≤◌, ◌<◌, ◌≡◌, refl, inl, inr, false, not, some, List, [], ◌∷◌, ◌++◌, map,
  length, length-append, ltb, ◌==◌, ◌||◌, arith, Bool-cases, Option-cases, All, All-append, ap, sym,
  ◌∙◌,
}
use p2pool_go_vtc.Prelude.Int.{ℤ}
use p2pool_go_vtc.Prelude.Eq.{nat_Eq}
use p2pool_go_vtc.Prelude.Dict.{Dict, lookup}
use p2pool_go_vtc.Share.{Share, prev_of}
use p2pool_go_vtc.Chain.{ShareChain, is_root}
use p2pool_go_vtc.Chain.Sync.{
  max_share_reply, in_set, reply_walk, reply_all, reply_parents, get_shares_by_hash_with_parents,
}

-- No hash stands twice.
abbrev pub AllNew : List ℕ → Type 0
AllNew [] = Unit
AllNew (h ∷ hs) = (in_set h hs ≡ false) × AllNew hs

pub in_set-append : (h g : ℕ) (hs : List ℕ) → in_set h (hs ++ g ∷ []) ≡ (in_set h hs || (g == h))
in_set-append h g [] = ground arith
in_set-append h g (x ∷ hs) = ground (arith, in_set-append h g hs)

pub AllNew-append : (hs : List ℕ) (g : ℕ) → AllNew hs → in_set g hs ≡ false → AllNew (hs ++ g ∷ [])
AllNew-append [] g new apart = (refl, tt)
AllNew-append (x ∷ hs) g new apart =
    (ground (arith, in_set-append x g hs, new.0), AllNew-append hs g new.1 (ground arith))

map-append_one :
    {A B : Type 0} (f : A → B) (xs : List A) (x : A) → map f (xs ++ x ∷ []) ≡ map f xs ++ f x ∷ []
map-append_one f [] x = refl
map-append_one f (y ∷ xs) x = ap (λ l. f y ∷ l) (map-append_one f xs x)

module _ {F : Type 0} where
  -- A reply: at most 1000 different shares, each the one held under its hash, and none of them named
  -- as a stop.
  pub record Replied (shares : Dict ℕ (Share F)) (stops : List ℕ) (acc : List ℕ × List (Share F))
      : Type 0 where
    pub held : map (λ h. lookup h shares) acc.0 ≡ map some acc.1
    pub few : length acc.1 ≤ max_share_reply
    pub new : AllNew acc.0
    pub unstopped : All (λ h. in_set h stops ≡ false) acc.0

  add_reply-Replied :
      (shares : Dict ℕ (Share F)) (stops : List ℕ) (acc : List ℕ × List (Share F)) (h : ℕ)
      (s : Share F)
      → Replied shares stops acc
      → length acc.1 < max_share_reply
      → in_set h acc.0 ≡ false
      → in_set h stops ≡ false
      → lookup h shares ≡ some s
      → Replied shares stops (acc.0 ++ h ∷ [], acc.1 ++ s ∷ [])
  add_reply-Replied shares stops acc h s r room new unstopped held = record {
    held =
        map-append_one (λ g. lookup g shares) acc.0 h
        ∙ ap (λ l. l ++ lookup h shares ∷ []) r.held
        ∙ ap (λ o. map some acc.1 ++ o ∷ []) held
        ∙ sym (map-append_one some acc.1 s);
    few = omega (arith, length-append acc.1 (s ∷ []));
    new = AllNew-append acc.0 h r.new new;
    unstopped = All-append (λ g. in_set g stops ≡ false) acc.0 (h ∷ []) r.unstopped (unstopped, tt);
  }

  reply_walk-Replied :
      (shares : Dict ℕ (Share F)) (stops : List ℕ) (steps cur : ℕ) (acc : List ℕ × List (Share F))
      → Replied shares stops acc
      → Replied shares stops (reply_walk shares stops steps cur acc)
  unfolding reply_walk
  reply_walk-Replied shares stops zero cur acc r = r
  reply_walk-Replied shares stops (suc steps) cur acc r =
      elim (Bool-cases
        (not (ltb (length acc.1) max_share_reply) || in_set cur acc.0 || in_set cur stops)) [
          | inl ends ↦ rw ends r
          | inr goes ↦ elim (Option-cases (lookup cur shares)) [
            | inl missing ↦ rw (goes, missing) r
            | inr (s, held) ↦
                let r' =
                  add_reply-Replied shares stops acc cur s r (ground arith) (ground arith)
                    (ground arith) held in
                elim (Option-cases (prev_of s)) [
                  | inl first ↦ rw (goes, held, first) r'
                  | inr (p, more) ↦ elim (Bool-cases (is_root (some p))) [
                    | inl root ↦ rw (goes, held, more, root) r'
                    | inr below ↦
                        rw (goes, held, more, below) (reply_walk-Replied shares stops steps p _ r')
                  ]
                ]
          ]
        ]

  reply_all-Replied :
      (shares : Dict ℕ (Share F)) (stops : List ℕ) (parents : ℕ) (hs : List ℕ)
      (acc : List ℕ × List (Share F))
      → Replied shares stops acc
      → Replied shares stops (reply_all shares stops parents hs acc)
  unfolding reply_all
  reply_all-Replied shares stops parents [] acc r = r
  reply_all-Replied shares stops parents (h ∷ hs) acc r =
      reply_all-Replied shares stops parents hs _
        (reply_walk-Replied shares stops (parents + 1) h acc r)

  -- A reply to a request holds at most 1000 shares, all different, each the share held under its hash,
  -- and none of the hashes that the request names as stops.
  pub get_shares_by_hash_with_parents-Replied :
      (sc : ShareChain F) (hashes : List ℕ) (parents : ℤ) (stops : List ℕ)
      → Replied sc.shares stops (get_shares_by_hash_with_parents sc hashes parents stops)
  unfolding get_shares_by_hash_with_parents
  get_shares_by_hash_with_parents-Replied sc hashes parents stops =
      elim (Bool-cases (length hashes == 0)) [
        | inl nothing ↦ rw nothing start
        | inr something ↦ rw something (
            reply_all-Replied sc.shares stops (reply_parents parents (length hashes)) hashes
              ([], []) start)
      ]
    where
      start : Replied sc.shares stops ([], [])
      start = record { held = refl; few = omega arith; new = tt; unstopped = tt }
