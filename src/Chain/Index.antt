-- ===== src/Chain/Index.antt =====
-- The children index and the cumulative work of the share chain: `linkLocked`, `unlinkShareLocked`,
-- `updateWorkLocked` and `isTipCandidateLocked` of work/sharechain.go.
pub mod Unlink
pub mod Sets
pub mod Descend
pub mod Indexed
pub mod Works
pub mod Roots
pub mod Visits
pub mod Updated
pub mod Consistent
use p2pool_go_vtc.Prelude.{
  ℕ, zero, suc, ◌+◌, ◌*◌, Bool, true, false, ◌&&◌, ◌||◌, not, Option, none, some, List, [], ◌∷◌,
  ◌++◌, map, length, ltb, leb, ◌==◌, if◌then◌else◌, any, filter, ◌>>=◌,
}
use p2pool_go_vtc.Prelude.Eq.{nat_Eq}
use p2pool_go_vtc.Prelude.Dict.{Dict, lookup, has, get_or, insert, erase, keys}
use p2pool_go_vtc.Env.{Float64}
use p2pool_go_vtc.Share.{Share, get_prev_key, get_target_diff, prev_of, is_live}
use p2pool_go_vtc.Share.Check.{min_pool_share_diff}
use p2pool_go_vtc.Chain.{ShareChain, next_key, at_least}
use p2pool_go_vtc.Chain.Sync.{in_set}

-- The last of a list, in front of the others.
abbrev pub move_last : List ℕ → List ℕ
move_last [] = []
move_last (c ∷ cs) = elim (move_last cs) [ [] ↦ c ∷ [] | l ∷ rest ↦ l ∷ c ∷ rest ]

-- Takes one occurrence of `h` out: the last child takes its place.
abbrev pub remove_child : ℕ → List ℕ → List ℕ
remove_child h [] = []
remove_child h (c ∷ cs) = if c == h then move_last cs else c ∷ remove_child h cs

-- The shares of `cs` that are not in a set, each once.
abbrev pub fresh_of : List ℕ → List ℕ → List ℕ
fresh_of known [] = []
fresh_of known (c ∷ cs) = elim (in_set c known) [
  | true ↦ fresh_of known cs
  | false ↦ c ∷ fresh_of (c ∷ known) cs
]

-- The loop over `all` of `updateWorkLocked`: `todo` are the entries not yet passed.
unfoldable pub descend : Dict ℕ (List ℕ) → ℕ → List ℕ → List ℕ → Option (List ℕ)
descend children fuel [] all = some all
descend children zero (h ∷ todo) all = none
descend children (suc fuel) (h ∷ todo) all =
    let new = fresh_of all (get_or [] h children) in
    descend children fuel (todo ++ new) (all ++ new)

-- The lengths of all children lists together.
unfoldable pub child_count : Dict ℕ (List ℕ) → ℕ
child_count [] = 0
child_count (e ∷ children) = length e.1 + child_count children

module _ {F : Type 0} where
  -- `sc.verified[h]`
  abbrev pub is_verified : ShareChain F → ℕ → Bool
  is_verified sc h = get_or false h sc.verified

  abbrev pub children_of : ShareChain F → ℕ → List ℕ
  children_of sc h = get_or [] h sc.children

  -- `linkLocked`
  unfoldable pub link : ℕ → Share F → ShareChain F → ShareChain F
  link h sh sc = elim (next_key sh) [
    | none ↦ sc
    | some p ↦ record sc { children = insert p (children_of sc p ++ h ∷ []) sc.children }
  ]

  -- `isTipCandidateLocked`
  unfoldable pub is_tip_candidate : ShareChain F → ℕ → Bool
  is_tip_candidate sc h = elim (lookup h sc.shares) [
    | none ↦ false
    | some sh ↦ elim sh.hash [ none ↦ false | some x ↦ is_verified sc h && is_live sh ]
  ]

  -- The index without a share of a parent.
  unfoldable pub unlink_child : ℕ → Option ℕ → ShareChain F → Dict ℕ (List ℕ)
  unlink_child h none sc = sc.children
  unlink_child h (some p) sc = elim (remove_child h (children_of sc p)) [
    | [] ↦ erase p sc.children
    | c ∷ cs ↦ insert p (c ∷ cs) sc.children
  ]

  -- `unlinkShareLocked`: was the share a tip candidate, and the chain without it.
  unfoldable pub unlink_share : ℕ → ShareChain F → Bool × ShareChain F
  unlink_share h sc = elim (lookup h sc.shares) [
    | none ↦ (false, sc)
    | some sh ↦ (
      is_tip_candidate sc h,
      record sc {
        children = unlink_child h (next_key sh) sc;
        shares = erase h sc.shares;
        verified = erase h sc.verified;
        received = erase h sc.received;
        cum_work = erase h sc.cum_work;
        chain_len = erase h sc.chain_len;
        dirty = insert h true sc.dirty;
      },
    )
  ]

  -- The first loop of `updateWorkLocked`.
  unfoldable pub held_once : ShareChain F → List ℕ → List ℕ
  held_once sc hs = fresh_of [] (filter (λ h. has h sc.shares) hs)

  -- The shares to update whose parent is not updated. `none` is a nil dereference.
  unfoldable pub roots_of : ShareChain F → List ℕ → List ℕ → Option (List ℕ)
  roots_of sc all [] = some []
  roots_of sc all (h ∷ hs) = elim (lookup h sc.shares) [
    | none ↦ none
    | some sh ↦ elim (roots_of sc all hs) [
      | none ↦ none
      | some qs ↦ elim (next_key sh) [
        | none ↦ some (h ∷ qs)
        | some p ↦ elim (in_set p all) [ true ↦ some qs | false ↦ some (h ∷ qs) ]
      ]
    ]
  ]

module _ (fl : Float64) where
  open fl use {F, fadd, lit}

  -- The work of the held parent, and the length of its chain.
  unfoldable pub parent_work : ShareChain F → Share F → F × ℕ
  parent_work sc sh = elim (next_key sh) [
    | none ↦ (lit 0 1, 0)
    | some p ↦ elim (lookup p sc.shares) [
      | none ↦ (lit 0 1, 0)
      | some ps ↦ (get_or (lit 0 1) p sc.cum_work, get_or 0 p sc.chain_len)
    ]
  ]

  -- What a share adds.
  unfoldable pub own_work : Share F → F × ℕ
  own_work sh = elim (is_live sh) [
    | true ↦ (at_least fl (min_pool_share_diff fl) (get_target_diff fl sh).0, 1)
    | false ↦ (lit 0 1, 0)
  ]

  -- `sc.cumWork[h], sc.chainLen[h] = pw+d, pl+inc`
  unfoldable pub set_work : ℕ → Share F → ShareChain F → ShareChain F
  set_work h sh sc = record sc {
    cum_work = insert h (fadd (parent_work sc sh).0 (own_work sh).0) sc.cum_work;
    chain_len = insert h ((parent_work sc sh).1 + (own_work sh).1) sc.chain_len;
  }

  -- The loop over `q`. `none` is a nil dereference, or no fuel.
  unfoldable pub work_loop : ℕ → List ℕ → ShareChain F → Option (ShareChain F)
  work_loop fuel [] sc = some sc
  work_loop zero (h ∷ q) sc = none
  work_loop (suc fuel) (h ∷ q) sc = elim (lookup h sc.shares) [
    | none ↦ none
    | some sh ↦ work_loop fuel (q ++ children_of sc h) (set_work h sh sc)
  ]

  -- `updateWorkLocked`: the shares that it updated, and the chain. A share is passed once for each
  -- place where it stands in `hs` or in the index.
  unfoldable pub update_work : List ℕ → ShareChain F → Option (List ℕ × ShareChain F)
  update_work hs sc =
      let fuel = length hs + child_count sc.children + 1 in
      elim (descend sc.children fuel (held_once sc hs) (held_once sc hs)) [
        | none ↦ none
        | some all ↦ elim (roots_of sc all all) [
          | none ↦ none
          | some q ↦ elim (work_loop (length all + child_count sc.children) q sc) [
            | none ↦ none
            | some sc' ↦ some (all, sc')
          ]
        ]
      ]
