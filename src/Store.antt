-- ===== src/Store.antt =====
-- The share store: `Commit`, `writeLocked` and `Load` of work/sharestore.go, and `loadTrusted` of
-- work/sharechain.go. The bucket of bbolt is a map from hashes to bytes, and its `Update` makes all of
-- its changes or none; `json.Marshal` and `json.Unmarshal` are parameters.
--
-- `Commit` lets the chain go while it writes: it is two parts here, with a batch between them.
pub mod Writes
pub mod Synced
pub mod Commits
pub mod Durable
pub mod Load
pub mod Loaded
pub mod Restart
mod Tests
use p2pool_go_vtc.Prelude.{
  ℕ, ◌+◌, ◌*◌, ◌^◌, Bool, true, false, ◌&&◌, not, Option, none, some, List, [], ◌∷◌, length, ltb,
  ◌==◌, if◌then◌else◌, ◌>>=◌,
}
use p2pool_go_vtc.Prelude.Bytes.{Bytes}
use p2pool_go_vtc.Prelude.Eq.{nat_Eq}
use p2pool_go_vtc.Prelude.Dict.{Dict, lookup, has, get_or, insert, erase}
use p2pool_go_vtc.Share.{Share}
use p2pool_go_vtc.Chain.{ShareChain}
use p2pool_go_vtc.Chain.Index.{is_verified}
use p2pool_go_vtc.Chain.Sync.{in_set}

-- `puts`, `dels` and `dirty` of a commit that is under way.
pub record Batch (F : Type 0) : Type 0 where
  pub puts : Dict ℕ (Share F)
  pub dels : List ℕ
  pub taken : Dict ℕ Bool

-- The chain, the open database and the commit under way, which holds `commitMu`.
pub record Store (F : Type 0) : Type 0 where
  pub chain : ShareChain F
  pub db : Option (Dict ℕ Bytes)
  pub batch : Option (Batch F)

-- `shareKey`: a string that is no hash has no key.
abbrev pub share_key : ℕ → Option ℕ
share_key h = if ltb h (2 ^ 256) then some h else none

-- `markDirtyLocked` on each hash of a batch.
unfoldable pub mark_all : Dict ℕ Bool → Dict ℕ Bool → Dict ℕ Bool
mark_all [] dirty = dirty
mark_all (e ∷ taken) dirty = mark_all taken (insert e.0 true dirty)

-- The transaction's two loops. The order of a map's loop is free.
unfoldable pub put_all : Dict ℕ Bytes → Dict ℕ Bytes → Dict ℕ Bytes
put_all [] d = d
put_all (e ∷ enc) d = insert e.0 e.1 (put_all enc d)

unfoldable pub delete_all : List ℕ → Dict ℕ Bytes → Option (Dict ℕ Bytes)
delete_all [] d = some d
delete_all (h ∷ dels) d =
    let rest = delete_all dels d in share_key h >>= λ k. rest >>= λ d'. some (erase k d')

module _ {F : Type 0} where
  -- The loop of `Commit` over the dirty hashes.
  unfoldable pub split_dirty : ShareChain F → Dict ℕ Bool → Batch F
  split_dirty sc [] = record { puts = []; dels = []; taken = [] }
  split_dirty sc (e ∷ dirty) =
      let rest = split_dirty sc dirty in
      let without = record rest { dels = e.0 ∷ rest.dels; taken = e ∷ rest.taken } in
      elim (lookup e.0 sc.shares) [
        | none ↦ without
        | some s ↦ elim (is_verified sc e.0) [
          | true ↦ record rest { puts = (e.0, s) ∷ rest.puts; taken = e ∷ rest.taken }
          | false ↦ without
        ]
      ]

  -- `Commit` up to the write. `none` is an error; with nothing to write there is no batch.
  unfoldable pub begin_commit : Store F → Option (Store F)
  begin_commit st = elim st.db [
    | none ↦ none
    | some d ↦
        if length st.chain.dirty == 0
        then some st
        else some (record st {
          chain = record st.chain { dirty = [] };
          batch = some (split_dirty st.chain st.chain.dirty);
        })
  ]

  module _ (marshal : Share F → Option Bytes) where
    -- The first loop of `writeLocked`.
    unfoldable pub encode_all : Dict ℕ (Share F) → Option (Dict ℕ Bytes)
    encode_all [] = some []
    encode_all (e ∷ puts) =
        let rest = encode_all puts in
        share_key e.0 >>= λ k. marshal e.1 >>= λ v. rest >>= λ enc. some ((k, v) ∷ enc)

    -- `writeLocked`; the database itself may refuse the transaction.
    unfoldable pub write : Bool → Batch F → Dict ℕ Bytes → Option (Dict ℕ Bytes)
    write refused b d =
        encode_all b.puts >>= λ enc. if refused then none else delete_all b.dels (put_all enc d)

    -- `Commit` from the write on: the store, and whether there was no error.
    unfoldable pub end_commit : Bool → Store F → Store F × Bool
    end_commit refused st = elim st.batch [
      | none ↦ (st, true)
      | some b ↦ elim st.db [
        | none ↦ (st, true)
        | some d ↦ elim (write refused b d) [
          | some d' ↦ (record st { db = some d'; batch = none }, true)
          | none ↦ (
            record st {
              chain = record st.chain { dirty = mark_all b.taken st.chain.dirty };
              batch = none;
            },
            false,
          )
        ]
      ]
    ]

    -- `Commit` with nothing between its parts.
    unfoldable pub commit : Bool → Store F → Store F × Bool
    commit refused st = elim (begin_commit st) [
      | none ↦ (st, false)
      | some st' ↦ end_commit refused st'
    ]

    -- What the store should hold for a hash: a held, verified share.
    unfoldable pub wanted_value : ShareChain F → ℕ → Option Bytes
    wanted_value sc h = elim (lookup h sc.shares) [
      | none ↦ none
      | some s ↦ elim (is_verified sc h) [ true ↦ marshal s | false ↦ none ]
    ]

    -- What a batch makes of an entry.
    unfoldable pub batch_value : Batch F → ℕ → Option Bytes → Option Bytes
    batch_value b h v = elim (in_set h b.dels) [
      | true ↦ none
      | false ↦ elim (lookup h b.puts) [ none ↦ v | some s ↦ marshal s ]
    ]
