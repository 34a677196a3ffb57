-- ===== src/Store/Load.antt =====
-- Opening the store: `load` and `migrateJSONLocked` of work/sharestore.go, and `loadTrusted` of
-- work/sharechain.go. What bbolt and the file system refuse is left out, but for the transaction.
use p2pool_go_vtc.Prelude.{ℕ, Bool, true, false, Option, none, some, List, [], ◌∷◌, ◌>>=◌}
use p2pool_go_vtc.Prelude.Int.{ℤ, ltb_ℤ}
use p2pool_go_vtc.Prelude.Bytes.{Bytes}
use p2pool_go_vtc.Prelude.Eq.{nat_Eq}
use p2pool_go_vtc.Prelude.Dict.{Dict, insert}
use p2pool_go_vtc.Env.{Float64, Codec, Wire, HeaderHash}
use p2pool_go_vtc.Share.{Share, time_of}
use p2pool_go_vtc.Share.Owner.{decode_share_address}
use p2pool_go_vtc.Chain.{ShareChain}
use p2pool_go_vtc.Chain.Work.{recompute_work_and_tip}
use p2pool_go_vtc.Consensus.{with_hash}
use p2pool_go_vtc.Store.{Store, write}

module _ {F : Type 0} where
  -- `sort.Slice` of shares by their times.
  unfoldable pub insert_share : Share F → List (Share F) → List (Share F)
  insert_share s [] = s ∷ []
  insert_share s (t ∷ ts) =
      let rest = insert_share s ts in
      elim (ltb_ℤ (time_of t) (time_of s)) [ true ↦ t ∷ rest | false ↦ s ∷ t ∷ ts ]

  unfoldable pub sort_shares : List (Share F) → List (Share F)
  sort_shares [] = []
  sort_shares (s ∷ ss) = insert_share s (sort_shares ss)

  -- The loop over the bucket.
  unfoldable pub read_all : (Bytes → Option (Share F)) → Dict ℕ Bytes → Option (List (Share F))
  read_all unmarshal [] = some []
  read_all unmarshal (e ∷ d) =
      let rest = read_all unmarshal d in unmarshal e.1 >>= λ s. rest >>= λ ss. some (s ∷ ss)

module _ (fl : Float64) (codec : Codec) (testnet : Bool) (compact_to_big : ℕ → ℤ)
    (sha256 : Bytes → Bytes) (wire : Wire) (hashes : HeaderHash) where
  open fl use {F}

  abbrev pub hashed : Share F → Share F
  hashed s = with_hash fl codec testnet compact_to_big sha256 wire hashes s

  -- The copy that the chain holds.
  abbrev pub copy_of : Share F → Share F
  copy_of s =
      let decoded = decode_share_address codec testnet (hashed s) in
      record decoded.1 { decoded_addr = decoded.0 }

  -- The loop of `loadTrusted`.
  unfoldable pub load_all : List (Share F) → ShareChain F → ShareChain F
  load_all [] sc = sc
  load_all (s ∷ ss) sc = elim (hashed s).hash [
    | none ↦ load_all ss sc
    | some h ↦ load_all ss (record sc {
      shares = insert h (copy_of s) sc.shares;
      verified = insert h true sc.verified;
    })
  ]

  -- `loadTrusted`
  unfoldable pub load_trusted : List (Share F) → ShareChain F → Option (ShareChain F)
  load_trusted fs sc = recompute_work_and_tip fl (load_all fs sc)

  -- The shares of sharechain.json by their hashes, in `migrateJSONLocked`.
  unfoldable pub migrate_puts : List (Share F) → Dict ℕ (Share F) → Dict ℕ (Share F)
  migrate_puts [] puts = puts
  migrate_puts (s ∷ ss) puts = elim (hashed s).hash [
    | none ↦ migrate_puts ss puts
    | some h ↦ migrate_puts ss (insert h (hashed s) puts)
  ]

  module _ (marshal : Share F → Option Bytes) (unmarshal : Bytes → Option (Share F)) where
    -- `migrateJSONLocked`, on the shares of the file, or on none where there is no file.
    unfoldable pub migrate_json : Bool → Option (List (Share F)) → Option (Dict ℕ Bytes)
    migrate_json refused none = some []
    migrate_json refused (some fs) =
        write marshal refused (record { puts = migrate_puts fs []; dels = []; taken = [] }) []

    -- `load`: with what the database file holds, or, where it is fresh, with the old shares.
    unfoldable pub load :
        Bool → Option (Dict ℕ Bytes) → Option (List (Share F)) → Store F → Option (Store F)
    load refused file old st = elim st.db [
      | some d ↦ none
      | none ↦ (elim file [ some d ↦ some d | none ↦ migrate_json refused old ]) >>= λ d.
          read_all unmarshal d >>= λ fs. load_trusted (sort_shares fs) st.chain >>= λ sc.
          some (record st { chain = sc; db = some d })
    ]
