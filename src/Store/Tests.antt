-- ===== src/Store/Tests.antt =====
-- The theorems on the store, at three shares of which two are verified.
use p2pool_go_vtc.Prelude.{
  ℕ, ◌+◌, ◌-◌, ◌*◌, ◌≡◌, refl, sym, true, false, Option, none, some, List, [], ◌∷◌, arith, subst,
  ap,
}
use p2pool_go_vtc.Prelude.Bytes.{Bytes}
use p2pool_go_vtc.Prelude.Eq.{nat_Eq}
use p2pool_go_vtc.Prelude.Dict.{Dict, lookup}
use p2pool_go_vtc.Env.{HeaderHash}
use p2pool_go_vtc.Share.{Share, get_prev_key}
use p2pool_go_vtc.Chain.{ShareChain}
use p2pool_go_vtc.Chain.Index.Consistent.{Ranked}
use p2pool_go_vtc.Chain.Work.{mark_verified}
use p2pool_go_vtc.Store.{Store, split_dirty, begin_commit, commit, end_commit, wanted_value}
use p2pool_go_vtc.Store.Synced.{Synced}
use p2pool_go_vtc.Store.Commits.{Steps, here, next, begins, ends, verifies, Steps-Synced}
use p2pool_go_vtc.Store.Durable.{Landed, Refused, commit-Landed, commit-Refused}
use p2pool_go_vtc.Store.Load.{sort_shares, read_all, load_all, load}
use p2pool_go_vtc.Store.Restart.{RoundTrips, Stopped, Closed, Restarted, load-Restarted}
use p2pool_go_vtc.Sample.{
  milli, plain_codec, plain_wire, first_32, easy_bits, share, trio, chain_of,
}
use p2pool_go_vtc.Sample.Whole.{All-lookup, All-Ranked, same_some}

-- A share is written as its hash, and read as the share on the hash before.
abbrev marshal : Share ℕ → Option Bytes
marshal s = elim s.hash [ none ↦ none | some h ↦ some (h ∷ []) ]

abbrev unmarshal : Bytes → Option (Share ℕ)
unmarshal [] = none
unmarshal (h ∷ b) = some (share h (h - 1) 0 (1000 + 10 * h))

abbrev two_verified : ShareChain ℕ
two_verified = record trio {
  verified = (1, true) ∷ (2, true) ∷ [];
  dirty = (1, true) ∷ (2, true) ∷ [];
}

-- The database is still empty.
abbrev opened : Store ℕ
opened = record { chain = two_verified; db = some []; batch = none }

opened-Synced : Synced marshal opened
unfolding wanted_value
opened-Synced = record {
  held = λ h seen. ground (arith, seen);
  scoped = tt;
  stored = λ d at h clean.
      subst (λ x. lookup h x ≡ wanted_value marshal two_verified h) (same_some at)
        (ground (arith, clean));
}

-- The commit has begun.
abbrev writing : Store ℕ
writing = record opened {
  chain = record two_verified { dirty = [] };
  batch = some (split_dirty two_verified two_verified.dirty);
}

-- Meanwhile the third share is verified, which is held.
abbrev third_verified : Store ℕ
third_verified = record writing { chain = mark_verified milli 3 writing.chain }

refused_steps :
    Steps milli plain_codec false easy_bits first_32 plain_wire marshal opened
      (end_commit marshal true third_verified).0
unfolding begin_commit
refused_steps = next (next (next here (begins refl refl)) (verifies 3)) (ends true)

Steps-Synced_example : Synced marshal (end_commit marshal true third_verified).0
unfolding refused_steps
Steps-Synced_example =
    Steps-Synced milli plain_codec false easy_bits first_32 plain_wire marshal refused_steps
      (((tt, tt), refl), tt) opened-Synced

commit_succeeds : (commit marshal false opened).1 ≡ true
unfolding commit begin_commit end_commit p2pool_go_vtc.Store.write p2pool_go_vtc.Store.encode_all
    split_dirty p2pool_go_vtc.Store.delete_all
commit_succeeds = refl

commit_fails : (commit marshal true opened).1 ≡ false
unfolding commit begin_commit end_commit p2pool_go_vtc.Store.write p2pool_go_vtc.Store.encode_all
    split_dirty
commit_fails = refl

commit-Landed_example : Landed marshal opened (commit marshal false opened).0
commit-Landed_example = commit-Landed marshal false opened refl opened-Synced commit_succeeds

commit-Refused_example : Refused marshal opened (commit marshal true opened).0
commit-Refused_example = commit-Refused marshal true opened refl commit_fails

abbrev header_hash : HeaderHash
header_hash = record { block_hash = λ h. 9; serialize = λ h. none; verthash = λ b. none }

round_trips :
    RoundTrips milli plain_codec false easy_bits first_32 plain_wire header_hash marshal unmarshal
unfolding p2pool_go_vtc.Share.Owner.decode_share_address
round_trips h s v at own =
    let written : h ∷ [] ≡ v = ground (arith, at, own) in
    (share h (h - 1) 0 (1000 + 10 * h), ap unmarshal (sym written), refl, ap some written)

abbrev saved : Dict ℕ Bytes
saved = (2, 2 ∷ []) ∷ (1, 1 ∷ []) ∷ []

own_hash : (h : ℕ) (s : Share ℕ) → lookup h trio.shares ≡ some s → s.hash ≡ some h
own_hash h s at = All-lookup (λ y t. t.hash ≡ some y) trio.shares h s (refl, (refl, (refl, tt))) at

saved-Stopped :
    Stopped milli plain_codec false easy_bits first_32 plain_wire header_hash marshal unmarshal
      two_verified saved
unfolding wanted_value
saved-Stopped = record {
  exact = λ h. ground arith;
  keyed = own_hash;
  written = λ h s at. (h ∷ [], ground (arith, own_hash h s at));
  distinct = (refl, (refl, tt));
}

abbrev starting : Store ℕ
starting = record { chain = chain_of [] none; db = none; batch = none }

starting-Closed :
    Closed milli plain_codec false easy_bits first_32 plain_wire header_hash marshal unmarshal
      round_trips two_verified saved saved-Stopped starting
starting-Closed = record { db = refl; batch = refl; shares = refl; verified = refl }

-- The two shares that are read.
abbrev restored : List (Share ℕ)
restored = share 2 1 0 1020 ∷ share 1 0 0 1010 ∷ []

restored-Ranked :
    Ranked milli
      (load_all milli plain_codec false easy_bits first_32 plain_wire header_hash
        (sort_shares restored)
        starting.chain)
      (λ x. x)
unfolding load_all sort_shares p2pool_go_vtc.Store.Load.insert_share
    p2pool_go_vtc.Share.Owner.decode_share_address get_prev_key
restored-Ranked x p s t at up there =
    All-Ranked
      (load_all milli plain_codec false easy_bits first_32 plain_wire header_hash
        (sort_shares restored) starting.chain).shares
      x p s (λ q e. ground (arith, e), (λ q e. ground (arith, e), tt)) at up

read-Ranked :
    (fs : List (Share ℕ))
    → read_all unmarshal saved ≡ some fs
    → Ranked milli
        (load_all milli plain_codec false easy_bits first_32 plain_wire header_hash
          (sort_shares fs)
          starting.chain)
        (λ x. x)
unfolding read_all
read-Ranked fs e =
    subst
      (λ l.
        Ranked milli
          (load_all milli plain_codec false easy_bits first_32 plain_wire header_hash
            (sort_shares l) starting.chain)
          (λ x. x))
      (same_some e) restored-Ranked

load-Restarted_example :
    (st' : Store ℕ) × (load milli plain_codec false easy_bits first_32 plain_wire header_hash
        marshal unmarshal false
        (some saved)
        none
        starting
      ≡ some st')
    × Restarted milli plain_codec false easy_bits first_32 plain_wire header_hash marshal unmarshal
        round_trips two_verified saved saved-Stopped st'
load-Restarted_example =
    load-Restarted milli plain_codec false easy_bits first_32 plain_wire header_hash marshal
      unmarshal round_trips two_verified saved saved-Stopped false none starting (λ x. x)
      starting-Closed read-Ranked
