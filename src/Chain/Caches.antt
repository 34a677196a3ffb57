-- ===== src/Chain/Caches.antt =====
-- What the reads that fill the caches in a share return and leave: `getPrevKey`, `getTargetDiff` and
-- `GetEffectiveShareDiff` of work/sharechain.go.
use p2pool_go_vtc.Prelude.{◌≡◌, ◌⊎◌, true, ◌||◌, none, if◌then◌else◌, arith}
use p2pool_go_vtc.Env.{Float64}
use p2pool_go_vtc.Share.{Share, get_prev_key, get_target_diff, no_target, target_to_diff, prev_of}
use p2pool_go_vtc.Chain.{misses, get_effective_share_diff}

module _ (fl : Float64) where
  open fl use {F, flt, fle, lit}

  -- The difficulty that the target says.
  pub plain_target_diff : Share F → F
  plain_target_diff s = if no_target fl s then lit 0 1 else target_to_diff fl s.target

  -- The credit that the target and the PoW hash say.
  pub plain_effective_diff : Share F → F
  unfolding plain_target_diff
  plain_effective_diff s =
      let td = plain_target_diff s in
      if no_target fl s || fle td (lit 0 1) || misses fl s.pow_hash td
      then lit 0 1
      else if flt (lit 16 1) td
      then lit 16 1
      else td

  -- Every filled cache holds what it stands for.
  pub record Coherent (s : Share F) : Type 0 where
    pub key : (s.prev_key ≡ none) ⊎ (s.prev_key ≡ prev_of s)
    pub diff : flt (lit 0 1) s.target_diff ≡ true → s.target_diff ≡ target_to_diff fl s.target
    pub credit : s.eff_diff_ready ≡ true → s.eff_diff ≡ plain_effective_diff s

  -- Where the filled caches of a share agree with its fields, getPrevKey returns the parent's
  -- hash, and the caches that it leaves agree too.
  pub get_prev_key-Coherent :
      (s : Share F) → Coherent s → ((get_prev_key s).0 ≡ prev_of s) × Coherent (get_prev_key s).1
  unfolding get_prev_key plain_effective_diff
  get_prev_key-Coherent s c = ground arith

  -- Where the filled caches agree with the fields, getTargetDiff returns the difficulty of the
  -- target, and the caches that it leaves agree too.
  pub get_target_diff-Coherent :
      (s : Share F)
      → Coherent s
      → ((get_target_diff fl s).0 ≡ plain_target_diff s) × Coherent (get_target_diff fl s).1
  unfolding get_target_diff plain_target_diff plain_effective_diff
  get_target_diff-Coherent s c = ground arith

  -- Where the filled caches agree with the fields, GetEffectiveShareDiff returns the credit that
  -- the target and the PoW hash give, and the caches that it leaves agree too.
  pub get_effective_share_diff-Coherent :
      (s : Share F)
      → Coherent s
      → ((get_effective_share_diff fl s).0 ≡ plain_effective_diff s)
        × Coherent (get_effective_share_diff fl s).1
  unfolding get_effective_share_diff get_target_diff plain_target_diff plain_effective_diff
  get_effective_share_diff-Coherent s c = ground arith
