-- ===== src/Peer/Download.antt =====
-- The share download loop: `shareDownloader.step` of p2p/download.go. Times are in nanoseconds. The
-- functions that a downloader is given are arguments: what they return at this step.
pub mod Requests
use p2pool_go_vtc.Prelude.{
  ℕ, ◌+◌, ◌*◌, Bool, true, false, not, Option, none, some, List, [], ◌∷◌, length, get_elem?, take,
  filter, ltb, ◌==◌, if◌then◌else◌,
}
use p2pool_go_vtc.Prelude.Int.{ℤ, pos, leb_ℤ, ◌-ℤ◌}
use p2pool_go_vtc.Prelude.Bytes.{Bytes}
use p2pool_go_vtc.Prelude.Eq.{nat_Eq}
use p2pool_go_vtc.Prelude.Dict.{Dict, has, insert}

abbrev pub max_download_parents : ℕ
max_download_parents = 500

abbrev pub max_stop_hashes : ℕ
max_stop_hashes = 100

abbrev pub second : ℕ
second = 1000000000

abbrev pub download_retry_delay : ℕ
download_retry_delay = 1 * second

abbrev pub download_requery_delay : ℕ
download_requery_delay = 45 * second

pub record ShareReq : Type 0 where
  pub hashes : List ℕ
  pub parents : ℕ
  pub stops : List ℕ

-- What the functions of the downloader return in one step. `intn k n` is the k-th call of `intn`;
-- `fetch` returns `none` for an error.
pub record World : Type 0 where
  pub now : ℤ
  pub missing : List ℕ
  pub stops : List ℕ
  pub peers : List Bytes
  pub intn : ℕ → ℕ → ℕ
  pub fetch : Bytes → ShareReq → Option ℕ

-- What a step did: the hashes answered lately, the wait, and the request made, if any.
pub record Outcome : Type 0 where
  pub answered : Dict ℕ ℤ
  pub wait : ℕ
  pub request : Option (Bytes × ShareReq)

-- The first loop: what was answered long enough ago is forgotten.
unfoldable pub expire : ℤ → Dict ℕ ℤ → Dict ℕ ℤ
expire now answered = filter (λ e. not (leb_ℤ (pos download_requery_delay) (now -ℤ e.1))) answered

-- The hashes to ask for.
unfoldable pub wanted : Dict ℕ ℤ → List ℕ → List ℕ
wanted answered missing = filter (λ h. not (has h answered)) missing

pub finish : Dict ℕ ℤ → ℤ → ℕ → Bytes → ShareReq → Option ℕ → Outcome
finish answered now h pid req none = record {
  answered = answered;
  wait = download_retry_delay;
  request = some (pid, req);
}
finish answered now h pid req (some got) =
    if got == 0
    then record { answered = answered; wait = download_retry_delay; request = some (pid, req) }
    else record { answered = insert h now answered; wait = 0; request = some (pid, req) }

pub idle : Dict ℕ ℤ → Outcome
idle answered = record { answered = answered; wait = download_retry_delay; request = none }

-- `none` is an index out of range.
unfoldable pub step : World → Dict ℕ ℤ → Option Outcome
unfolding finish idle
step w before =
    let answered = expire w.now before in
    let want = wanted answered w.missing in
    if length want == 0
    then some (idle answered)
    else if length w.peers == 0
    then some (idle answered)
    else elim (get_elem? want (w.intn 0 (length want))) [
      | none ↦ none
      | some h ↦ elim (get_elem? w.peers (w.intn 1 (length w.peers))) [
        | none ↦ none
        | some pid ↦
            let stops =
              if ltb max_stop_hashes (length w.stops)
              then take max_stop_hashes w.stops
              else w.stops in
            let req : ShareReq = record {
              hashes = h ∷ [];
              parents = w.intn 2 max_download_parents;
              stops = stops;
            } in
            some (finish answered w.now h pid req (w.fetch pid req))
      ]
    ]
