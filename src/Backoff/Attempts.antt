-- ===== src/Backoff/Attempts.antt =====
-- network/components/backoff/component.go: the loops that try to reconnect.
use carrier.Prelude.{
  ℕ, zero, suc, ◌/◌, Bool, true, false, not, ◌&&◌, ◌||◌, List, [], ◌∷◌, Option, none, some, Bytes,
  bytes_eq, if◌then◌else◌,
}
use carrier.Prelude.Table.{has, store, delete}
use carrier.Peer.Identity.{ℤ}
use carrier.Backoff.Delay.{Backoff, default_backoff, new_backoff, timeout_exceeded, next_duration}

-- What one turn of the loop meets: the backoff that it loads from the table, given the one that it
-- left there, whether a connection is there before the dial, whether the dial succeeds, whether a connection is there after it,
-- and whether the message goes out.
pub record Turn : Type 0 where
  pub loaded : Backoff → Option Backoff
  pub connected_before : Bool
  pub dialed : Bool
  pub connected_after : Bool
  pub told : Bool

-- How the loop ends.
pub data End : Type 0 where
  inactive timed_out already_connected connected gave_up : End

abbrev pub Backoffs : Type 0
Backoffs = List (Bytes × Backoff)

module _ (grow : ℕ → ℕ → Option ℤ) (turns : ℕ → Turn) (nap : ℕ → ℕ) where
  abbrev after_nap : ℕ → List ℕ × End → List ℕ × End
  after_nap d rest = (nap d ∷ rest.0, rest.1)

  -- `for i := 0; i < p.maxAttempts; i++`, with `k` turns left: the times slept, and the end.
  unfoldable pub backoff_loop : ℕ → ℕ → Backoff → List ℕ × End
  unfolding next_duration timeout_exceeded
  backoff_loop zero i b = ([], gave_up)
  backoff_loop (suc k) i b =
      let t = turns i in
      elim (t.loaded b) [
        | none ↦ ([], inactive)
        | some now ↦
            let (d, later) = next_duration grow now in
            let rest = after_nap d (backoff_loop k (suc i) later) in
            if timeout_exceeded now
            then ([], timed_out)
            else if t.connected_before
            then (nap d ∷ [], already_connected)
            else if t.dialed && (t.connected_after && t.told)
            then (nap d ∷ [], connected)
            else rest
      ]

-- `others` is what other goroutines do to the table while the loop runs. What the loop sees of it stands
-- in its turns.
module _ (grow : ℕ → ℕ → Option ℤ) (turns : ℕ → Turn) (others : Backoffs → Backoffs)
    (max_attempts : ℕ) where
  -- `startBackoff`: the times slept, and the table. A backoff that is active is left alone.
  unfoldable pub start_backoff : ℤ → Bytes → Backoffs → List ℕ × Backoffs
  unfolding has store delete backoff_loop new_backoff
  start_backoff max_interval peer backoffs = if has peer backoffs then ([], backoffs) else (
    (backoff_loop grow turns (λ d. d) max_attempts 0 (new_backoff max_interval)).0,
    delete peer (others (store peer (new_backoff max_interval) backoffs)),
  )

  -- `startProxyBackoff`, with whether the address parses: also whether the proxy component is
  -- started again. It sleeps a quarter of each delay.
  unfoldable pub start_proxy_backoff : Bool → Bytes → Backoffs → List ℕ × Backoffs × Bool
  unfolding has store delete backoff_loop default_backoff
  start_proxy_backoff parsed peer backoffs =
      if has peer backoffs || not parsed then ([], backoffs, false) else (
        (backoff_loop grow turns (λ d. d / 4) max_attempts 0 default_backoff).0,
        delete peer (others (store peer default_backoff backoffs)),
        true,
      )

-- `PeerDisconnect`: which loop is started, if any.
pub data Started : Type 0 where
  nothing direct proxied : Started

unfoldable pub peer_disconnect : Bool → Bool → Bool → Started
peer_disconnect enable_backoff is_working_proxy proxy_mode =
    if not enable_backoff
    then nothing
    else if is_working_proxy && proxy_mode
    then proxied
    else direct
