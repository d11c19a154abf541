-- ===== src/Backoff/Schedule.antt =====
-- network/components/backoff/component.go: how often the loops try, and how long they wait.
use carrier.Prelude.{
  ℕ, zero, suc, ◌-◌, ◌/◌, ◌≤◌, ◌<◌, ◌≡◌, ◌⊎◌, inl, inr, min, refl, ap, sym, ◌∙◌, subst, arith, Bool,
  true, false, ◌&&◌, List, [], ◌∷◌, Option, none, some, Bytes, bytes_eq, length, All, Bool-cases,
  beq_refl,
}
use carrier.Prelude.Table.{has, store, delete, has-delete}
use carrier.Peer.Identity.{ℤ}
use carrier.Backoff.Delay.{
  Backoff, default_backoff, attempt_limit, timeout_exceeded, for_attempt, next_duration,
  greatest_interval, for_attempt_bounded,
}
use carrier.Backoff.Attempts.{Turn, Backoffs, backoff_loop, start_proxy_backoff}

abbrev later : Backoff → Backoff
later b = record b { attempt = suc b.attempt }

-- How many attempts a backoff has left.
abbrev pub attempts_left : Backoff → ℕ
attempts_left b = attempt_limit b.max_attempts - b.attempt

module _ (grow : ℕ → ℕ → Option ℤ) where
  -- The first `n` delays of a backoff, from an attempt on.
  abbrev pub planned : (ℕ → ℕ) → Backoff → ℕ → ℕ → List ℕ
  planned nap b zero attempt = []
  planned nap b (suc n) attempt = nap (for_attempt grow b attempt) ∷ planned nap b n (suc attempt)

  length-planned :
      (nap : ℕ → ℕ) (b : Backoff) (n attempt : ℕ) → length (planned nap b n attempt) ≡ n
  length-planned nap b zero attempt = refl
  length-planned nap b (suc n) attempt = ap suc (length-planned nap b n (suc attempt))

  planned-later :
      (nap : ℕ → ℕ) (b : Backoff) (n attempt : ℕ)
      → planned nap (later b) n attempt ≡ planned nap b n attempt
  unfolding for_attempt
  planned-later nap b zero attempt = refl
  planned-later nap b (suc n) attempt =
      ap (◌∷◌ (nap (for_attempt grow b attempt))) (planned-later nap b n (suc attempt))

  -- A turn finds the backoff that the loop left in the table, or none.
  abbrev IsOwn : Turn → Type 0
  IsOwn t = (b : Backoff) → (t.loaded b ≡ none) ⊎ (t.loaded b ≡ some b)

  module _ (turns : ℕ → Turn) (nap : ℕ → ℕ) where
    abbrev FollowsPlan : ℕ → Backoff → List ℕ → Type 0
    FollowsPlan k b slept =
        (n : ℕ) × (slept ≡ planned nap b n b.attempt) × (n ≤ k) × (n ≤ attempts_left b)

    slept : ℕ → ℕ → Backoff → List ℕ
    slept k i b = (backoff_loop grow turns nap k i b).0

    -- One turn: nothing is slept, or one delay, or one and those of the turns that follow.
    one_turn :
        (k i : ℕ) (b : Backoff)
        → IsOwn (turns i)
        → (slept (suc k) i b ≡ [])
          ⊎ ((b.attempt < attempt_limit b.max_attempts)
              × ((slept (suc k) i b ≡ nap (for_attempt grow b b.attempt) ∷ [])
                  ⊎ (slept (suc k) i b
                      ≡ nap (for_attempt grow b b.attempt) ∷ slept k (suc i) (later b))))
    unfolding slept backoff_loop next_duration timeout_exceeded
    one_turn k i b own = elim (own b) [
      | inl gone ↦ inl (rw (gone, slept, backoff_loop) refl)
      | inr found ↦ ground arith
    ]

    -- The loop sleeps the first delays of its backoff, in order, whatever it meets: at most as many
    -- as it has turns, and as the backoff has attempts left.
    pub backoff_loop-planned :
        (k i : ℕ) (b : Backoff)
        → ((j : ℕ) → IsOwn (turns j))
        → FollowsPlan k b (backoff_loop grow turns nap k i b).0
    unfolding slept backoff_loop
    backoff_loop-planned zero i b own = (0, refl, omega arith, omega arith)
    backoff_loop-planned (suc k) i b own = elim (one_turn k i b (own i)) [
      | inl e ↦ (0, e, omega arith, omega arith)
      | inr (left, inl e) ↦ (1, e, omega arith, omega arith)
      | inr (left, inr e) ↦
          let (n, eq, le, less) = backoff_loop-planned k (suc i) (later b) own in
          (
            suc n,
            e
                ∙ ap (◌∷◌ (nap (for_attempt grow b b.attempt)))
                    (eq ∙ planned-later nap b n (suc b.attempt)),
            omega arith,
            omega arith,
          )
    ]

    abbrev IsLost : Turn → Type 0
    IsLost t =
        ((b : Backoff) → t.loaded b ≡ some b)
        × (t.connected_before ≡ false)
        × ((t.dialed && (t.connected_after && t.told)) ≡ false)

    -- A peer that never answers is tried as often as the turns and the backoff allow: no attempt is
    -- left out, and no more are made.
    pub backoff_loop_lost :
        (k i : ℕ) (b : Backoff)
        → ((j : ℕ) → IsLost (turns j))
        → (backoff_loop grow turns nap k i b).0 ≡ planned nap b (min k (attempts_left b)) b.attempt
    unfolding slept backoff_loop next_duration timeout_exceeded
    backoff_loop_lost zero i b lost =
        let e : 0 ≡ min 0 (attempts_left b) = omega arith in ap (λ n. planned nap b n b.attempt) e
    backoff_loop_lost (suc k) i b lost = elim (Bool-cases (timeout_exceeded b)) [
      | inl over ↦
          let e : slept (suc k) i b ≡ [] = ground (arith, (lost i).0 b, (lost i).1, (lost i).2) in
          let over : 0 ≡ min (suc k) (attempts_left b) = ground arith in
          e ∙ ap (λ n. planned nap b n b.attempt) over
      | inr left ↦
          let e : slept (suc k) i b
              ≡ nap (for_attempt grow b b.attempt) ∷ slept k (suc i) (later b) =
            ground (arith, (lost i).0 b, (lost i).1, (lost i).2) in
          let more : suc (min k (attempts_left (later b))) ≡ min (suc k) (attempts_left b) =
            ground arith in
          e
          ∙ ap (◌∷◌ (nap (for_attempt grow b b.attempt)))
              (backoff_loop_lost k (suc i) (later b) lost ∙ planned-later nap b _ (suc b.attempt))
          ∙ ap (λ n. planned nap b n b.attempt) more
    ]

-- The loop on a new backoff.
All-planned :
    (grow : ℕ → ℕ → Option ℤ) (nap : ℕ → ℕ) (b : Backoff) (n attempt : ℕ) (P : ℕ → Type 0)
    → ((a : ℕ) → P (nap (for_attempt grow b a)))
    → All P (planned grow nap b n attempt)
All-planned grow nap b zero attempt P h = tt
All-planned grow nap b (suc n) attempt P h = (h attempt, All-planned grow nap b n (suc attempt) P h)

module _ (grow : ℕ → ℕ → Option ℤ) (turns : ℕ → Turn) (others : Backoffs → Backoffs)
    (max_attempts : ℕ) (peer : Bytes) (backoffs : Backoffs) where
  abbrev IsBounded : (ℕ → ℕ) → Backoff → List ℕ → Backoffs → Type 0
  IsBounded nap b slept table =
      (length slept ≤ min max_attempts 5)
      × All (λ d. d ≤ nap (greatest_interval b)) slept
      × (has peer table ≡ false)

  loop-IsBounded :
      (nap : ℕ → ℕ) (b : Backoff) (table : Backoffs)
      → ((n k : ℕ) → n ≤ k → nap n ≤ nap k)
      → attempts_left b ≤ 5
      → ((j : ℕ) → IsOwn grow (turns j))
      → IsBounded nap b (backoff_loop grow turns nap max_attempts 0 b).0 (delete peer table)
  loop-IsBounded nap b table monotone few own =
      let (n, eq, le, less) = backoff_loop-planned grow turns nap max_attempts 0 b own in
      (
        omega (arith, ap (length {A = ℕ}) eq, length-planned grow nap b n b.attempt),
        subst (All (λ d. d ≤ nap (greatest_interval b))) (sym eq) (
            All-planned grow nap b n b.attempt (λ d. d ≤ nap (greatest_interval b))
              (λ a.
                monotone (for_attempt grow b a) (greatest_interval b)
                  (for_attempt_bounded grow b a).1)),
        ground (arith, has-delete peer peer table, beq_refl peer),
      )

  -- `startProxyBackoff` on an address that parses, for a peer with no backoff active, does the same,
  -- with a quarter of the times, and starts the proxy component again.
  pub start_proxy_backoff-IsBounded :
      has peer backoffs ≡ false
      → ((j : ℕ) → IsOwn grow (turns j))
      → let (slept, table, restarted) =
          start_proxy_backoff grow turns others max_attempts true peer backoffs in
        IsBounded (λ d. d / 4) default_backoff slept table × (restarted ≡ true)
  unfolding start_proxy_backoff default_backoff
  start_proxy_backoff-IsBounded free own =
      let table = others (store peer default_backoff backoffs) in
      let e : start_proxy_backoff grow turns others max_attempts true peer backoffs ≡ (
        (backoff_loop grow turns (λ d. d / 4) max_attempts 0 default_backoff).0,
        delete peer table,
        true,
      ) =
        ground arith in
      subst
        (λ (r : List ℕ × Backoffs × Bool).
          IsBounded (λ d. d / 4) default_backoff r.0 r.1 × (r.2 ≡ true))
        (sym e)
        (
          loop-IsBounded (λ d. d / 4) default_backoff table (λ n k le. omega arith) (omega arith)
              own,
          refl,
        )
