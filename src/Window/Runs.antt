-- ===== src/Window/Runs.antt =====
-- network/recv_window.go: a window from its first push on, over any sequence of calls.
use carrier.Prelude.{
  ℕ, ◌+◌, ◌^◌, ◌≤◌, ◌<◌, ◌≡◌, refl, ◌∙◌, subst, arith, List, [], ◌∷◌, map, Option, some,
}
use carrier.Outcome.{Outcome, ok, panic}
use carrier.Window.Receiving.{RecvWindow, new_recv_window, push, pop}
use carrier.Window.Inbox.{Inbox, empty, accept, deliver}
use carrier.Window.Delivery.{Refines, push-Refines, pop-Refines, push_first-Refines}

pub data Call (V : Type 0) : Type 0 where
  push_call : ℕ → V → Call V
  pop_call : Call V

module _ {V : Type 0} where
  -- What the calls of `Pop` return, and the window in the end.
  unfoldable pub run :
      List (Call V) → RecvWindow V → Outcome (List (List (Option V)) × RecvWindow V)
  unfolding push pop
  run [] w = ok ([], w)
  run (push_call nonce v ∷ calls) w = elim (push nonce v w) [ panic ↦ panic | ok w' ↦ run calls w' ]
  run (pop_call ∷ calls) w = elim (pop w) [
    | panic ↦ panic
    | ok (values, w') ↦ elim (run calls w') [
      | panic ↦ panic
      | ok (outs, last) ↦ ok (values ∷ outs, last)
    ]
  ]

  -- The same calls on an inbox.
  unfoldable pub run_inbox : ℕ → List (Call V) → Inbox V → List (List V)
  unfolding accept deliver
  run_inbox size [] a = []
  run_inbox size (push_call nonce v ∷ calls) a = run_inbox size calls (accept nonce v a)
  run_inbox size (pop_call ∷ calls) a = (deliver size a).0 ∷ run_inbox size calls (deliver size a).1

  -- Every nonce pushed lies in the window at that moment.
  abbrev pub IsInside : ℕ → List (Call V) → Inbox V → Type 0
  IsInside size [] a = Unit
  IsInside size (push_call nonce v ∷ calls) a =
      (a.next ≤ nonce) × (nonce < a.next + size) × IsInside size calls (accept nonce v a)
  IsInside size (pop_call ∷ calls) a = IsInside size calls (deliver size a).1

  run-push :
      (nonce : ℕ) (v : V) (calls : List (Call V)) (w : RecvWindow V) {w' : RecvWindow V}
      → push nonce v w ≡ ok w'
      → run (push_call nonce v ∷ calls) w ≡ run calls w'
  unfolding run
  run-push nonce v calls w h = ground arith

  run-pop :
      (calls : List (Call V)) (w : RecvWindow V) {w' last : RecvWindow V} {values : List (Option V)}
      {outs : List (List (Option V))}
      → pop w ≡ ok (values, w')
      → run calls w' ≡ ok (outs, last)
      → run (pop_call ∷ calls) w ≡ ok (values ∷ outs, last)
  unfolding run
  run-pop calls w h rest = ground arith

  run-Refines :
      (size : ℕ) (calls : List (Call V)) (w : RecvWindow V) (a : Inbox V)
      → w.size ≡ size
      → Refines w a
      → IsInside size calls a
      → (last : RecvWindow V) × (run calls w ≡ ok (map (map some) (run_inbox size calls a), last))
  unfolding run run_inbox
  run-Refines size [] w a same r inside = (w, refl)
  run-Refines size (push_call nonce v ∷ calls) w a same r inside =
      let (w', eq, r', kept) =
        push-Refines w a nonce v r inside.0 (omega (arith, same, inside.1)) in
      let (last, rest) = run-Refines size calls w' (accept nonce v a) (kept ∙ same) r' inside.2 in
      (last, run-push nonce v calls w eq ∙ rest)
  run-Refines size (pop_call ∷ calls) w a same r inside =
      let (w', eq, r', kept) = popped in
      let (last, rest) = run-Refines size calls w' (deliver size a).1 (kept ∙ same) r' inside in
      (last, run-pop calls w eq rest)
    where
      popped :
          (w' : RecvWindow V) × (pop w ≡ ok (map some (deliver size a).0, w'))
          × Refines w' (deliver size a).1
          × (w'.size ≡ w.size)
      popped =
          subst
            (λ n.
              (w' : RecvWindow V) × (pop w ≡ ok (map some (deliver n a).0, w'))
              × Refines w' (deliver n a).1
              × (w'.size ≡ w.size))
            same (pop-Refines w a r)

  -- A new receive window of a size of at least 1 and below 2^63 whose first push has a nonce below
  -- 2^64 less the size, under any pushes and pops whose nonces lie in the window at their time,
  -- never panics, and each `Pop` returns exactly what an inbox delivers: the values in the
  -- order of their nonces, without gaps, each once.
  pub run-deliver :
      (size nonce : ℕ) (v : V) (calls : List (Call V))
      → 0 < size
      → size + size < 2 ^ 64
      → nonce + size < 2 ^ 64
      → IsInside size calls (accept nonce v (empty nonce))
      → (last : RecvWindow V) × (run (push_call nonce v ∷ calls) (new_recv_window size)
          ≡ ok (map (map some) (run_inbox size calls (accept nonce v (empty nonce))), last))
  run-deliver size nonce v calls pos roomy fits inside =
      let (w, eq, r, kept) = push_first-Refines size nonce v pos roomy fits in
      let (last, rest) = run-Refines size calls w _ kept r inside in
      (last, run-push nonce v calls (new_recv_window size) eq ∙ rest)
