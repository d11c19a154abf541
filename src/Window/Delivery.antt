-- ===== src/Window/Delivery.antt =====
-- network/recv_window.go: a window delivers what its inbox does. The code keeps the last nonce
-- modulo the size once `Range` stops, so a window stands for its inbox up to multiples of the size.
use carrier.Prelude.{
  ℕ, zero, suc, ◌+◌, ◌%◌, ◌^◌, ◌≤◌, ◌<◌, ◌≡◌, ◌⊎◌, inl, inr, refl, ap, sym, ◌∙◌, subst, arith, true,
  List, [], ◌∷◌, map, Option, none, some, length, get_elem?, set, length-replicate,
  get_elem?-replicate, Option-cases,
}
use native.Mathlib.Nat.{mod-lt, mod-mod, mod-add-mod, add-mod_right}
use carrier.Outcome.{ok}
use carrier.Window.Receiving.{RecvWindow, new_recv_window, push, range_loop, range, is_some, pop}
use carrier.Window.Inbox.{Inbox, empty, accept, in_order, deliver}
use carrier.Window.Slots.{Holds, accept-Holds, next-Holds}

-- A window that has been pushed to stands for an inbox. The sizes leave room below 2^64, where
-- the nonces would wrap.
pub record Refines {V : Type 0} (w : RecvWindow V) (a : Inbox V) : Type 0 where
  pub holds : Holds w.size w.buf a
  pub started : w.once ≡ true
  pub sized : 0 < w.size
  pub fits : w.last_nonce + w.size < 2 ^ 64
  pub roomy : w.size + w.size < 2 ^ 64
  pub same : w.last_nonce % w.size ≡ a.next % w.size

module _ {V : Type 0} where
  -- Pushing a nonce that lies in the window never panics, and puts the value in the inbox.
  pub push-Refines :
      (w : RecvWindow V) (a : Inbox V) (nonce : ℕ) (v : V)
      → Refines w a
      → a.next ≤ nonce
      → nonce < a.next + w.size
      → (w' : RecvWindow V) × (push nonce v w ≡ ok w')
        × Refines w' (accept nonce v a)
        × (w'.size ≡ w.size)
  unfolding push accept
  push-Refines w a nonce v r low high = (
    record w { buf = set w.buf (nonce % w.size) (some v) },
    ground (arith, r),
    record {
      holds = accept-Holds r.holds nonce v low high;
      started = r.started;
      sized = r.sized;
      fits = r.fits;
      roomy = r.roomy;
      same = r.same;
    },
    refl,
  )

  -- How far the window has gone after the loop: to the nonce where it stopped, modulo the size, or
  -- round once.
  record IsAfter (size k last : ℕ) (values : List V) (a : Inbox V) (w : RecvWindow V) : Type 0 where
    holds : Holds size w.buf (record a { next = a.next + length values })
    kept : (w.size ≡ size) × (w.once ≡ true)
    gone :
        ((w.last_nonce < size) × (w.last_nonce ≡ (a.next + length values) % size))
        ⊎ ((w.last_nonce ≡ last) × (length values ≡ k))

  loop_stop :
      (k id : ℕ) (w : RecvWindow V)
      → get_elem? w.buf (id % w.size) ≡ some none
      → range_loop is_some (suc k) id w ≡ ok ([], record w { last_nonce = id % w.size })
  unfolding range_loop
  loop_stop k id w h = ground arith

  loop_next :
      (k id : ℕ) (w : RecvWindow V) {v : V} {res : List (Option V)} {w' : RecvWindow V}
      → get_elem? w.buf (id % w.size) ≡ some (some v)
      → range_loop is_some k ((id + 1) % 2 ^ 64) (record w { buf = set w.buf (id % w.size) none })
        ≡ ok (res, w')
      → range_loop is_some (suc k) id w ≡ ok (some v ∷ res, w')
  unfolding range_loop
  loop_next k id w h rest = ground arith

  in_order_stop :
      (arrived : ℕ → Option V) (k n : ℕ) → arrived n ≡ none → in_order arrived (suc k) n ≡ []
  in_order_stop arrived k n h = ground arith

  in_order_next :
      (arrived : ℕ → Option V) (k n : ℕ) {v : V}
      → arrived n ≡ some v
      → in_order arrived (suc k) n ≡ v ∷ in_order arrived k (suc n)
  in_order_next arrived k n h = ground arith

  abbrev Delivers : ℕ → ℕ → RecvWindow V → Inbox V → List V → Type 0
  Delivers k id w a values =
      (w' : RecvWindow V) × (range_loop is_some k id w ≡ ok (map some values, w'))
      × IsAfter w.size k w.last_nonce values a w'

  moved :
      {size : ℕ} {buf : List (Option V)} (a : Inbox V) {n k : ℕ}
      → Holds size buf (record a { next = n })
      → n ≡ k
      → Holds size buf (record a { next = k })
  moved {size} {buf} a h e = subst (λ i. Holds size buf (record a { next = i })) e h

  range_loop-Delivers :
      (k id : ℕ) (w : RecvWindow V) (a : Inbox V)
      → Holds w.size w.buf a
      → w.once ≡ true
      → 0 < w.size
      → id + k < 2 ^ 64
      → id % w.size ≡ a.next % w.size
      → Delivers k id w a (in_order a.arrived k a.next)
  unfolding range_loop
  range_loop-Delivers zero id w a h started pos fits same = (
    w,
    refl,
    record { holds = moved a h (omega arith); kept = (refl, started); gone = inr (refl, refl) },
  )
  range_loop-Delivers (suc k) id w a h started pos fits same =
      elim (Option-cases (a.arrived a.next)) [
        | inl e ↦ subst (Delivers (suc k) id w a) (sym (in_order_stop a.arrived k a.next e)) (
          record w { last_nonce = id % w.size },
          loop_stop k id w (slot ∙ ap some e),
          record {
            holds = moved a h (omega arith);
            kept = (refl, started);
            gone = inl (mod-lt id pos, same ∙ ap (λ n. n % w.size) (omega arith));
          },
        )
        | inr (v, e) ↦ subst (Delivers (suc k) id w a) (sym (in_order_next a.arrived k a.next e)) (
            longer v e (
              range_loop-Delivers k ((id + 1) % 2 ^ 64)
                (record w { buf = set w.buf (id % w.size) none }) (record a { next = suc a.next })
                cleared started pos (omega arith) further))
      ]
    where
      slot : get_elem? w.buf (id % w.size) ≡ some (a.arrived a.next)
      slot = ap (get_elem? w.buf) same ∙ h.slots a.next (omega arith) (omega arith)

      cleared : Holds w.size (set w.buf (id % w.size) none) (record a { next = suc a.next })
      cleared =
          subst (λ i. Holds w.size (set w.buf i none) (record a { next = suc a.next })) (sym same)
            (next-Holds h pos)

      further : (id + 1) % 2 ^ 64 % w.size ≡ suc a.next % w.size
      further =
          ap (λ n. n % w.size) (omega arith)
          ∙ sym (mod-add-mod id w.size 1)
          ∙ ap (λ r. (r + 1) % w.size) same
          ∙ mod-add-mod a.next w.size 1
          ∙ ap (λ n. n % w.size) (omega arith)

      longer :
          (v : V)
          → a.arrived a.next ≡ some v
          → Delivers k
              ((id + 1) % 2 ^ 64)
              (record w { buf = set w.buf (id % w.size) none })
              (record a { next = suc a.next })
              (in_order a.arrived k (suc a.next))
          → Delivers (suc k) id w a (v ∷ in_order a.arrived k (suc a.next))
      longer v e (w', eq, after) = (
        w',
        loop_next k id w (slot ∙ ap some e) eq,
        record {
          holds = moved a after.holds (omega arith);
          kept = after.kept;
          gone = elim after.gone [
            | inl (lt, at) ↦ inl (lt, at ∙ ap (λ n. n % w.size) (omega arith))
            | inr (at, full) ↦ inr (at, ap suc full)
          ];
        },
      )

  gone-same :
      {size last : ℕ} {values : List V} {a : Inbox V} {w : RecvWindow V}
      → IsAfter size size last values a w
      → last % size ≡ a.next % size
      → w.last_nonce % size ≡ (a.next + length values) % size
  gone-same {size} {last} {values} {a} {w} after same = elim after.gone [
    | inl (lt, at) ↦ ap (λ n. n % size) at ∙ mod-mod (a.next + length values) size
    | inr (at, full) ↦
        ap (λ n. n % size) at
        ∙ same
        ∙ sym (add-mod_right a.next size)
        ∙ ap (λ n. (a.next + n) % size) (sym full)
  ]

  -- `Pop` on a window that stands for an inbox never panics: it returns what the inbox delivers,
  -- and the window stands for the inbox that is left.
  pub pop-Refines :
      (w : RecvWindow V) (a : Inbox V)
      → Refines w a
      → let (values, a') = deliver w.size a in
        (w' : RecvWindow V) × (pop w ≡ ok (map some values, w'))
        × Refines w' a'
        × (w'.size ≡ w.size)
  unfolding pop range deliver
  pop-Refines w a r =
      let (w', eq, after) =
        range_loop-Delivers w.size w.last_nonce w a r.holds r.started r.sized r.fits r.same in
      (
        w',
        eq,
        record {
          holds = subst (λ n. Holds n w'.buf (deliver w.size a).1) (sym after.kept.0) after.holds;
          started = after.kept.1;
          sized = omega (arith, r.sized, after.kept.0);
          fits = ground (arith, r.fits, r.roomy, after.kept.0, after.gone);
          roomy = omega (arith, r.roomy, after.kept.0);
          same =
              ap (λ n. w'.last_nonce % n) after.kept.0
              ∙ gone-same after r.same
              ∙ ap (λ n. (a.next + length (in_order a.arrived w.size a.next)) % n)
                  (sym after.kept.0);
        },
        after.kept.0,
      )

  new-Holds : (size first : ℕ) → Holds size (new_recv_window {V = V} size).buf (empty first)
  unfolding new_recv_window empty
  new-Holds size first = record {
    sized = length-replicate size none;
    slots = λ n low high. get_elem?-replicate size (n % size) none (mod-lt n (omega arith));
    later = λ n far. refl;
  }

  -- The first push to a new window never panics, and opens it at its nonce.
  pub push_first-Refines :
      (size nonce : ℕ) (v : V)
      → 0 < size
      → size + size < 2 ^ 64
      → nonce + size < 2 ^ 64
      → (w : RecvWindow V) × (push nonce v (new_recv_window size) ≡ ok w)
        × Refines w (accept nonce v (empty nonce))
        × (w.size ≡ size)
  unfolding push new_recv_window accept empty
  push_first-Refines size nonce v pos roomy fits = (
    _,
    ground arith,
    record {
      holds = accept-Holds (new-Holds size nonce) nonce v (omega arith) (omega arith);
      started = refl;
      sized = pos;
      fits = fits;
      roomy = roomy;
      same = refl;
    },
    refl,
  )
