-- ===== src/Window/Slots.antt =====
-- network/recv_window.go: the slots of a window, and the inbox whose values they hold.
use carrier.Prelude.{
  ℕ, suc, ◌+◌, ◌-◌, ◌%◌, ◌≤◌, ◌<◌, ◌≡◌, ◌≢◌, ap, sym, ◌∙◌, arith, List, Option, none, some, length,
  get_elem?, set, length-set, get_elem?-set_self, get_elem?-set_ne,
}
use native.Mathlib.Nat.{mod-lt, mod-eq_of_lt, mod-eq-sub-mod, mod-add-mod, add-mod_right}
use native.Mathlib.Decide.{dec_lt, ℕ_discrete}
use carrier.Window.Inbox.{Inbox, accept}

-- Two nonces less than a window apart have slots of their own.
slot-differs : (b d size : ℕ) → 0 < d → d < size → (b + d) % size ≢ b % size
slot-differs b d size pos small = elim (dec_lt (b % size + d) size) [
  | yes p ↦ omega (arith, mod-add-mod b size d, mod-eq_of_lt p)
  | no p ↦ omega (
    arith,
    mod-add-mod b size d,
    mod-lt b {m = size} (omega arith),
    mod-eq-sub-mod {n = b % size + d} {m = size} (omega arith),
    mod-eq_of_lt {n = b % size + d - size} {m = size}
        (omega (arith, mod-lt b {m = size} (omega arith))),
  )
]

pub slots-differ : (n k size : ℕ) → n ≢ k → n < k + size → k < n + size → n % size ≢ k % size
slots-differ n k size ne above below e = elim (dec_lt n k) [
  | yes p ↦
      slot-differs n (k - n) size (omega arith) (omega arith)
        (ap (λ j. j % size) (omega arith) ∙ sym e)
  | no p ↦
      slot-differs k (n - k) size (omega arith) (omega arith) (ap (λ j. j % size) (omega arith) ∙ e)
]

-- The slots hold what arrived under the nonces of the window, and nothing arrived beyond.
pub record Holds {V : Type 0} (size : ℕ) (buf : List (Option V)) (a : Inbox V) : Type 0 where
  pub sized : length buf ≡ size
  pub slots :
      (n : ℕ) → a.next ≤ n → n < a.next + size → get_elem? buf (n % size) ≡ some (a.arrived n)
  pub later : (n : ℕ) → a.next + size ≤ n → a.arrived n ≡ none

module _ {V : Type 0} {size : ℕ} {buf : List (Option V)} {a : Inbox V} (h : Holds size buf a) where
  in-bounds : (n : ℕ) → 0 < size → n % size < length buf
  in-bounds n pos = omega (arith, h.sized, mod-lt n {m = size} pos)

  -- The slots of the other nonces of the window.
  kept :
      (n k : ℕ) (o : Option V)
      → n ≢ k
      → a.next ≤ n
      → n < a.next + size
      → a.next ≤ k
      → k < a.next + size
      → get_elem? (set buf (k % size) o) (n % size) ≡ some (a.arrived n)
  kept n k o ne low high klow khigh =
      get_elem?-set_ne buf (k % size) (n % size) o
        (slots-differ k n size (λ e. ne (sym e)) (omega arith) (omega arith))
      ∙ h.slots n low high

  pub accept-Holds :
      (nonce : ℕ) (v : V)
      → a.next ≤ nonce
      → nonce < a.next + size
      → Holds size (set buf (nonce % size) (some v)) (accept nonce v a)
  unfolding accept
  accept-Holds nonce v low high = record {
    sized = length-set buf _ _ ∙ h.sized;
    slots = slots;
    later = λ n far. ground (arith, h.later n far);
  }
    where
      slots :
          (n : ℕ)
          → a.next ≤ n
          → n < a.next + size
          → get_elem? (set buf (nonce % size) (some v)) (n % size)
            ≡ some ((accept nonce v a).arrived n)
      slots n l u = elim (ℕ_discrete n nonce) [
        | yes e ↦
            ap (λ k. get_elem? (set buf (nonce % size) (some v)) (k % size)) e
            ∙ get_elem?-set_self buf (nonce % size) (some v) (in-bounds nonce (omega arith))
            ∙ ground arith
        | no ne ↦ kept n nonce (some v) ne l u low high ∙ ground arith
      ]

  -- The slot of the next nonce is cleared when its value goes out.
  pub next-Holds :
      0 < size → Holds size (set buf (a.next % size) none) (record a { next = suc a.next })
  next-Holds pos = record {
    sized = length-set buf _ _ ∙ h.sized;
    slots = slots;
    later = λ n far. h.later n (omega arith);
  }
    where
      slots :
          (n : ℕ)
          → suc a.next ≤ n
          → n < suc a.next + size
          → get_elem? (set buf (a.next % size) none) (n % size) ≡ some (a.arrived n)
      slots n l u = elim (ℕ_discrete n (a.next + size)) [
        | yes e ↦
            ap (get_elem? (set buf (a.next % size) none))
              (ap (λ k. k % size) e ∙ add-mod_right a.next size)
            ∙ get_elem?-set_self buf (a.next % size) none (in-bounds a.next pos)
            ∙ ap some (sym (h.later n (omega arith)))
        | no ne ↦
            kept n a.next none (omega arith) (omega arith) (omega arith) (omega arith) (omega arith)
      ]
