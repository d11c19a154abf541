-- ===== src/Window/Receiving.antt =====
-- network/recv_window.go: `RecvWindow`, whose slots are nil or hold a value. A window of size 0
-- divides by zero when a value is pushed. The lock makes each call atomic.
use carrier.Prelude.{
  ℕ, zero, suc, ◌+◌, ◌%◌, ◌^◌, Bool, true, false, List, [], ◌∷◌, Option, none, some, nat_beq,
  if◌then◌else◌, get_elem?, set, replicate,
}
use carrier.Outcome.{Outcome, ok, panic}

pub record RecvWindow (V : Type 0) : Type 0 where
  pub last_nonce : ℕ
  pub size : ℕ
  pub buf : List (Option V)
  pub once : Bool

module _ {V : Type 0} where
  unfoldable pub new_recv_window : ℕ → RecvWindow V
  new_recv_window size = record {
    last_nonce = 0;
    size = size;
    buf = replicate size none;
    once = false;
  }

  -- `SetLocalNonce`
  unfoldable pub set_local_nonce : ℕ → RecvWindow V → RecvWindow V
  set_local_nonce nonce w = record w { last_nonce = nonce }

  -- `Push`: the first nonce ever pushed becomes the last nonce.
  unfoldable pub push : ℕ → V → RecvWindow V → Outcome (RecvWindow V)
  push nonce value w =
      if nat_beq w.size 0
      then panic
      else ok (record w {
        last_nonce = if w.once then w.last_nonce else nonce;
        buf = set w.buf (nonce % w.size) (some value);
        once = true;
      })

  -- The loop of `Range` from its `i` on: `k` turns are left, and `id` is a uint64.
  unfoldable pub range_loop :
      (ℕ → Option V → Bool) → ℕ → ℕ → RecvWindow V → Outcome (List (Option V) × RecvWindow V)
  range_loop fn zero id w = ok ([], w)
  range_loop fn (suc k) id w = elim (get_elem? w.buf (id % w.size)) [
    | none ↦ panic
    | some val ↦ elim (fn id val) [
      | false ↦ ok ([], record w { last_nonce = id % w.size })
      | true ↦
          elim (range_loop fn k ((id + 1) % 2 ^ 64)
            (record w { buf = set w.buf (id % w.size) none })) [
              | panic ↦ panic
              | ok (res, w') ↦ ok (val ∷ res, w')
            ]
    ]
  ]

  -- `Range`
  unfoldable pub range :
      (ℕ → Option V → Bool) → RecvWindow V → Outcome (List (Option V) × RecvWindow V)
  unfolding range_loop
  range fn w = range_loop fn w.size w.last_nonce w

  abbrev pub is_some : ℕ → Option V → Bool
  is_some nonce none = false
  is_some nonce (some v) = true

  -- `Pop`
  unfoldable pub pop : RecvWindow V → Outcome (List (Option V) × RecvWindow V)
  unfolding range
  pop = range is_some
