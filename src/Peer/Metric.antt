-- ===== src/Peer/Metric.antt =====
-- peer/identity.go: what the XOR distance says of keys that share a prefix.
use carrier.Prelude.{ℕ, ◌*◌, ◌≤◌, ◌<◌, ◌≡◌, ◌≢◌, ap, sym, ◌∙◌, true, arith, Bytes, length, min}
use carrier.Prelude.Words.{IsBytes}
use carrier.Peer.Identity.{PeerId, xor_bytes, xor_id, is_less, less_than}
use carrier.Peer.Distance.{
  zeros, length-xor_bytes, xor_bytes-IsBytes, xor_bytes_comm, xor_bytes_cancel, zeros-xor_lt,
  zeros-xor_eq, compare_bytes-zeros, zeros-xor_min,
}

-- The distance of two keys, in leading zero bits.
abbrev pub shared : Bytes → Bytes → ℕ
shared xs ys = zeros (xor_bytes xs ys)

abbrev SameSize : Bytes → Bytes → Bytes → Type 0
SameSize xs ys ss = (length xs ≡ length ss) × (length ys ≡ length ss)

module _ (xs ys ss : Bytes) (e : SameSize xs ys ss) (p : IsBytes xs) (q : IsBytes ys)
    (r : IsBytes ss) where
  -- Where the prefixes shared with a third key differ, the shorter one is what they share.
  pub shared_ne : shared xs ss < shared ys ss → shared xs ys ≡ shared xs ss
  shared_ne h =
      ap zeros (sym (xor_bytes_cancel xs ys ss e.0 e.1))
      ∙ zeros-xor_lt (xor_bytes xs ss) (xor_bytes ys ss)
          (omega (arith, length-xor_bytes xs ss, length-xor_bytes ys ss))
          (xor_bytes-IsBytes xs ss p r) (xor_bytes-IsBytes ys ss q r) h

  pub shared_ne_flip : shared ys ss < shared xs ss → shared xs ys ≡ shared ys ss
  shared_ne_flip h =
      ap zeros (xor_bytes_comm xs ys (omega (arith, e)) ∙ sym (xor_bytes_cancel ys xs ss e.1 e.0))
      ∙ zeros-xor_lt (xor_bytes ys ss) (xor_bytes xs ss)
          (omega (arith, length-xor_bytes xs ss, length-xor_bytes ys ss))
          (xor_bytes-IsBytes ys ss q r) (xor_bytes-IsBytes xs ss p r) h

  -- Where they agree, the two keys share more.
  pub shared_eq :
      shared xs ss ≡ shared ys ss → shared xs ss < length ss * 8 → shared xs ss < shared xs ys
  shared_eq h l = rw (← xor_bytes_cancel xs ys ss e.0 e.1) (
      zeros-xor_eq (xor_bytes xs ss) (xor_bytes ys ss)
        (omega (arith, length-xor_bytes xs ss, length-xor_bytes ys ss))
        (xor_bytes-IsBytes xs ss p r) (xor_bytes-IsBytes ys ss q r) h
        (omega (
          arith,
          length-xor_bytes xs ss,
          ap (λ (n : ℕ). n * 8) (length-xor_bytes xs ss),
          ap (λ (n : ℕ). n * 8) e.0,
        )))

-- A key that shares its first `b` bits with `s`, as the target does, is nearer to the target than
-- any key that leaves `s` at another bit: `XorID` and `Less` agree with the buckets.
pub less_than-shared :
    (s t p q : PeerId)
    → length t.id ≡ length s.id
    → length p.id ≡ length s.id
    → length q.id ≡ length s.id
    → IsBytes s.id
    → IsBytes t.id
    → IsBytes p.id
    → IsBytes q.id
    → shared t.id s.id < length s.id * 8
    → shared p.id s.id ≡ shared t.id s.id
    → shared q.id s.id ≢ shared t.id s.id
    → less_than (xor_id p t) (xor_id q t) ≡ true
unfolding less_than xor_id is_less
less_than-shared s t p q et ep eq bs bt bp bq l same other =
    let near = shared_eq p.id t.id s.id (ep, et) bp bt bs same (omega arith) in
    let far : shared q.id t.id ≤ shared t.id s.id = ground (
      arith,
      shared_ne q.id t.id s.id (eq, et) bq bt bs,
      shared_ne_flip q.id t.id s.id (eq, et) bq bt bs,
    ) in
    let decided =
      compare_bytes-zeros (xor_bytes p.id t.id) (xor_bytes q.id t.id)
        (omega (arith, length-xor_bytes p.id t.id, length-xor_bytes q.id t.id))
        (xor_bytes-IsBytes p.id t.id bp bt) (xor_bytes-IsBytes q.id t.id bq bt) (omega arith) in
    ap is_less decided

-- The XOR metric: the distance is symmetric, and the prefix shared by two keys is no shorter than
-- the shorter of those that each shares with a third.
pub shared_ultrametric :
    (xs ys ss : Bytes)
    → SameSize xs ys ss
    → IsBytes xs
    → IsBytes ys
    → IsBytes ss
    → (shared xs ys ≡ shared ys xs) × (min (shared xs ss) (shared ys ss) ≤ shared xs ys)
shared_ultrametric xs ys ss e p q r = (ap zeros (xor_bytes_comm xs ys (omega (arith, e))), least)
  where
    least : min (shared xs ss) (shared ys ss) ≤ shared xs ys
    least = rw (← xor_bytes_cancel xs ys ss e.0 e.1) (
        zeros-xor_min (xor_bytes xs ss) (xor_bytes ys ss)
          (omega (arith, length-xor_bytes xs ss, length-xor_bytes ys ss))
          (xor_bytes-IsBytes xs ss p r) (xor_bytes-IsBytes ys ss q r))
