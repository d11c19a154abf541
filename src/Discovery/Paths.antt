-- ===== src/Discovery/Paths.antt =====
-- network/components/discovery/rpc.go: how `FindNode` spreads the closest peers over its lookups.
use carrier.Prelude.{
  ℕ, zero, suc, ◌+◌, ◌%◌, ◌≤◌, ◌<◌, ◌≡◌, min, refl, ap, sym, ◌∙◌, subst, arith, Bool, true, false,
  List, [], ◌∷◌, ◌++◌, append_assoc, append-nil, some, Bytes, bytes_beq, ltb, if◌then◌else◌, length,
  get_elem?, set, length-append, length-set, get_elem?_total, get_elem?-eq-none, All, All-append,
  All-get,
}
use native.Mathlib.Nat.{mod-lt, mod-eq_of_lt}
use native.Mathlib.Decide.{dec_lt}
use carrier.Outcome.{ok, panic}
use carrier.Peer.Identity.{PeerId, public_key_hex, xor_key, less_than}
use carrier.Discovery.FindNode.{Paths, distribute, key_nearer}

abbrev pub IsOther : Bytes → PeerId → Type 0
IsOther own p = bytes_beq p.address own ≡ false

pub All-weaken {κ} :
    (P Q : List PeerId → Type κ) (xs : List (List PeerId))
    → ((q : List PeerId) → P q → Q q)
    → All P xs
    → All Q xs
All-weaken P Q [] f h = tt
All-weaken P Q (x ∷ xs) f h = (f x h.0, All-weaken P Q xs f h.1)

-- The queues that hold peers of a kind, after `i` peers.
abbrev pub AreQueues : (PeerId → Type 0) → ℕ → List (List PeerId) → Type 0
AreQueues P i lookups = All (λ q. All P q × (length q ≤ i)) lookups

-- The place of item `i` is there once a lookup was added for it.
module _ (paths : ℕ) (own : Bytes) (pos : 0 < paths) where
  abbrev grown : List (List PeerId) → List (List PeerId)
  grown lookups = if ltb (length lookups) paths then lookups ++ ([] ∷ []) else lookups

  length-grown :
      (lookups : List (List PeerId)) (i : ℕ)
      → length lookups ≡ min paths i
      → length (grown lookups) ≡ min paths (suc i)
  length-grown lookups i h = ground (arith, length-append lookups ([] ∷ []))

  slot_lt :
      (lookups : List (List PeerId)) (i : ℕ)
      → length lookups ≡ min paths i
      → i % paths < length (grown lookups)
  slot_lt lookups i h = elim (dec_lt i paths) [
    | yes p ↦ omega (arith, length-grown lookups i h, mod-eq_of_lt p)
    | no p ↦ omega (arith, length-grown lookups i h, mod-lt i pos)
  ]

  All-set {κ} :
      (P : List PeerId → Type κ) (xs : List (List PeerId)) (i : ℕ) (v : List PeerId)
      → P v
      → All P xs
      → All P (set xs i v)
  All-set P [] i v p h = tt
  All-set P (x ∷ xs) zero v p h = (p, h.1)
  All-set P (x ∷ xs) (suc i) v p h = (h.0, All-set P xs i v p h.1)

  module _ (P : PeerId → Type 0) where
    grown-AreQueues :
        (i : ℕ) (lookups : List (List PeerId))
        → AreQueues P i lookups
        → AreQueues P i (grown lookups)
    grown-AreQueues i lookups h =
        elim (ltb (length lookups) paths)
          as (λ (b : Bool). AreQueues P i (if b then lookups ++ ([] ∷ []) else lookups)) [
            | true ↦
                All-append (λ q. All P q × (length q ≤ i)) lookups ([] ∷ []) h
                  ((tt, omega arith), tt)
            | false ↦ h
          ]

    set-AreQueues :
        (i k : ℕ) (lookups : List (List PeerId)) (queue : List PeerId) (p : PeerId)
        → get_elem? lookups k ≡ some queue
        → P p
        → AreQueues P i lookups
        → AreQueues P (suc i) (set lookups k (queue ++ (p ∷ [])))
    set-AreQueues i k lookups queue p found holds h =
        let old = All-get (λ q. All P q × (length q ≤ i)) lookups k queue h found in
        All-set (λ q. All P q × (length q ≤ suc i)) lookups k (queue ++ (p ∷ []))
          (
            All-append P queue (p ∷ []) old.0 (holds, tt),
            omega (arith, old.1, length-append queue (p ∷ [])),
          )
          (All-weaken (λ q. All P q × (length q ≤ i)) (λ q. All P q × (length q ≤ suc i)) lookups
            (λ q l. (l.0, omega (arith, l.1))) h)

    distribute_step :
        (i : ℕ) (p : PeerId) (ps : List PeerId) (s : Paths) {queue : List PeerId}
        → IsOther own p
        → get_elem? (grown s.lookups) (i % paths) ≡ some queue
        → distribute paths own i (p ∷ ps) s
          ≡ distribute paths own (suc i) ps (record {
            visited = public_key_hex p ∷ s.visited;
            lookups = set (grown s.lookups) (i % paths) (queue ++ (p ∷ []));
            results = s.results ++ (p ∷ []);
          })
    unfolding distribute
    distribute_step i p ps s other found = ground arith

    -- The peers from index `i` on, none of them the node itself: they all join a lookup and the
    -- results.
    pub distribute-AreQueues :
        (i : ℕ) (ps : List PeerId) (s : Paths)
        → All (IsOther own) ps
        → All P ps
        → length s.lookups ≡ min paths i
        → AreQueues P i s.lookups
        → (s' : Paths) × (distribute paths own i ps s ≡ ok s')
          × (s'.results ≡ s.results ++ ps)
          × AreQueues P (i + length ps) s'.lookups
          × (length s'.lookups ≡ min paths (i + length ps))
    unfolding distribute
    distribute-AreQueues i [] s others all len queues = (
      s,
      refl,
      sym (append-nil s.results),
      subst (λ n. AreQueues P n s.lookups) (omega arith) queues,
      omega (arith, len),
    )
    distribute-AreQueues i (p ∷ ps) s others all len queues =
        let (queue, found) =
          get_elem?_total (grown s.lookups) (i % paths) (slot_lt s.lookups i len) in
        let (s', e, results, queues', len') =
          distribute-AreQueues (suc i) ps _ others.1 all.1
            (length-set (grown s.lookups) (i % paths) (queue ++ (p ∷ []))
              ∙ length-grown s.lookups i len)
            (set-AreQueues i (i % paths) (grown s.lookups) queue p found all.0
              (grown-AreQueues i s.lookups queues)) in
        (
          s',
          distribute_step i p ps s others.0 found ∙ e,
          results ∙ append_assoc s.results (p ∷ []) ps,
          subst (λ n. AreQueues P n s'.lookups) (omega arith) queues',
          omega (arith, len'),
        )

  -- When the node itself stands among the closest peers, at an index below the number of paths less
  -- one, and another peer follows it, the first loop of `FindNode` panics: the lookup of that peer
  -- is one beyond those that were made.
  pub distribute-panic :
      (before rest : List PeerId) (me next : PeerId) (s : Paths)
      → All (IsOther own) before
      → bytes_beq me.address own ≡ true
      → IsOther own next
      → length s.lookups + length before + 1 < paths
      → distribute paths own (length s.lookups) (before ++ (me ∷ next ∷ rest)) s ≡ panic
  unfolding distribute
  distribute-panic [] rest me next s others mine other small = ground (
    arith,
    length-append s.lookups ([] ∷ []),
    mod-eq_of_lt {n = suc (length s.lookups)} {m = paths} (omega arith),
    get_elem?-eq-none (grown s.lookups) (suc (length s.lookups)),
  )
  distribute-panic (p ∷ before) rest me next s others mine other small =
      let slot : length s.lookups % paths ≡ length s.lookups = mod-eq_of_lt (omega arith) in
      let size : length (grown s.lookups) ≡ suc (length s.lookups) =
        ground (arith, length-append s.lookups ([] ∷ [])) in
      let (queue, found) =
        get_elem?_total (grown s.lookups) (length s.lookups % paths) (omega (arith, slot, size)) in
      let k : ℕ = length s.lookups % paths in
      let next_paths : Paths = record {
        visited = public_key_hex p ∷ s.visited;
        lookups = set (grown s.lookups) k (queue ++ (p ∷ []));
        results = s.results ++ (p ∷ []);
      } in
      let len : length next_paths.lookups ≡ suc (length s.lookups) =
        length-set (grown s.lookups) k (queue ++ (p ∷ [])) ∙ size in
      distribute_step (λ _. Unit) (length s.lookups) p (before ++ (me ∷ next ∷ rest)) s others.0
        found
      ∙ ap (λ n. distribute paths own n (before ++ (me ∷ next ∷ rest)) next_paths) (sym len)
      ∙ distribute-panic before rest me next next_paths others.1 mine other (omega (arith, len))

-- `Xor` leaves the id empty, so the last comparison of `FindNode` tells no two peers apart.
pub key_nearer_lem : (target p q : PeerId) → key_nearer target p q ≡ false
unfolding key_nearer less_than xor_key
key_nearer_lem target p q = refl
