-- ===== src/Discovery/Progress.antt =====
-- network/components/discovery/rpc.go: what the steps of a lookup keep.
use carrier.Prelude.{
  ℕ, suc, ◌+◌, ◌≤◌, ◌<◌, ◌≡◌, refl, ap, sym, ◌∙◌, subst, arith, true, false, List, [], ◌∷◌, ◌++◌,
  some, inl, inr, Bytes, bytes_beq_iff, ltb, if◌then◌else◌, length, length-append, All, All-append,
  Bool-cases,
}
use carrier.Prelude.Words.{IsBytes}
use carrier.Peer.Identity.{PeerId, public_key_hex}
use carrier.Dht.Routes.{seen}
use carrier.Dht.Invariant.{IsRouting}
use carrier.Discovery.Lookup.{Answer, Search, schedule}

-- How many of the keys were not visited.
abbrev pub fresh : List Bytes → List Bytes → ℕ
fresh [] visited = 0
fresh (u ∷ us) visited = if seen u visited then fresh us visited else suc (fresh us visited)

fresh_le : (us visited : List Bytes) (k : Bytes) → fresh us (k ∷ visited) ≤ fresh us visited
unfolding seen
fresh_le [] visited k = omega arith
fresh_le (u ∷ us) visited k = ground (arith, fresh_le us visited k)

fresh-visit :
    (us visited : List Bytes) (k : Bytes)
    → seen k us ≡ true
    → seen k visited ≡ false
    → fresh us (k ∷ visited) < fresh us visited
unfolding seen
fresh-visit [] visited k h new = cc
fresh-visit (u ∷ us) visited k h new =
    ground
      (arith, fresh-visit us visited k, fresh_le us visited k, bytes_beq_iff u k, bytes_beq_iff k u)

-- A peer of the network: an id of bytes of the size of the node's own, and a key of the list.
abbrev pub IsNode : PeerId → List Bytes → PeerId → Type 0
IsNode self keys p =
    (length p.id ≡ length self.id) × IsBytes p.id × (seen (public_key_hex p) keys ≡ true)

abbrev asking : PeerId → Search → Search
asking p s = record s { asked = s.asked ++ (p ∷ []); visited = public_key_hex p ∷ s.visited }

abbrev pub IsProper : PeerId → List Bytes → Answer → Type 0
IsProper self keys a = (ps : List PeerId) → a.response ≡ some ps → All (IsNode self keys) ps

module _ (self : PeerId) (keys : List Bytes) where
  -- A lookup at the head of its loop.
  pub record IsSearch (s : Search) : Type 0 where
    pub routing : IsRouting s.routes
    pub own : s.routes.self ≡ self
    pub asked : All (IsNode self keys) s.asked
    pub queue : All (IsNode self keys) s.queue
    pub few : length s.queue ≤ length s.results

  -- The answers that the lookup can still wait for.
  abbrev pub budget : Search → ℕ
  budget s = length s.asked + fresh keys s.visited

  pub record IsScheduled (s s' : Search) : Type 0 where
    pub asked : All (IsNode self keys) s'.asked
    pub spent : budget s' ≤ budget s
    pub same : (s'.queue ≡ s.queue) × (s'.results ≡ s.results) × (s'.routes ≡ s.routes)

  pub scheduled-IsSearch : (s s' : Search) → IsSearch s → IsScheduled s s' → IsSearch s'
  scheduled-IsSearch s s' v d = record {
    routing = subst IsRouting (sym d.same.2) v.routing;
    own = ap (λ t. t.self) d.same.2 ∙ v.own;
    asked = d.asked;
    queue = subst (All (IsNode self keys)) (sym d.same.0) v.queue;
    few =
        omega (arith, v.few, ap (length {A = PeerId}) d.same.0, ap (length {A = PeerId}) d.same.1);
  }

  pub schedule-IsScheduled :
      (alpha : ℕ) (ps : List PeerId) (s : Search)
      → All (IsNode self keys) ps
      → All (IsNode self keys) s.asked
      → IsScheduled s (schedule alpha ps s)
  unfolding schedule
  schedule-IsScheduled alpha [] s h asked = record {
    asked = asked;
    spent = omega arith;
    same = (refl, refl, refl);
  }
  schedule-IsScheduled alpha (p ∷ ps) s h asked = elim (Bool-cases (ltb (length s.asked) alpha)) [
    | inr full ↦
        let e : schedule alpha (p ∷ ps) s ≡ s = ground arith in
        subst (IsScheduled s) (sym e)
          (record { asked = asked; spent = omega arith; same = (refl, refl, refl) })
    | inl room ↦ elim (Bool-cases (seen (public_key_hex p) s.visited)) [
      | inl old ↦
          let e : schedule alpha (p ∷ ps) s ≡ schedule alpha ps s = ground arith in
          subst (IsScheduled s) (sym e) (schedule-IsScheduled alpha ps s h.1 asked)
      | inr new ↦
          let e : schedule alpha (p ∷ ps) s ≡ schedule alpha ps (asking p s) = ground arith in
          let next =
            schedule-IsScheduled alpha ps (asking p s) h.1
              (All-append (IsNode self keys) s.asked (p ∷ []) asked (h.0, tt)) in
          subst (IsScheduled s) (sym e) (record {
            asked = next.asked;
            spent = omega (
              arith,
              next.spent,
              length-append s.asked (p ∷ []),
              fresh-visit keys s.visited (public_key_hex p) h.0.2 new,
            );
            same = next.same;
          })
    ]
  ]
