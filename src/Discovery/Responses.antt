-- ===== src/Discovery/Responses.antt =====
-- network/components/discovery/rpc.go: what the responses to the queries of a lookup keep.
use carrier.Prelude.{
  ◌≡◌, refl, ap, sym, ◌∙◌, subst, arith, Bool, true, false, List, [], ◌∷◌, ◌++◌, inl, inr, Bytes,
  if◌then◌else◌, length, length-append, All, All-append, Bool-cases, Option-cases,
}
use carrier.Outcome.{Outcome, ok}
use carrier.Peer.Identity.{PeerId, public_key_hex}
use carrier.Dht.Routes.{RoutingTable, seen}
use carrier.Dht.Invariant.{IsRouting, update-IsRouting, remove_peer-IsRouting}
use carrier.Discovery.Lookup.{
  Answer, keep, valid_peers, query_peer_by_id_ext, Search, drop_failed, join, absorb,
}
use carrier.Discovery.Progress.{IsNode, IsProper, IsSearch}

module _ (self : PeerId) (keys : List Bytes) where
  abbrev pub IsSent : Outcome (List PeerId × RoutingTable) → Type 0
  IsSent o =
      (qs : List PeerId) × (t' : RoutingTable) × (o ≡ ok (qs, t'))
      × IsRouting t'
      × (t'.self ≡ self)
      × All (IsNode self keys) qs

  keep-IsSent :
      (p : PeerId) (o : Outcome (List PeerId × RoutingTable))
      → IsNode self keys p
      → IsSent o
      → IsSent (keep p o)
  keep-IsSent p o h (qs, t', e, v, own, all) = (p ∷ qs, t', ap (keep p) e, v, own, (h, all))

  valid_peers-IsSent :
      (a : Answer) (ps : List PeerId) (t : RoutingTable)
      → IsRouting t
      → t.self ≡ self
      → All (IsNode self keys) ps
      → IsSent (valid_peers a ps t)
  unfolding valid_peers
  valid_peers-IsSent a [] t v own h = ([], t, refl, v, own, tt)
  valid_peers-IsSent a (p ∷ ps) t v own h = elim (Bool-cases (a.online p)) [
    | inl on ↦
        let e : valid_peers a (p ∷ ps) t ≡ keep p (valid_peers a ps t) = ground arith in
        subst IsSent (sym e) (keep-IsSent p _ h.0 (valid_peers-IsSent a ps t v own h.1))
    | inr off ↦ elim (Bool-cases (a.bootstraps p)) [
      | inr lost ↦
          let e : valid_peers a (p ∷ ps) t ≡ valid_peers a ps t = ground arith in
          subst IsSent (sym e) (valid_peers-IsSent a ps t v own h.1)
      | inl found ↦
          let (t', u, v', same) = update-IsRouting t p v h.0.1 in
          let e : valid_peers a (p ∷ ps) t ≡ keep p (valid_peers a ps t') = ground arith in
          subst IsSent (sym e)
            (keep-IsSent p _ h.0 (valid_peers-IsSent a ps t' v' (same ∙ own) h.1))
    ]
  ]

  pub query-IsSent :
      (a : Answer) (t : RoutingTable)
      → IsRouting t
      → t.self ≡ self
      → IsProper self keys a
      → IsSent (query_peer_by_id_ext a t)
  unfolding query_peer_by_id_ext
  query-IsSent a t v own h = elim (Option-cases a.response) [
    | inl e ↦ ([], t, ground arith, v, own, tt)
    | inr (ps, e) ↦
        let eq : query_peer_by_id_ext a t ≡ valid_peers a ps t = ground arith in
        subst IsSent (sym eq) (valid_peers-IsSent a ps t v own (h ps e))
  ]

  pub drop_failed_lem :
      (p : PeerId) (response : List PeerId) (t : RoutingTable)
      → IsRouting t
      → t.self ≡ self
      → IsNode self keys p
      → (t' : RoutingTable) × (drop_failed p response t ≡ ok t') × IsRouting t' × (t'.self ≡ self)
  unfolding drop_failed
  drop_failed_lem p (q ∷ qs) t v own h = (t, refl, v, own)
  drop_failed_lem p [] t v own h =
      let (t', e, v', same) = remove_peer-IsRouting t p v (h.0 ∙ ap (λ i. length i.id) (sym own)) in
      (t', ground arith, v', same ∙ own)

  -- What absorbing a response keeps.
  abbrev pub IsAbsorbed : Search → Outcome Search → Type 0
  IsAbsorbed s o =
      (s' : Search) × (o ≡ ok s')
      × IsSearch self keys s'
      × (s'.asked ≡ s.asked)
      × (s'.visited ≡ s.visited)

  join-IsSearch :
      (p : PeerId) (t : RoutingTable) (s : Search)
      → IsNode self keys p
      → IsRouting t
      → t.self ≡ self
      → IsSearch self keys s
      → IsSearch self keys (join p t s)
        × ((join p t s).asked ≡ s.asked)
        × ((join p t s).visited ≡ s.visited)
        × ((join p t s).routes ≡ t)
  unfolding join
  join-IsSearch p t s h r own v =
      elim (seen (public_key_hex p) s.known)
        as (λ (b : Bool).
          let s' : Search = if b then record s { routes = t } else record s {
            routes = t;
            results = s.results ++ (p ∷ []);
            queue = s.queue ++ (p ∷ []);
          } in
          IsSearch self keys s'
          × (s'.asked ≡ s.asked)
          × (s'.visited ≡ s.visited)
          × (s'.routes ≡ t)) [
            | true ↦ (
              record { routing = r; own = own; asked = v.asked; queue = v.queue; few = v.few },
              refl,
              refl,
              refl,
            )
            | false ↦ (
              record {
                routing = r;
                own = own;
                asked = v.asked;
                queue = All-append (IsNode self keys) s.queue (p ∷ []) v.queue (h, tt);
                few = omega (
                  arith,
                  v.few,
                  length-append s.queue (p ∷ []),
                  length-append s.results (p ∷ []),
                );
              },
              refl,
              refl,
              refl,
            )
          ]

  pub absorb-IsAbsorbed :
      (ps : List PeerId) (s : Search)
      → All (IsNode self keys) ps
      → IsSearch self keys s
      → IsAbsorbed s (absorb ps s)
  unfolding absorb
  absorb-IsAbsorbed [] s h v = (s, refl, v, refl, refl)
  absorb-IsAbsorbed (p ∷ ps) s h v =
      let (t, u, r, same) = update-IsRouting s.routes p v.routing h.0.1 in
      let (v1, asked1, visited1, routes1) = join-IsSearch p t s h.0 r (same ∙ v.own) v in
      let (s', e, v', asked', visited') = absorb-IsAbsorbed ps (join p t s) h.1 v1 in
      (s', ground arith, v', asked' ∙ asked1, visited' ∙ visited1)
