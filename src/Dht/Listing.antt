-- ===== src/Dht/Listing.antt =====
-- dht/routes.go: `GetPeers` and `GetRandomPeers`.
use carrier.Prelude.{
  ◌≡◌, refl, sym, subst, true, false, List, [], ◌∷◌, ◌++◌, arith, Bytes, Bool-cases, All,
  bytes_beq_iff, append-nil, append_assoc, inl, inr,
}
use carrier.Peer.Identity.{PeerId, public_key_hex}
use carrier.Dht.Routes.{Bucket, RoutingTable, seen, visit_bucket, visit_buckets, get_peers}

-- Peers with different keys, none of them among `old`.
abbrev pub IsFresh : List Bytes → List PeerId → Type 0
IsFresh old [] = Unit
IsFresh old (p ∷ ps) = (seen (public_key_hex p) old ≡ false) × IsFresh (public_key_hex p ∷ old) ps

-- `visited` after these peers.
abbrev pub keys_after : List Bytes → List PeerId → List Bytes
keys_after old [] = old
keys_after old (p ∷ ps) = keys_after (public_key_hex p ∷ old) ps

IsFresh-append :
    (old : List Bytes) (ps qs : List PeerId)
    → IsFresh old ps
    → IsFresh (keys_after old ps) qs
    → IsFresh old (ps ++ qs)
IsFresh-append old [] qs h k = k
IsFresh-append old (p ∷ ps) qs h k = (h.0, IsFresh-append (public_key_hex p ∷ old) ps qs h.1 k)

keys_after-append :
    (old : List Bytes) (ps qs : List PeerId)
    → keys_after old (ps ++ qs) ≡ keys_after (keys_after old ps) qs
keys_after-append old [] qs = refl
keys_after-append old (p ∷ ps) qs = keys_after-append (public_key_hex p ∷ old) ps qs

keys_after-seen :
    (k : Bytes) (old : List Bytes) (ps : List PeerId)
    → seen k old ≡ true
    → seen k (keys_after old ps) ≡ true
unfolding seen
keys_after-seen k old [] h = h
keys_after-seen k old (p ∷ ps) h = keys_after-seen k (public_key_hex p ∷ old) ps (ground arith)

seen_head : (k : Bytes) (ks : List Bytes) → seen k (k ∷ ks) ≡ true
unfolding seen
seen_head k ks = rw ((bytes_beq_iff k k).1 refl)

-- The peers that one bucket adds.
visit_bucket_lem :
    (b : Bucket) (visited : List Bytes) (peers : List PeerId)
    → (new : List PeerId) × (visit_bucket b visited peers ≡ (peers ++ new, keys_after visited new))
      × IsFresh visited new
      × All (λ p. seen (public_key_hex p) (keys_after visited new) ≡ true) b
unfolding visit_bucket
visit_bucket_lem [] visited peers = ([], rw append-nil, tt, tt)
visit_bucket_lem (p ∷ b) visited peers = elim (Bool-cases (seen (public_key_hex p) visited)) [
  | inl old ↦
      let (new, e, fresh, all) = visit_bucket_lem b visited peers in
      (new, rw old e, fresh, (keys_after-seen _ visited new old, all))
  | inr first ↦
      let key = public_key_hex p in
      let (new, e, fresh, all) = visit_bucket_lem b (key ∷ visited) (peers ++ (p ∷ [])) in
      (
        p ∷ new,
        rw (first, e, append_assoc),
        (first, fresh),
        (keys_after-seen key (key ∷ visited) new (seen_head key visited), all),
      )
]

visit_buckets_lem :
    (bs : List Bucket) (visited : List Bytes) (peers : List PeerId)
    → (new : List PeerId) × (visit_buckets bs visited peers ≡ peers ++ new)
      × IsFresh visited new
      × All (All (λ p. seen (public_key_hex p) (keys_after visited new) ≡ true)) bs
unfolding visit_buckets
visit_buckets_lem [] visited peers = ([], sym (append-nil peers), tt, tt)
visit_buckets_lem (b ∷ bs) visited peers =
    let (one, e, fresh, all) = visit_bucket_lem b visited peers in
    let (rest, e', fresh', all') = visit_buckets_lem bs (keys_after visited one) (peers ++ one) in
    let joined : keys_after visited (one ++ rest) ≡ keys_after (keys_after visited one) rest =
      keys_after-append visited one rest in
    (
      one ++ rest,
      rw (e, e', append_assoc),
      IsFresh-append visited one rest fresh fresh',
      subst (λ ks. All (All (λ p. seen (public_key_hex p) ks ≡ true)) (b ∷ bs)) (sym joined)
          (later _ b rest all, all'),
    )
  where
    later :
        (ks : List Bytes) (c : Bucket) (rest : List PeerId)
        → All (λ p. seen (public_key_hex p) ks ≡ true) c
        → All (λ p. seen (public_key_hex p) (keys_after ks rest) ≡ true) c
    later ks [] rest a = tt
    later ks (p ∷ c) rest a = (keys_after-seen _ ks rest a.0, later ks c rest a.1)

-- `GetPeers` lists peers with different keys, never that of the node itself, and every peer of
-- every bucket has the key of the node or of a peer on the list.
pub get_peers_lem :
    (t : RoutingTable)
    → IsFresh (public_key_hex t.self ∷ []) (get_peers t)
      × All
          (All (λ p.
            seen (public_key_hex p) (keys_after (public_key_hex t.self ∷ []) (get_peers t)) ≡ true))
          t.buckets
unfolding get_peers
get_peers_lem t =
    let (new, e, fresh, all) = visit_buckets_lem t.buckets (public_key_hex t.self ∷ []) [] in
    rw e (fresh, all)
