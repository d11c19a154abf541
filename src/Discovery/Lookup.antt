-- ===== src/Discovery/Lookup.antt =====
-- network/components/discovery/rpc.go: `queryPeerByIDExt` and `performLookupClosest`. The queries in
-- flight are the list `asked`, whose length is the source's `pending`; their answers come in
-- any order. The lock of `FindNode` is held for the whole of one lookup.
use carrier.Prelude.{
  ℕ, zero, suc, Bool, true, false, ◌&&◌, List, [], ◌∷◌, ◌++◌, Option, none, some, Bytes, ltb,
  if◌then◌else◌, length, get_elem?, take,
}
use carrier.Outcome.{Outcome, ok, panic}
use carrier.Peer.Identity.{PeerId, xor_id, less_than, public_key_hex}
use carrier.Dht.Routes.{RoutingTable, bucket_size, update, remove_peer, seen}

-- One query that was answered: which of those in flight, counted from the oldest; the peers of the
-- response, or `none` where the client, the request or the type of the answer failed; and for
-- each peer whether it has a client, or else bootstrapping to its address finds one.
pub record Answer : Type 0 where
  pub which : ℕ
  pub response : Option (List PeerId)
  pub online : PeerId → Bool
  pub bootstraps : PeerId → Bool

abbrev pub keep :
    PeerId → Outcome (List PeerId × RoutingTable) → Outcome (List PeerId × RoutingTable)
keep p (ok (ps, t)) = ok (p ∷ ps, t)
keep p panic = panic

-- The loop over the peers of a response: the valid ones.
unfoldable pub valid_peers :
    Answer → List PeerId → RoutingTable → Outcome (List PeerId × RoutingTable)
valid_peers a [] t = ok ([], t)
valid_peers a (p ∷ ps) t = elim (a.online p) [
  | true ↦ keep p (valid_peers a ps t)
  | false ↦ elim (a.bootstraps p) [
    | false ↦ valid_peers a ps t
    | true ↦ elim (update t p) [ panic ↦ panic | ok t' ↦ keep p (valid_peers a ps t') ]
  ]
]

-- `queryPeerByIDExt`: the peers that it sends back.
unfoldable pub query_peer_by_id_ext : Answer → RoutingTable → Outcome (List PeerId × RoutingTable)
unfolding valid_peers
query_peer_by_id_ext a t = elim a.response [ none ↦ ok ([], t) | some ps ↦ valid_peers a ps t ]

pub record Search : Type 0 where
  pub asked : List PeerId
  pub queue : List PeerId
  pub results : List PeerId
  pub known : List Bytes
  pub visited : List Bytes
  pub routes : RoutingTable

-- A new lookup with its queue, on the shared keys and table.
abbrev pub searching : List PeerId → List Bytes → RoutingTable → Search
searching queue visited routes = record {
  asked = [];
  queue = queue;
  results = [];
  known = [];
  visited = visited;
  routes = routes;
}

-- The first loop: as many of the queue as `alpha` allows are asked, and known.
unfoldable pub ask_queue : ℕ → List PeerId → Search → Search
ask_queue alpha [] s = record s { queue = [] }
ask_queue alpha (p ∷ ps) s =
    let rest =
      ask_queue alpha ps
        (record s { asked = s.asked ++ (p ∷ []); known = public_key_hex p ∷ s.known }) in
    if ltb (length s.asked) alpha then rest else record s { queue = p ∷ ps }

-- The answer of one query takes it out of those in flight.
unfoldable pub pick : ℕ → PeerId → List PeerId → PeerId × List PeerId
pick zero p ps = (p, ps)
pick (suc n) p [] = (p, [])
pick (suc n) p (q ∷ ps) = let (r, rest) = pick n q ps in (r, p ∷ rest)

-- `if len(response) == 0 { RemovePeer }`
unfoldable pub drop_failed : PeerId → List PeerId → RoutingTable → Outcome RoutingTable
drop_failed peer (p ∷ ps) t = ok t
drop_failed peer [] t = elim (remove_peer t peer) [ panic ↦ panic | ok (t', was) ↦ ok t' ]

-- A peer of the response joins the results and the queue unless it is known.
unfoldable pub join : PeerId → RoutingTable → Search → Search
join p t s =
    if seen (public_key_hex p) s.known
    then record s { routes = t }
    else record s { routes = t; results = s.results ++ (p ∷ []); queue = s.queue ++ (p ∷ []) }

-- The loop over the response: each peer updates the table.
unfoldable pub absorb : List PeerId → Search → Outcome Search
unfolding join
absorb [] s = ok s
absorb (p ∷ ps) s = elim (update s.routes p) [ panic ↦ panic | ok t ↦ absorb ps (join p t s) ]

-- The order of the queue compares the results at the places of its items.
unfoldable pub result_nearer : PeerId → List PeerId → ℕ → ℕ → Bool
result_nearer target results i j = elim (get_elem? results i) [
  | none ↦ false
  | some left ↦ elim (get_elem? results j) [
    | none ↦ false
    | some right ↦ less_than (xor_id left target) (xor_id right target)
  ]
]

-- The last loop: items of the queue that were not visited are asked.
unfoldable pub schedule : ℕ → List PeerId → Search → Search
schedule alpha [] s = s
schedule alpha (p ∷ ps) s =
    let skipped = schedule alpha ps s in
    let next =
      schedule alpha ps
        (record s { asked = s.asked ++ (p ∷ []); visited = public_key_hex p ∷ s.visited }) in
    if ltb (length s.asked) alpha
    then (if seen (public_key_hex p) s.visited then skipped else next)
    else s

-- `sort_slice less xs` is what `sort.Slice` makes of `xs` by a test `less` on places.
module _ (sort_slice : (ℕ → ℕ → Bool) → List PeerId → List PeerId) (target : PeerId)
    (alpha : ℕ) where
  -- Sorting a queue of two or more looks at every place of it, and panics on one beyond the results.
  unfoldable pub order_queue : Search → Outcome Search
  unfolding result_nearer
  order_queue s =
      if ltb 1 (length s.queue) && ltb (length s.results) (length s.queue)
      then panic
      else ok (record s {
        queue = take bucket_size (sort_slice (result_nearer target s.results) s.queue);
      })

  -- What follows the receipt of an answer.
  unfoldable pub after_answer : PeerId → List PeerId → Search → Outcome Search
  unfolding drop_failed absorb order_queue schedule
  after_answer peer response s = elim (drop_failed peer response s.routes) [
    | panic ↦ panic
    | ok t ↦ elim (absorb response (record s { routes = t })) [
      | panic ↦ panic
      | ok s1 ↦ elim (order_queue s1) [ panic ↦ panic | ok s2 ↦ ok (schedule alpha s2.queue s2) ]
    ]
  ]

  -- `for lookup.pending > 0`, over the answers in the order in which they come.
  unfoldable pub search : List Answer → Search → Outcome Search
  unfolding pick query_peer_by_id_ext after_answer
  search [] s = ok s
  search (a ∷ answers) s = elim s.asked [
    | [] ↦ ok s
    | p ∷ ps ↦
        let (peer, rest) = pick a.which p ps in
        elim (query_peer_by_id_ext a s.routes) [
          | panic ↦ panic
          | ok (response, t) ↦
              elim (after_answer peer response (record s { asked = rest; routes = t })) [
                | panic ↦ panic
                | ok s' ↦ search answers s'
              ]
        ]
  ]

  -- `performLookupClosest`
  unfoldable pub perform_lookup_closest : List Answer → Search → Outcome Search
  unfolding ask_queue search
  perform_lookup_closest answers s = search answers (ask_queue alpha s.queue s)
