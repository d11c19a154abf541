-- ===== src/Discovery/Rounds.antt =====
-- network/components/discovery/rpc.go: one round of a lookup: an answer, and the queries that
-- follow it.
use carrier.Prelude.{
  ℕ, zero, suc, ◌+◌, ◌≤◌, ◌<◌, ◌≡◌, refl, ap, ap₂, sym, ◌∙◌, subst, arith, Bool, List, [], ◌∷◌,
  Bytes, length, take, length-take, All, All-take,
}
use mathlib.Core.List.{Permᴰ}
use carrier.Outcome.{ok}
use carrier.Peer.Identity.{PeerId}
use carrier.Dht.Routes.{RoutingTable, bucket_size}
use carrier.Discovery.Lookup.{
  Answer, query_peer_by_id_ext, Search, pick, schedule, result_nearer, order_queue, after_answer,
  search,
}
use carrier.Discovery.Progress.{
  fresh, IsNode, IsProper, IsSearch, budget, scheduled-IsSearch, schedule-IsScheduled,
}
use carrier.Discovery.Responses.{query-IsSent, drop_failed_lem, IsAbsorbed, absorb-IsAbsorbed}

-- What `sort.Slice` is documented to do: the result has the same items.
abbrev pub SortsSlice : ((ℕ → ℕ → Bool) → List PeerId → List PeerId) → Type 0
SortsSlice sort_slice = (less : ℕ → ℕ → Bool) (xs : List PeerId) → Permᴰ (sort_slice less xs) xs

pub All-perm {ℓ κ} :
    {A : Type ℓ} (P : A → Type κ) {xs ys : List A} → Permᴰ xs ys → All P ys → All P xs
All-perm P Permᴰ.nil h = tt
All-perm P (Permᴰ.cons e perm) h = (subst P (sym e) h.0, All-perm P perm h.1)
All-perm P (Permᴰ.swap e f) h = (subst P (sym e) h.1.0, (subst P (sym f) h.0, h.1.1))
All-perm P (Permᴰ.trans p q) h = All-perm P p (All-perm P q h)

pub length-perm {ℓ} : {A : Type ℓ} {xs ys : List A} → Permᴰ xs ys → length xs ≡ length ys
length-perm Permᴰ.nil = refl
length-perm (Permᴰ.cons e perm) = ap suc (length-perm perm)
length-perm (Permᴰ.swap e f) = refl
length-perm (Permᴰ.trans p q) = length-perm p ∙ length-perm q

module _ (sort_slice : (ℕ → ℕ → Bool) → List PeerId → List PeerId) (sorts : SortsSlice sort_slice)
    (target : PeerId) (alpha : ℕ) (self : PeerId) (keys : List Bytes) where
  order_queue_lem :
      (s : Search)
      → IsSearch self keys s
      → IsAbsorbed self keys s (order_queue sort_slice target alpha s)
  unfolding order_queue
  order_queue_lem s v =
      let ordered = sort_slice (result_nearer target s.results) s.queue in
      (
        record s { queue = take bucket_size ordered },
        ground (arith, v.few),
        record {
          routing = v.routing;
          own = v.own;
          asked = v.asked;
          queue =
              All-take (IsNode self keys) bucket_size ordered
                (All-perm (IsNode self keys) (sorts _ s.queue) v.queue);
          few = omega (
            arith,
            v.few,
            length-take bucket_size ordered,
            length-perm (sorts (result_nearer target s.results) s.queue),
          );
        },
        refl,
        refl,
      )

  pick_lem :
      (n : ℕ) (p : PeerId) (ps : List PeerId)
      → All (IsNode self keys) (p ∷ ps)
      → IsNode self keys (pick n p ps).0
        × All (IsNode self keys) (pick n p ps).1
        × (length (pick n p ps).1 ≡ length ps)
  unfolding pick
  pick_lem zero p ps h = (h.0, h.1, refl)
  pick_lem (suc n) p [] h = (h.0, tt, refl)
  pick_lem (suc n) p (q ∷ ps) h =
      let (node, rest, len) = pick_lem n q ps h.1 in (node, (h.0, rest), ap suc len)

  same_budget :
      (s' : Search) {asked : List PeerId} {visited : List Bytes}
      → s'.asked ≡ asked
      → s'.visited ≡ visited
      → budget self keys s' ≡ length asked + fresh keys visited
  same_budget s' e f = ap₂ (λ xs ks. length xs + fresh keys ks) e f

  -- One round: the lookup goes on from a valid state to one, and waits for no more answers.
  after_answer_lem :
      (peer : PeerId) (response : List PeerId) (s : Search)
      → IsNode self keys peer
      → All (IsNode self keys) response
      → IsSearch self keys s
      → (s' : Search) × (after_answer sort_slice target alpha peer response s ≡ ok s')
        × IsSearch self keys s'
        × (budget self keys s' ≤ budget self keys s)
  unfolding after_answer
  after_answer_lem peer response s node all v =
      let (t, e0, r, own) = drop_failed_lem self keys peer response s.routes v.routing v.own node in
      let v0 : IsSearch self keys (record s { routes = t }) = record {
        routing = r;
        own = own;
        asked = v.asked;
        queue = v.queue;
        few = v.few;
      } in
      let (s1, e1, v1, asked1, visited1) =
        absorb-IsAbsorbed self keys response (record s { routes = t }) all v0 in
      let (s2, e2, v2, asked2, visited2) = order_queue_lem s1 v1 in
      let done = schedule-IsScheduled self keys alpha s2.queue s2 v2.queue v2.asked in
      (
        schedule alpha s2.queue s2,
        ground arith,
        scheduled-IsSearch self keys s2 _ v2 done,
        omega (arith, done.spent, same_budget s2 (asked2 ∙ asked1) (visited2 ∙ visited1)),
      )

  search_step :
      (a : Answer) (answers : List Answer) (s : Search) {p : PeerId} {ps response : List PeerId}
      {t : RoutingTable} {s' : Search}
      → s.asked ≡ p ∷ ps
      → query_peer_by_id_ext a s.routes ≡ ok (response, t)
      → after_answer sort_slice target alpha
          (pick a.which p ps).0
          response
          (record s { asked = (pick a.which p ps).1; routes = t })
        ≡ ok s'
      → search sort_slice target alpha (a ∷ answers) s ≡ search sort_slice target alpha answers s'
  unfolding search
  search_step a answers s here query after = ground arith

  pub round :
      (a : Answer) (s : Search) {p : PeerId} {ps : List PeerId}
      → IsProper self keys a
      → IsSearch self keys s
      → s.asked ≡ p ∷ ps
      → (s' : Search) × ((answers : List Answer)
          → search sort_slice target alpha (a ∷ answers) s
            ≡ search sort_slice target alpha answers s')
        × IsSearch self keys s'
        × (budget self keys s' < budget self keys s)
  round a s {p} {ps} proper v here =
      let (response, t, eq, r, own, all) =
        query-IsSent self keys a s.routes v.routing v.own proper in
      let (node, rest, len) = pick_lem a.which p ps (subst (All (IsNode self keys)) here v.asked) in
      let s0 : Search = record s { asked = (pick a.which p ps).1; routes = t } in
      let (s', after, v', less) =
        after_answer_lem (pick a.which p ps).0 response s0 node all
          (record { routing = r; own = own; asked = rest; queue = v.queue; few = v.few }) in
      (
        s',
        λ answers. search_step a answers s here eq after,
        v',
        omega (arith, less, len, ap (length {A = PeerId}) here),
      )
