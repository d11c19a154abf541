-- ===== src/Tests/Measures.antt =====
-- network/network.go and network/components: broadcasts, joining, samples and proxy servers on
-- concrete inputs.
use carrier.Prelude.{
  none, ℕ, zero, suc, ◌≡◌, refl, arith, bytes_eq, Bool, true, false, List, [], ◌∷◌, some, Bytes,
  get_elem?, All,
}
use carrier.Prelude.Table.{load, has, store}
use carrier.Prelude.Decimal.{decimal}
use carrier.Lru.Cache.{new_cache}
use carrier.Outcome.{Outcome, ok}
use carrier.Peer.Identity.{PeerId, public_key_hex, hex_encode}
use carrier.Requests.Prepare.{prepare, prepare_message, add_signature}
use carrier.ConnMgr.State.{reachable, tcp, new_client, new_multi_stream, Client, Manager}
use carrier.ConnMgr.Operations.{client_peer_id, client_address}
use carrier.ConnMgr.Sync.{IsSync}
use carrier.ConnMgr.Writing.{lacks_conn}
use carrier.Telling.Broadcasts.{broadcast, close_network}
use carrier.Telling.Reach.{IsOpen, deliveries, broadcast-deliveries}
use carrier.Telling.Shutdown.{IsOwned, IsGone, close_network-IsGone}
use carrier.Addresses.Filter.{filter_peers}
use carrier.Joining.Connect.{
  bootstrap_loop, Meeting, bootstrap, connect_peer, reconnect_peer, connect_proxy_server,
}
use carrier.Joining.Reached.{bootstrap-IsSync}
use carrier.Metric.Samples.{TimeMetric, begun, start_metric, begin_sample, end_sample}
use carrier.Metric.Recent.{IsMetric, starts}
use carrier.Metric.Runs.{begins, ends, run_metric, run_metric-latest}
use carrier.Metric.Misplaced.{end_sample-misplaced}
use carrier.Proxy.Servers.{ProxyService}
use carrier.Proxy.Connecting.{tcp_component_startup}
use carrier.Proxy.RoundRobin.{IsLoop, tcp_component_startup-IsLoop}
use carrier.Tests.Managers.{open_network, open_network-supported, two_clients, two_clients-IsSync}
use carrier.Tests.Networks.{plain_net, no_lookups, no_lookups-IsCoherent}
use carrier.Tests.Receptions.{plain_speaker}
use carrier.Tests.Requesting.{prepared}

abbrev keyed_id : ℕ → ℕ → PeerId
keyed_id address key = record {
  address = address ∷ [];
  id = [];
  net_key = key ∷ [];
  connection_id = [];
}

-- The digits of the keys 170 and 187.
abbrev first_key : Bytes
first_key = 97 ∷ 97 ∷ []

abbrev second_key : Bytes
second_key = 98 ∷ 98 ∷ []

abbrev joined_client : ℕ → Client
joined_client zero = record (new_client (1 ∷ [])) {
  id = some (keyed_id 1 170);
  pub_key = first_key;
}
joined_client (suc r) = record (new_client (2 ∷ [])) {
  id = some (keyed_id 2 187);
  pub_key = second_key;
}

-- Two clients, under their keys.
abbrev joined : Manager
joined = record two_clients {
  peers = (first_key, 0) ∷ (second_key, 1) ∷ [];
  connections =
      (first_key, record { conn = 3; message_nonce = 0 })
      ∷ (second_key, record { conn = 4; message_nonce = 7 })
      ∷ [];
  conn_states = (first_key, reachable) ∷ (second_key, reachable) ∷ [];
  streams = (first_key, new_multi_stream) ∷ (second_key, new_multi_stream) ∷ [];
  clients = joined_client;
}

joined-IsSync : IsSync joined
unfolding load has
joined-IsSync k = ground arith

joined-keyed :
    (k : Bytes) (r : ℕ) → load k joined.peers ≡ some r → client_peer_id (joined.clients r) ≡ k
unfolding load client_peer_id public_key_hex hex_encode new_client
joined-keyed k r h = ground arith

joined-IsOpen : IsOpen plain_speaker tcp joined
unfolding lacks_conn
joined-IsOpen = record {
  own = refl;
  takes = λ m. refl;
  in_sync = joined-IsSync;
  keyed = joined-keyed;
  held = λ k c h. refl;
}

prepared-made :
    prepare_message plain_speaker.policy plain_speaker.bodies false plain_speaker.node
      (some (8 ∷ []))
    ≡ carrier.Wire.Result.ok (prepared (8 ∷ []))
unfolding prepare_message prepare add_signature
prepared-made = refl

-- The second key is visited first, and a key that is no peer in between.
abbrev visits : List Bytes
visits = second_key ∷ (7 ∷ []) ∷ first_key ∷ []

broadcast-deliveries_example :
    (broadcast plain_speaker false visits (some (8 ∷ [])) joined).sent
    ≡ deliveries plain_speaker tcp (prepared (8 ∷ [])) visits joined
broadcast-deliveries_example =
    broadcast-deliveries plain_speaker false tcp visits (some (8 ∷ [])) joined prepared-made
      ((refl, (refl, tt)), ((refl, tt), (tt, tt))) joined-IsOpen

joined-IsOwned : IsOwned joined
unfolding load client_address new_client
joined-IsOwned = record {
  in_sync = joined-IsSync;
  keyed = joined-keyed;
  still_open = λ k r h. ground arith;
  addressed = λ k r h empty. ground arith;
}

close_network-IsGone_example :
    ((close_network (λ c. true) visits joined).1 ≡ none)
    × All (IsGone (close_network (λ c. true) visits joined).0) visits
close_network-IsGone_example =
    close_network-IsGone (λ c. true) visits joined joined-IsOwned (λ k c h. refl) (omega arith)

-- Every peer answers.
abbrev answering : Meeting
answering = record { outside = open_network; others = λ n. n; answered = true }

-- One address to join by.
abbrev after_bootstrap : List Bytes × Manager
after_bootstrap =
    bootstrap_loop plain_speaker (λ k. answering) (112 ∷ []) 0
      ((9 ∷ 58 ∷ 47 ∷ 47 ∷ 1 ∷ 58 ∷ 56 ∷ 48 ∷ []) ∷ []) two_clients

bootstraps :
    bootstrap plain_speaker plain_net no_lookups
      (λ k. answering)
      (112 ∷ [])
      ((1 ∷ []) ∷ [])
      two_clients
    ≡ ok after_bootstrap
unfolding bootstrap filter_peers new_cache store decimal
bootstraps = refl

bootstrap-IsSync_example :
    IsSync after_bootstrap.1
    × IsSync (connect_peer plain_speaker answering (112 ∷ []) (4 ∷ []) two_clients).1
    × IsSync (reconnect_peer plain_speaker answering (112 ∷ []) (4 ∷ []) two_clients).1
    × IsSync
        (connect_proxy_server plain_speaker answering.outside (112 ∷ []) (4 ∷ []) two_clients).1
bootstrap-IsSync_example =
    bootstrap-IsSync plain_speaker plain_net no_lookups (λ k. answering) (112 ∷ []) ((1 ∷ []) ∷ [])
      (4 ∷ []) two_clients no_lookups-IsCoherent
      (λ k. record { supported = open_network-supported; keeps = λ n h. h }) two_clients-IsSync
      bootstraps

-- Three requests, the first of which has its reply.
run_metric-latest_example :
    (m : TimeMetric) × (run_metric
        (begins 5 ∷ ends true 0 6 ∷ begins 7 ∷ begins 8 ∷ [])
        (start_metric 2)
      ≡ ok m)
    × (starts m ≡ 7 ∷ 8 ∷ [])
run_metric-latest_example =
    run_metric-latest 2 (begins 5 ∷ ends true 0 6 ∷ begins 7 ∷ begins 8 ∷ []) (omega arith)
      (tt, (omega arith, (tt, (tt, tt)))) (omega arith, (omega arith, (omega arith, tt)))

abbrev two_samples : TimeMetric
two_samples = record {
  time_metric = begun 5 ∷ begun 6 ∷ [];
  index = 2;
  is_full = true;
  sample_size = 2;
}

two_samples-IsMetric : IsMetric two_samples
two_samples-IsMetric = record {
  sized = refl;
  some_size = omega arith;
  within = omega arith;
  started = (omega arith, (omega arith, tt));
}

end_sample-misplaced_example :
    (w : ℕ) × (m1 : TimeMetric) × (m2 : TimeMetric) × (begin_sample 10 two_samples ≡ ok (w, m1))
    × (begin_sample 20 m1 ≡ ok (w, m2))
    × (m3 : TimeMetric) × (end_sample true w 21 m2 ≡ ok m3)
    × (get_elem? m3.time_metric w ≡ some (record { start_time = 20; end_time = 21; distance = 0 }))
end_sample-misplaced_example =
    end_sample-misplaced 10 20 21 two_samples two_samples-IsMetric refl (omega arith)

-- Three servers, of which the last one is in use.
abbrev three_servers : ProxyService
three_servers = record {
  enable = true;
  servers =
      record { ip = 1 ∷ []; peer_id = 11 ∷ [] }
      ∷ record { ip = 2 ∷ []; peer_id = 12 ∷ [] }
      ∷ record { ip = 3 ∷ []; peer_id = 13 ∷ [] }
      ∷ [];
  work_id = 2;
}

-- The second attempt succeeds.
abbrev second_reached : Bytes × Bytes → ℕ → Outcome (Bool × ℕ)
second_reached server zero = ok (false, 1)
second_reached server (suc k) = ok (true, suc (suc k))

tcp_component_startup-IsLoop_example :
    IsLoop second_reached 3 three_servers (tcp_component_startup second_reached three_servers 0)
tcp_component_startup-IsLoop_example =
    tcp_component_startup-IsLoop second_reached three_servers 0
      (record { few = omega arith; works = omega arith }) refl
