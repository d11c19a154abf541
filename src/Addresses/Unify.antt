-- ===== src/Addresses/Unify.antt =====
-- network/address.go. The parsers of `net/url`, `net` and `strconv`, the trimming of spaces and the
-- lookup of a host are parameters: `none` is their error.
use carrier.Prelude.{
  ℕ, Bool, true, false, ◌||◌, List, [], ◌∷◌, ◌++◌, Option, none, some, Bytes, bytes_beq, nat_beq,
  if◌then◌else◌,
}
use carrier.Prelude.Decimal.{decimal}
use carrier.Outcome.{Outcome, ok, panic}
use carrier.Lru.Cache.{Cache, get}

pub record AddressInfo : Type 0 where
  pub protocol : Bytes
  pub host : Bytes
  pub port : ℕ

abbrev has_colon : Bytes → Bool
has_colon [] = false
has_colon (c ∷ cs) = nat_beq c 58 || has_colon cs

-- `net.JoinHostPort`: a host with a colon stands in brackets.
abbrev pub join_host_port : Bytes → Bytes → Bytes
join_host_port host port = (if has_colon host then 91 ∷ host ++ (93 ∷ []) else host) ++ 58 ∷ port

-- `HostPort`
unfoldable pub host_port : AddressInfo → Bytes
host_port info = join_host_port info.host (decimal info.port)

-- `String`: the scheme and `://` stand before it, where there is a scheme.
unfoldable pub to_string : AddressInfo → Bytes
unfolding host_port
to_string info = elim info.protocol [
  | [] ↦ host_port info
  | c ∷ cs ↦ (c ∷ cs) ++ 58 ∷ 47 ∷ 47 ∷ host_port info
]

-- `FormatAddress`
unfoldable pub format_address : Bytes → Bytes → ℕ → Bytes
unfolding to_string
format_address protocol host port =
    to_string (record { protocol = protocol; host = host; port = port })

pub record Net : Type 0 where
  pub parse_url : Bytes → Option (Bytes × Bytes)
  pub split_host_port : Bytes → Option (Bytes × Bytes)
  pub parse_uint16 : Bytes → Option ℕ
  pub trim_space : Bytes → Bytes
  pub is_ip : Bytes → Bool
  pub lookup_host : Bytes → Option (List Bytes)

module _ (net : Net) where
  unfoldable pub parse_address : Bytes → Option AddressInfo
  parse_address address = elim (net.parse_url address) [
    | none ↦ none
    | some (scheme, netloc) ↦ elim (net.split_host_port netloc) [
      | none ↦ none
      | some (host, raw_port) ↦ elim (net.parse_uint16 raw_port) [
        | none ↦ none
        | some port ↦ some (record { protocol = scheme; host = host; port = port })
      ]
    ]
  ]

  -- `"::1"` becomes `"127.0.0.1"`.
  abbrev fix_localhost : Bytes → Bytes
  fix_localhost host =
      if bytes_beq host (58 ∷ 58 ∷ 49 ∷ [])
      then 49 ∷ 50 ∷ 55 ∷ 46 ∷ 48 ∷ 46 ∷ 48 ∷ 46 ∷ 49 ∷ []
      else host

  -- The function that fills the cache.
  unfoldable pub resolve_host : Bytes → Option Bytes
  resolve_host host = elim (net.is_ip host) [
    | true ↦ some host
    | false ↦ elim (net.lookup_host host) [
      | none ↦ none
      | some [] ↦ none
      | some (address ∷ addresses) ↦ some (fix_localhost address)
    ]
  ]

  -- `ToUnifiedHost`, with the cache of lookups.
  unfoldable pub to_unified_host : Bytes → Cache Bytes → Outcome (Option Bytes × Cache Bytes)
  unfolding resolve_host get
  to_unified_host host cache = get host (resolve_host host) cache

  -- `ToUnifiedAddress`: `none` is one of its errors.
  unfoldable pub to_unified_address : Bytes → Cache Bytes → Outcome (Option Bytes × Cache Bytes)
  unfolding parse_address to_unified_host to_string
  to_unified_address address cache = elim (net.trim_space address) [
    | [] ↦ ok (none, cache)
    | c ∷ cs ↦ elim (parse_address (c ∷ cs)) [
      | none ↦ ok (none, cache)
      | some info ↦ elim (to_unified_host info.host cache) [
        | panic ↦ panic
        | ok (none, cache') ↦ ok (none, cache')
        | ok (some host, cache') ↦ ok (some (to_string (record info { host = host })), cache')
      ]
    ]
  ]
