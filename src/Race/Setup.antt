-- ===== src/Race/Setup.antt =====
-- plugin/race/setup.go: the configuration of the plugin, and its upstreams.
use homedns.Prelude.{
  ℕ, zero, suc, ◌*◌, Bool, true, false, not, List, [], ◌∷◌, ◌++◌, Option, none, some, Bytes, codes,
  length, is_empty, str_eq, ltb, if◌then◌else◌, Result, ok, err, ◌>>=◌, ◌>>◌, ℤ, positive,
}
use homedns.Corefile.{Line, Occurrence, lines_of, TextLib}
use homedns.Race.{max_idle_conns}
pub mod Reads
pub mod Proxies
pub mod Upstreams

-- `defaultExpire`, 10 seconds.
abbrev pub default_expire : ℕ
default_expire = 10 * 1000000000

-- The transports of package transport that the code tells apart.
pub data Transport : Type 0 where
  dns tls : Transport
  other : Bytes → Transport

-- The fields of a tls.Config that the code sets.
pub record TlsConfig : Type 0 where
  pub server_name : Bytes
  pub session_cache : ℕ

-- An upstream, as far as the code sets it up.
pub record Proxy : Type 0 where
  pub addr : Bytes
  pub trans : Transport
  pub tls_config : Option TlsConfig
  pub expire : ℕ
  pub max_idle : ℕ

pub record Race : Type 0 where
  pub from : Bytes
  pub tls_server_name : Bytes
  pub expire : ℕ
  pub proxies : List Proxy

-- What CoreDNS makes of a zone, of addresses and of an address's prefix (Host.NormalizeExact,
-- parse.HostPortOrFile and parse.Transport), and whether tls.NewTLSConfigFromArgs succeeds.
pub record UpstreamLib : Type 0 where
  pub normalize_exact : Bytes → List Bytes
  pub host_port_or_file : List Bytes → Option (List Bytes)
  pub transport : Bytes → Transport × Bytes
  pub tls_from_args : Bool

pub data ConfigErr : Type 0 where
  configured_twice arg_err too_few : ConfigErr
  bad_zone bad_expire unknown_property unsupported : Bytes → ConfigErr
  bad_hosts bad_tls : ConfigErr

abbrev pub Parsed : Type 0 → Type 0
Parsed = Result ConfigErr

abbrev pub new_race : Race
new_race = record { from = []; tls_server_name = []; expire = default_expire; proxies = [] }

-- `c.Args(&rc.from)` and then `c.RemainingArgs`. Without an argument the brace is taken for one.
unfoldable pub split_args : List Bytes → Option (List Line) → Option (Bytes × List Bytes)
split_args (from ∷ to) block = some (from, to)
split_args [] (some lines) = some (codes "{", [])
split_args [] none = none

unfoldable pub one_zone : Bytes → List Bytes → Parsed Bytes
one_zone from (zone ∷ []) = ok zone
one_zone from _ = err (bad_zone from)

unfoldable pub one_arg : List Bytes → Parsed Bytes
one_arg (arg ∷ []) = ok arg
one_arg _ = err arg_err

-- The duration of `expire`, if it parses and is positive.
unfoldable pub check_expire : Bytes → Option ℤ → Parsed ℕ
check_expire raw none = err (bad_expire raw)
check_expire raw (some d) = elim (positive d) [ none ↦ err (bad_expire raw) | some n ↦ ok n ]

-- The proxy of a host, whose TLS configuration is set if its transport is TLS.
unfoldable pub new_proxy : TlsConfig → ℕ → Bytes → Transport × Bytes → Parsed Proxy
new_proxy config expire host (dns, addr) = ok (record {
  addr = addr;
  trans = dns;
  tls_config = none;
  expire = expire;
  max_idle = max_idle_conns;
})
new_proxy config expire host (tls, addr) = ok (record {
  addr = addr;
  trans = tls;
  tls_config = some config;
  expire = expire;
  max_idle = max_idle_conns;
})
new_proxy config expire host (other name, addr) = err (unsupported host)

module _ (txt : TextLib) (up : UpstreamLib) where
  -- The loop over the hosts.
  unfoldable pub add_proxies : TlsConfig → List Bytes → Race → Parsed Race
  add_proxies config [] rc = ok rc
  add_proxies config (host ∷ hosts) rc =
      new_proxy config rc.expire host (up.transport host) >>= λ p.
      add_proxies config hosts (record rc { proxies = rc.proxies ++ p ∷ [] })

  unfoldable pub add_hosts : Option (List Bytes) → Race → Parsed Race
  add_hosts none rc = err bad_hosts
  add_hosts (some hosts) rc =
      if not up.tls_from_args
      then err bad_tls
      else add_proxies (record { server_name = rc.tls_server_name; session_cache = length hosts })
          hosts rc

  unfoldable pub add_upstreams : List Bytes → Race → Parsed Race
  unfolding add_hosts
  add_upstreams to rc = add_hosts (up.host_port_or_file to) rc

  -- The switch over the properties.
  unfoldable pub parse_property : Line → Race → Parsed Race
  parse_property l rc =
      if str_eq l.name (codes "tls_servername")
      then (one_arg l.args >>= λ name. ok (record rc { tls_server_name = name }))
      else if str_eq l.name (codes "expire")
      then (one_arg l.args >>= λ raw.
          check_expire raw (txt.parse_duration raw) >>= λ d. ok (record rc { expire = d }))
      else err (unknown_property l.name)

  unfoldable pub parse_block : List Line → Race → Parsed Race
  parse_block [] rc = ok rc
  parse_block (l ∷ ls) rc = parse_property l rc >>= parse_block ls

  -- A directive with its zone and its upstreams: the block is read before the upstreams are made.
  unfoldable pub parse_upstreams : Option (Bytes × List Bytes) → List Line → Race → Parsed Race
  parse_upstreams none lines rc = err arg_err
  parse_upstreams (some (from, to)) lines rc = one_zone from (up.normalize_exact from) >>= λ zone.
      if ltb (length to) 2
      then err too_few
      else parse_block lines (record rc { from = zone }) >>= add_upstreams to

  -- The loop over `c.Next`.
  unfoldable pub parse_loop : Bool → List Occurrence → Race → Parsed Race
  parse_loop configured [] rc = ok rc
  parse_loop true (o ∷ os) rc = err configured_twice
  parse_loop false (o ∷ os) rc =
      parse_upstreams (split_args o.args o.block) (lines_of o.block) rc >>= parse_loop true os

  unfoldable pub parse_config : List Occurrence → Parsed Race
  parse_config os = parse_loop false os new_race

-- The test behind the loop over the hosts: a warning is due.
unfoldable pub has_tls : List Proxy → Bool
has_tls [] = false
has_tls (p ∷ ps) = elim (p.tls_config) [ some config ↦ true | none ↦ has_tls ps ]

unfoldable pub warns : Race → Bool
unfolding has_tls
warns rc = if is_empty rc.tls_server_name then has_tls rc.proxies else false
