-- ===== src/Tests/RaceSetup.antt =====
-- plugin/race/setup.go on a short directive.
use homedns.Prelude.{
  ◌≡◌, ◌↔◌, refl, true, false, List, [], ◌∷◌, Option, none, some, Bytes, codes, str_eq, ok,
}
use homedns.Corefile.{Occurrence}
use homedns.Prelude.Text.{strip_prefix}
use homedns.Race.{max_idle_conns}
use homedns.Race.Setup.{
  Transport, dns, tls, Race, UpstreamLib, split_args, one_zone, one_arg, check_expire, new_proxy,
  add_proxies, add_hosts, add_upstreams, parse_property, parse_block, parse_upstreams, parse_loop,
  parse_config, has_tls, warns,
}
use homedns.Race.Setup.Upstreams.{IsRaceOf, parse_config-IsRaceOf}
use homedns.Tests.Texts.{txt, line}

abbrev with_scheme : Bytes → Option Bytes → Transport × Bytes
with_scheme host (some addr) = (tls, addr)
with_scheme host none = (dns, host)

-- Every zone and every address is normal, and tls:// is the one prefix.
abbrev up : UpstreamLib
up = record {
  normalize_exact = λ zone. zone ∷ [];
  host_port_or_file = some;
  transport = λ host. with_scheme host (strip_prefix host (codes "tls://"));
  tls_from_args = true;
}

abbrev directive : Occurrence
directive = record {
  args = codes "." ∷ codes "tls://a" ∷ codes "b" ∷ [];
  block = some (
      line (codes "expire") (codes "1h" ∷ [])
      ∷ line (codes "tls_servername") (codes "n" ∷ [])
      ∷ []);
}

-- The name of the block, which stands behind the addresses, is that of the first proxy.
abbrev race : Race
race = record {
  from = codes ".";
  tls_server_name = codes "n";
  expire = 3600000000000;
  proxies =
      record {
        addr = codes "a";
        trans = tls;
        tls_config = some (record { server_name = codes "n"; session_cache = 2 });
        expire = 3600000000000;
        max_idle = max_idle_conns;
      }
      ∷ record {
        addr = codes "b";
        trans = dns;
        tls_config = none;
        expire = 3600000000000;
        max_idle = max_idle_conns;
      }
      ∷ [];
}

parsed : parse_config txt up (directive ∷ []) ≡ ok race
unfolding parse_config parse_loop parse_upstreams split_args one_zone parse_block parse_property
    one_arg check_expire add_upstreams add_hosts add_proxies new_proxy str_eq strip_prefix
parsed = refl

no_warning : warns race ≡ false
unfolding warns has_tls
no_warning = refl

abbrev no_more : List Occurrence
no_more = []

parse_config-IsRaceOf_example :
    (parse_config txt up (directive ∷ no_more) ≡ ok race)
    ↔ ((no_more ≡ []) × IsRaceOf txt up directive race)
parse_config-IsRaceOf_example = parse_config-IsRaceOf txt up directive no_more race
