-- ===== src/Tests/Setup.antt =====
-- plugin/blocklist/setup.go on a short directive.
use homedns.Prelude.{
  ◌≡◌, refl, ◌↔◌, ◌⊎◌, true, inl, List, [], ◌∷◌, none, some, Memᴰ, codes, str_eq, ok, index_byte,
}
use homedns.Dns.{Next}
use homedns.Prelude.Text.{
  is_ascii, lower_byte, to_lower, is_space, trim_left, trim_right, trim_space, strip_prefix,
  trim_prefix, trim_suffix,
}
use homedns.Corefile.{Occurrence, has_bracket}
use homedns.Blocklist.Matcher.{normalize_query}
use homedns.Blocklist.Parse.{
  contains_byte, contains, is_label_byte, domain_loop, is_domain_name, strip_zone, is_ip, canonical,
  normalize_entry,
}
use homedns.Blocklist.Plugin.{new_blocklist, serve_dns}
use homedns.Blocklist.Plugin.Reach
use homedns.Blocklist.Setup.{
  Settings, check_url, valid_port, some_args, check_duration, validate_url, join_port, split_addr,
  whole_addr, normalize_dns_addr, duration_arg, add_urls, add_bootstrap, add_allow, set_refresh,
  parse_property, parse_block, parse_loop, finish_config, parse_config, default_ready_timeout,
}
use homedns.Blocklist.Setup.Address.{IsDialable, normalize_dns_addr-IsDialable}
use homedns.Blocklist.Setup.Accepts.{Accepts, parse_config_iff}
use homedns.Blocklist.Setup.Collects.{args_of, all_lines}
use homedns.Blocklist.Setup.Effect.{parse_config-passes}
use homedns.Tests.World.{std, lib, query}
use homedns.Tests.Texts.{txt, laws, line, block}

abbrev corefile : List Occurrence
corefile =
    block (
      line (codes "url") (codes "https://l.example/" ∷ [])
      ∷ line (codes "allow") (codes "A.example." ∷ [])
      ∷ line (codes "bootstrap_dns") (codes "9.9.9.9" ∷ codes "9.9.9.9:5353" ∷ [])
      ∷ line (codes "refresh") (codes "1h" ∷ [])
      ∷ [])
    ∷ []

abbrev settings : Settings
settings = record {
  urls = codes "https://l.example/" ∷ [];
  allow = codes "a.example" ∷ [];
  bootstrap = codes "9.9.9.9:53" ∷ codes "9.9.9.9:5353" ∷ [];
  refresh = 3600000000000;
  ready_timeout = default_ready_timeout;
}

allowed : normalize_entry std (codes "A.example.") ≡ some (codes "a.example")
unfolding normalize_entry canonical is_domain_name domain_loop is_label_byte is_ip strip_zone
    contains contains_byte to_lower is_ascii lower_byte trim_space trim_left trim_right is_space
    trim_prefix strip_prefix trim_suffix str_eq index_byte
allowed = refl

with_port : normalize_dns_addr txt (codes "9.9.9.9:5353") ≡ ok (codes "9.9.9.9:5353")
unfolding normalize_dns_addr whole_addr split_addr join_port valid_port str_eq strip_prefix
with_port = refl

parsed : parse_config std txt corefile ≡ ok settings
unfolding parse_config parse_loop parse_block parse_property finish_config some_args add_urls
    add_allow add_bootstrap set_refresh duration_arg check_duration validate_url check_url
    normalize_dns_addr whole_addr split_addr join_port valid_port normalize_entry canonical
    is_domain_name domain_loop is_label_byte is_ip strip_zone contains contains_byte to_lower
    is_ascii lower_byte trim_space trim_left trim_right is_space trim_prefix strip_prefix
    trim_suffix str_eq index_byte
parsed = refl

normalize_dns_addr-IsDialable_example :
    (d : IsDialable txt (codes "9.9.9.9:5353")) × ((has_bracket d.addr ≡ true)
      ⊎ (normalize_dns_addr txt (codes "9.9.9.9:5353") ≡ ok (codes "9.9.9.9:5353")))
normalize_dns_addr-IsDialable_example =
    normalize_dns_addr-IsDialable txt laws (codes "9.9.9.9:5353") with_port

parse_config_iff_example :
    (parse_config std txt corefile ≡ ok settings) ↔ Accepts std txt corefile settings
parse_config_iff_example = parse_config_iff std txt corefile settings

abbrev next : Next
next q = record { written = q ∷ []; rcode = 0; err = none }

parse_config-passes_example :
    (serve_dns lib std (codes "dns://") next new_blocklist none (query (codes "a.example."))).1
    ≡ next (query (codes "a.example."))
unfolding args_of all_lines str_eq normalize_query to_lower is_ascii lower_byte trim_suffix
parse_config-passes_example =
    parse_config-passes lib std txt corefile settings (codes "A.example.") (codes "a.example")
      (codes "dns://") next none (query (codes "a.example.")) parsed (Memᴰ.head refl) allowed
      Reach.here (inl refl)
