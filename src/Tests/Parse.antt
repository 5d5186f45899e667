-- ===== src/Tests/Parse.antt =====
-- plugin/blocklist/parse.go and source.go at small lists.
use homedns.Prelude.{
  ◌≤◌, ◌≡◌, refl, ◌↔◌, ◌⊎◌, Bool, true, false, List, [], ◌∷◌, none, some, Memᴰ, Bytes, codes,
  length, str_eq, index_byte, ◌++◌,
}
use homedns.Prelude.Text.{
  is_ascii, lower_byte, to_lower, is_space, trim_left, trim_right, trim_space, end_field,
  fields_loop, fields, trim_suffix, strip_prefix, trim_prefix, lines_loop, drop_cr,
}
use homedns.Blocklist.Matcher.{normalize_query}
use homedns.Blocklist.Parse.{
  contains_byte, contains, is_label_byte, domain_loop, is_domain_name, strip_zone, is_ip, canonical,
  normalize_entry, strip_comment, candidates, append_entries, parse_line, parse_lines, max_token,
  parse_list,
}
use homedns.Blocklist.Parse.Domain.{IsDomainName, is_domain_name_iff}
use homedns.Blocklist.Parse.Output.{parse_list-none_iff}
use homedns.Blocklist.Source.{non_empty, read_response, fetch, dial_loop, dial}
use homedns.Blocklist.Source.Dial.{dial-tries_all}
use homedns.Tests.World.{std}

-- All that a run of the parser computes with.
unfoldable pub parsing : Unit {0}
unfolding is_ascii lower_byte to_lower is_space trim_left trim_right trim_space end_field
    fields_loop fields trim_suffix strip_prefix trim_prefix lines_loop drop_cr contains_byte
    contains is_label_byte domain_loop is_domain_name strip_zone is_ip canonical normalize_entry
    strip_comment candidates append_entries parse_line parse_lines parse_list str_eq index_byte
    normalize_query non_empty read_response fetch
parsing = tt

-- A comment, a hosts line with two names, a wildcard, an address, and a local name.
abbrev pub list : Bytes
list =
    codes "# list"
    ++ 10 ∷ codes "0.0.0.0 Ads.Example.com\tb.example.com. # two"
    ++ 13 ∷ 10 ∷ codes "*.tracker.net"
    ++ 10 ∷ codes "0.0.0.0"
    ++ 10 ∷ codes "localhost.localdomain"

parse_five_lines :
    parse_list std (record { content = list; broken = false })
    ≡ some (codes "ads.example.com" ∷ codes "b.example.com" ∷ codes "tracker.net" ∷ [])
unfolding parsing
parse_five_lines = refl

is_domain_name_iff_example : (is_domain_name (codes "a..b") ≡ true) ↔ IsDomainName (codes "a..b")
is_domain_name_iff_example = is_domain_name_iff (codes "a..b")

normalize_twice : normalize_entry std (codes "tracker.net") ≡ some (codes "tracker.net")
unfolding parsing
normalize_twice = refl

parse_list-none_iff_example :
    (parse_list std (record { content = list; broken = true }) ≡ none)
    ↔ ((true ≡ true) ⊎ ((raw : Bytes) × Memᴰ raw (lines_loop [] list) × (max_token ≤ length raw)))
parse_list-none_iff_example = parse_list-none_iff std (record { content = list; broken = true })

abbrev servers : List Bytes
servers = codes "1.1.1.1:53" ∷ codes "9.9.9.9:53" ∷ []

abbrev second_only : Bytes → Bool
second_only s = str_eq s (codes "9.9.9.9:53")

-- The counter wraps, and the second server is reached from either start.
dial_wraps : dial servers second_only 4294967295 ≡ (0, some (codes "9.9.9.9:53"))
unfolding dial dial_loop str_eq
dial_wraps = refl

dial-tries_all_example :
    ((srv : Bytes)
      → (dial servers second_only 4).1 ≡ some srv
      → Memᴰ srv servers × (second_only srv ≡ true))
    × ((dial servers second_only 4).1 ≡ none
        → (srv : Bytes) → Memᴰ srv servers
        → second_only srv ≡ false)
dial-tries_all_example = dial-tries_all servers second_only 4
