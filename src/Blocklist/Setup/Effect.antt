-- ===== src/Blocklist/Setup/Effect.antt =====
-- From a line of the Corefile to the answer of the running plugin.
use homedns.Prelude.{◌≡◌, List, [], ◌∷◌, map, Option, some, Memᴰ, Bytes, codes, ok}
use homedns.Prelude.Text.{StdLib}
use homedns.Dns.{Msg, DnsLib, Next, Writer}
use homedns.Corefile.{Occurrence, TextLib}
use homedns.Blocklist.Matcher.{normalize_query}
use homedns.Blocklist.Matcher.Covers.{IsWithin}
use homedns.Blocklist.Parse.{normalize_entry}
use homedns.Blocklist.Parse.Entry.{normalize_entry-IsBlockable}
use homedns.Blocklist.Plugin.{Config, serve_dns}
use homedns.Blocklist.Plugin.Reach.{Running, new_running, Reach}
use homedns.Blocklist.Plugin.Reload.{IsBlockable-ne-nil}
use homedns.Blocklist.Plugin.Snapshot.{Reach-passes}
use homedns.Blocklist.Setup.{Settings, parse_config}
use homedns.Blocklist.Setup.Collects.{args_of, all_lines, parse_config-IsUsable}

-- What the running plugin takes from the settings.
abbrev pub config_of : Settings → Config
config_of s = record { urls = s.urls; allow = s.allow }

mem-map_some :
    (f : Bytes → Option Bytes) (raws names : List Bytes) {raw d : Bytes}
    → map some names ≡ map f raws
    → Memᴰ raw raws
    → f raw ≡ some d
    → Memᴰ d names
mem-map_some f [] names m mem at = elim mem [ ]
mem-map_some f (x ∷ raws) [] m mem at = cc
mem-map_some f (x ∷ raws) (n ∷ names) m (Memᴰ.head e) at = Memᴰ.head (cc)
mem-map_some f (x ∷ raws) (n ∷ names) m (Memᴰ.tail mem) at =
    Memᴰ.tail (mem-map_some f raws names (cc) mem at)

-- What an `allow` line of an accepted directive names is never blocked, nor is any name below it: in
-- every state of the running plugin such a query goes to the next plugin.
pub parse_config-passes :
    (lib : DnsLib) (std : StdLib) (txt : TextLib) (os : List Occurrence) (s : Settings)
    (raw d : Bytes) {run : Running} (server : Bytes) (next : Next) (w : Writer) (r : Msg)
    → parse_config std txt os ≡ ok s
    → Memᴰ raw (args_of (codes "allow") (all_lines os))
    → normalize_entry std raw ≡ some d
    → Reach lib std (config_of s) new_running run
    → IsWithin (normalize_query std (lib.request_name r)) d
    → (serve_dns lib std server next run.shared w r).1 ≡ next r
parse_config-passes lib std txt os s raw d server next w r parsed mem at reached within =
    let usable = parse_config-IsUsable std txt os s parsed in
    Reach-passes lib std (config_of s) server next w r reached (
      d,
      mem-map_some (normalize_entry std) (args_of (codes "allow") (all_lines os)) s.allow
          usable.allow_eq mem at,
      IsBlockable-ne-nil std (normalize_entry-IsBlockable std raw at),
      within,
    )
