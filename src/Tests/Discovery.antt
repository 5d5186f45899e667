-- ===== src/Tests/Discovery.antt =====
-- plugin/peercache/discovery.go on two pods.
use homedns.Prelude.{
  ◌≡◌, refl, ◌↔◌, true, false, List, [], ◌∷◌, Option, none, some, Memᴰ, Bytes, codes, str_eq, ◌==◌,
  if◌then◌else◌,
}
use homedns.Peercache.Discovery.{Pod, Peers, peer_list, is_skipped, addrs_of, republish}
use homedns.Peercache.Discovery.Siblings.{IsKnown, republish-is_peer}
use mathlib.Core.List.{Permᴰ}
use homedns.Peercache.Discovery.Order.{republish-Permᴰ}
use homedns.Peercache.Listener.{NetLib, is_peer}
use homedns.Blocklist.Matcher.{sort_strings, insert_string}
use homedns.Tests.Texts.{txt}

-- The host stands in front of the colon, and an address is its text.
abbrev host_before : Bytes → Option Bytes
host_before [] = none
host_before (c ∷ s) =
    if c == b':' then some [] else elim (host_before s) [ none ↦ none | some h ↦ some (c ∷ h) ]

abbrev net : NetLib
net = record { host_of = host_before; parse_ip = some; ip_equal = str_eq }

abbrev sibling : Pod
sibling = record { ip = codes "b"; is_running = true; is_deleted = false }

abbrev pods : List Pod
pods = record { ip = codes "a"; is_running = true; is_deleted = false } ∷ sibling ∷ []

abbrev before : Peers
before = record { listed = none; total = 0 }

only_sibling :
    republish txt 8053 (codes "a") (some pods) before
    ≡ record { listed = some (codes "b:8053" ∷ []); total = 1 }
unfolding republish addrs_of is_skipped str_eq sort_strings insert_string
only_sibling = refl

splits :
    (pod : Pod)
    → Memᴰ pod pods
    → net.host_of (txt.join_host_port pod.ip (txt.itoa 8053)) ≡ some pod.ip
splits pod (Memᴰ.head e) = rw e refl
splits pod (Memᴰ.tail (Memᴰ.head e)) = rw e refl
splits pod (Memᴰ.tail (Memᴰ.tail m)) = elim m [ ]

republish-is_peer_example :
    (is_peer net
        (codes "b:4242")
        (peer_list (republish txt 8053 (codes "a") (some pods) before).listed)
      ≡ true)
    ↔ IsKnown txt 8053 (codes "a") net (codes "b:4242") pods
republish-is_peer_example =
    republish-is_peer txt 8053 (codes "a") net (codes "b:4242") pods before splits

turned :
    Permᴰ pods (sibling ∷ record { ip = codes "a"; is_running = true; is_deleted = false } ∷ [])
turned = Permᴰ.swap refl refl

republish-Permᴰ_example :
    republish txt 8053 (codes "a") (some pods) before
    ≡ republish txt 8053
        (codes "a")
        (some (sibling ∷ record { ip = codes "a"; is_running = true; is_deleted = false } ∷ []))
        before
republish-Permᴰ_example = republish-Permᴰ txt 8053 (codes "a") before turned
