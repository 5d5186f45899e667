-- ===== src/Directives.antt =====
-- directives.go: where the plugins of this repository stand in the chain of CoreDNS.
use homedns.Prelude.{
  ℕ, suc, Bool, true, false, List, [], ◌∷◌, ◌++◌, Option, none, some, Bytes, codes, take, drop,
  str_eq, if◌then◌else◌,
}
use mathlib.Core.Option
pub mod Order

abbrev pub blocklist_directive : Bytes
blocklist_directive = codes "blocklist"

abbrev pub gateway_directive : Bytes
gateway_directive = codes "k8s_gateway"

abbrev pub peercache_directive : Bytes
peercache_directive = codes "peercache"

abbrev pub race_directive : Bytes
race_directive = codes "race"

abbrev pub cache_anchor : Bytes
cache_anchor = codes "cache"

abbrev pub kubernetes_anchor : Bytes
kubernetes_anchor = codes "kubernetes"

abbrev pub forward_anchor : Bytes
forward_anchor = codes "forward"

-- The first loop: is the name registered already?
unfoldable pub registered : Bytes → List Bytes → Bool
registered name [] = false
registered name (d ∷ ds) = if str_eq d name then true else registered name ds

-- The second loop's search: the index of the first directive that is the anchor.
unfoldable pub index_of : Bytes → List Bytes → Option ℕ
index_of anchor [] = none
index_of anchor (d ∷ ds) = if str_eq d anchor then some 0 else Option.map suc (index_of anchor ds)

-- `insertBefore` on `dnsserver.Directives`. `none` is a panic.
unfoldable pub insert_before : Bytes → Bytes → List Bytes → Option (List Bytes)
insert_before anchor name directives =
    if registered name directives
    then none
    else Option.map (λ i. take i directives ++ name ∷ drop i directives)
        (index_of anchor directives)

-- `init`.
unfoldable pub init : List Bytes → Option (List Bytes)
init directives = Option.bind (insert_before cache_anchor blocklist_directive directives) λ one.
    Option.bind (insert_before kubernetes_anchor gateway_directive one) λ two.
      Option.bind (insert_before forward_anchor peercache_directive two)
        λ three. insert_before forward_anchor race_directive three
