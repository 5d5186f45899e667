-- ===== src/Tests/Directives.antt =====
-- directives.go on a short chain of directives.
use homedns.Prelude.{◌≡◌, refl, List, [], ◌∷◌, some, Bytes, codes, str_eq}
use mathlib.Core.Option.{bind}
use homedns.Directives.{
  blocklist_directive, gateway_directive, peercache_directive, race_directive, cache_anchor,
  kubernetes_anchor, forward_anchor, registered, index_of, insert_before, init,
}
use homedns.Directives.Order.{Adjacent, without, init-order}

abbrev chain : List Bytes
chain = codes "errors" ∷ codes "cache" ∷ codes "kubernetes" ∷ codes "forward" ∷ []

abbrev extended : List Bytes
extended =
    codes "errors"
    ∷ codes "blocklist"
    ∷ codes "cache"
    ∷ codes "k8s_gateway"
    ∷ codes "kubernetes"
    ∷ codes "peercache"
    ∷ codes "race"
    ∷ codes "forward"
    ∷ []

init_of_chain : init chain ≡ some extended
unfolding init insert_before registered index_of str_eq mathlib.Core.Option.bind
init_of_chain = refl

init-order_example :
    Adjacent blocklist_directive cache_anchor extended
    × Adjacent gateway_directive kubernetes_anchor extended
    × Adjacent peercache_directive race_directive extended
    × Adjacent race_directive forward_anchor extended
    × (without blocklist_directive (
          without gateway_directive (without peercache_directive (without race_directive extended)))
        ≡ chain)
init-order_example = init-order chain init_of_chain
