-- ===== src/Tests/Chain.antt =====
-- A query that a sibling refuses, while two upstreams report.
use homedns.Prelude.{◌≡◌, refl, ◌⊎◌, true, [], ◌∷◌, none, some, Memᴰ, codes, arith}
use homedns.Dns.{Msg, Next, useful, rcode_success, rcode_name_error}
use homedns.Peercache.Store.{put}
use homedns.Peercache.Contest.{replied, probe}
use homedns.Peercache.Contest.First.{IsLosing}
use homedns.Race.{LegResult, exchange}
use homedns.Chain.{Replica, Around, Passage, IsReplyWith, relayed, Passage-answered}
use homedns.Tests.World.{lib}
use homedns.Tests.Race.{r, proxies, results, legs, drained, drained-useful, refused}
use homedns.Tests.Peercache.{lru}

abbrev here : Replica lru
here = record {
  first_sibling = codes "10.0.0.2:8053";
  siblings = [];
  store = lru.new_cache 4096;
  zone = codes ".";
  upstreams = proxies;
}

abbrev around : Around
around = record {
  heard = results;
  unheard = [];
  probed = (50, (probe (replied refused)).0) ∷ [];
  now = 60;
  late = [];
}

abbrev behind : Next
behind m = record { written = []; rcode = 5; err = none }

refuses : IsLosing (50, (probe (replied refused)).0)
unfolding probe useful
refuses = refl

Passage-answered_example :
    (m sent : Msg) × (p : Passage lib lru here around behind (codes "l") (codes "c") r)
    × (lib.answers r m ≡ true)
    × ((one : LegResult) × Memᴰ one results × (one.msg ≡ some m))
    × ((m.rcode ≡ rcode_success) ⊎ (m.rcode ≡ rcode_name_error))
    × IsReplyWith lib r m sent
    × (p.out ≡ record { written = sent ∷ []; rcode = rcode_success; err = none })
    × (p.store ≡ put lib lru 60 r (some (relayed lib r m)) here.store)
Passage-answered_example =
    Passage-answered lib lru here around behind (codes "l") (codes "c") r
      (exchange lib (codes "u") r drained).result refl legs refl (Memᴰ.tail (Memᴰ.head refl))
      drained-useful (refuses, tt) (omega arith)
