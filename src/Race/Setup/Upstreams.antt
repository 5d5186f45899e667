-- ===== src/Race/Setup/Upstreams.antt =====
-- `parseConfig` against what a directive says of its upstreams.
use homedns.Prelude.{
  ◌≤◌, ◌≡◌, refl, sym, ap, subst, ◌∙◌, ◌↔◌, inl, inr, Bool, true, false, not, List, [], ◌∷◌, ◌++◌,
  Option, none, some, Bytes, length, arith, Bool-cases, if◌then◌else◌, ltb, ok, err, ◌>>=◌,
  >>=-eq-ok, ok-injective,
}
use homedns.Corefile.{Occurrence, lines_of, TextLib}
use homedns.Race.Setup.{
  Proxy, Race, TlsConfig, UpstreamLib, new_race, split_args, one_zone, add_proxies, add_hosts,
  add_upstreams, bad_tls, parse_block, parse_upstreams, parse_loop, parse_config,
}
use homedns.Race.Setup.Reads.{
  ReadsAll, ReadsAll-proxies, parse_block-ReadsAll, ReadsAll-parse_block,
}
use homedns.Race.Setup.Proxies.{AreProxiesOf, add_proxies-ok, add_proxies_lem}

-- The configuration that the proxies over TLS share.
abbrev pub shared_config : Race → List Bytes → TlsConfig
shared_config rc hosts = record { server_name = rc.tls_server_name; session_cache = length hosts }

module _ (txt : TextLib) (up : UpstreamLib) where
  -- The directive behind a configured plugin: its zone, its upstreams, the hosts that they name, what
  -- the lines of its block make of the plugin, and a proxy for each host.
  pub record IsRaceOf (o : Occurrence) (rc : Race) : Type 0 where
    pub from : Bytes
    pub to : List Bytes
    pub args : split_args o.args o.block ≡ some (from, to)
    pub zone : Bytes
    pub normal : up.normalize_exact from ≡ zone ∷ []
    pub enough : 2 ≤ length to
    pub given : Race
    pub lines : ReadsAll txt (lines_of o.block) (record new_race { from = zone }) given
    pub hosts : List Bytes
    pub named : up.host_port_or_file to ≡ some hosts
    pub secured : up.tls_from_args ≡ true
    pub proxies : List Proxy
    pub made : AreProxiesOf up (shared_config given hosts) given.expire hosts proxies
    pub result : rc ≡ record given { proxies = proxies }

  add_hosts_lem :
      (hosts : List Bytes) (rc : Race)
      → up.tls_from_args ≡ true
      → add_hosts txt up (some hosts) rc ≡ add_proxies txt up (shared_config rc hosts) hosts rc
  unfolding add_hosts
  add_hosts_lem hosts rc secured =
      ap
        (λ (b : Bool).
          if not b then err bad_tls else add_proxies txt up (shared_config rc hosts) hosts rc)
        secured

  no_tls_fails :
      (hosts : List Bytes) (rc : Race) {out : Race}
      → up.tls_from_args ≡ false
      → add_hosts txt up (some hosts) rc ≡ ok out
      → ⊥
  unfolding add_hosts
  no_tls_fails hosts rc bare h = ground arith

  add_hosts-ok :
      (o : Option (List Bytes)) (rc : Race) {out : Race}
      → add_hosts txt up o rc ≡ ok out
      → (hosts : List Bytes) × (o ≡ some hosts)
        × (up.tls_from_args ≡ true)
        × (add_proxies txt up (shared_config rc hosts) hosts rc ≡ ok out)
  unfolding add_hosts
  add_hosts-ok none rc h = cc
  add_hosts-ok (some hosts) rc h = elim (Bool-cases up.tls_from_args) [
    | inl secured ↦ (hosts, refl, secured, sym (add_hosts_lem hosts rc secured) ∙ h)
    | inr bare ↦ absurd (no_tls_fails hosts rc bare h)
  ]

  one_zone-ok :
      (from : Bytes) (zones : List Bytes) {zone : Bytes}
      → one_zone from zones ≡ ok zone
      → zones ≡ zone ∷ []
  unfolding one_zone
  one_zone-ok from [] h = cc
  one_zone-ok from (zone ∷ []) h = ap (λ z. z ∷ []) (ok-injective h)
  one_zone-ok from (zone ∷ more ∷ zones) h = cc

  parse_upstreams-IsRaceOf :
      (o : Occurrence) {rc : Race}
      → parse_upstreams txt up (split_args o.args o.block) (lines_of o.block) new_race ≡ ok rc
      → IsRaceOf o rc
  unfolding parse_upstreams add_upstreams
  parse_upstreams-IsRaceOf o {rc} h = of_args (split_args o.args o.block) refl h
    where
      of_to :
          (from : Bytes) (to : List Bytes) (zone : Bytes)
          → split_args o.args o.block ≡ some (from, to)
          → up.normalize_exact from ≡ zone ∷ []
          → 2 ≤ length to
          → (parse_block txt up (lines_of o.block) (record new_race { from = zone })
              >>= add_upstreams txt up to)
            ≡ ok rc
          → IsRaceOf o rc
      of_to from to zone args normal enough h =
          let (given, read, added) =
            >>=-eq-ok (parse_block txt up (lines_of o.block) (record new_race { from = zone })) _
              h in
          let (hosts, named, secured, looped) =
            add_hosts-ok (up.host_port_or_file to) given added in
          let lines =
            parse_block-ReadsAll txt up (lines_of o.block) (record new_race { from = zone }) read in
          let (proxies, e, made) =
            add_proxies-ok txt up (shared_config given hosts) hosts given looped in
          record {
            from = from;
            to = to;
            args = args;
            zone = zone;
            normal = normal;
            enough = enough;
            given = given;
            lines = lines;
            hosts = hosts;
            named = named;
            secured = secured;
            proxies = proxies;
            made = made;
            result =
                e
                ∙ ap (λ (ps : List Proxy). record given { proxies = ps ++ proxies })
                    (ReadsAll-proxies lines);
          }

      of_args :
          (args : Option (Bytes × List Bytes))
          → split_args o.args o.block ≡ args
          → parse_upstreams txt up args (lines_of o.block) new_race ≡ ok rc
          → IsRaceOf o rc
      of_args none at h = cc
      of_args (some (from, to)) at h =
          let (zone, zones, rest) = >>=-eq-ok (one_zone from (up.normalize_exact from)) _ h in
          elim (Bool-cases (ltb (length to) 2)) [
            | inl few ↦ ground arith
            | inr enough ↦
                of_to from to zone at (one_zone-ok from (up.normalize_exact from) zones)
                  (ground arith) (rw enough at rest)
          ]

  IsRaceOf-parse_upstreams :
      (o : Occurrence) {rc : Race}
      → IsRaceOf o rc
      → parse_upstreams txt up (split_args o.args o.block) (lines_of o.block) new_race ≡ ok rc
  unfolding parse_upstreams add_upstreams one_zone
  IsRaceOf-parse_upstreams o {rc} r =
      let many : ltb (length r.to) 2 ≡ false = ground (arith, r.enough) in
      rw (r.args, r.normal, ◌>>=◌, many, ReadsAll-parse_block txt up r.lines, ◌>>=◌, r.named)
        (add_hosts_lem r.hosts r.given r.secured
          ∙ add_proxies_lem txt up (shared_config r.given r.hosts) r.hosts r.given r.proxies r.made
          ∙ ap (λ (ps : List Proxy). ok (record r.given { proxies = ps ++ r.proxies }))
              (ReadsAll-proxies r.lines)
          ∙ ap ok (sym r.result))

  -- `parseConfig` accepts exactly one directive, with two upstreams at least and a block whose lines
  -- have a meaning. The plugin that it gives has one proxy for each host that the upstreams name, in
  -- their order: over plain DNS, or over TLS with the server name that the block ends with, wherever
  -- it stands. All share the expiry and the size of the pool.
  pub parse_config-IsRaceOf :
      (o : Occurrence) (others : List Occurrence) (rc : Race)
      → (parse_config txt up (o ∷ others) ≡ ok rc) ↔ ((others ≡ []) × IsRaceOf o rc)
  unfolding parse_config parse_loop
  parse_config-IsRaceOf o others rc =
      (accepted others, λ (e, r). rw (e, IsRaceOf-parse_upstreams o r, ◌>>=◌) refl)
    where
      accepted :
          (others : List Occurrence)
          → parse_config txt up (o ∷ others) ≡ ok rc
          → (others ≡ []) × IsRaceOf o rc
      accepted [] h =
          let (mid, parsed, e) =
            >>=-eq-ok
              (parse_upstreams txt up (split_args o.args o.block) (lines_of o.block) new_race) _
              h in
          (refl, subst (IsRaceOf o) (ok-injective e) (parse_upstreams-IsRaceOf o parsed))
      accepted (p ∷ others) h =
          let (mid, parsed, e) =
            >>=-eq-ok
              (parse_upstreams txt up (split_args o.args o.block) (lines_of o.block) new_race) _
              h in
          cc
