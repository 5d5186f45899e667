-- ===== src/Blocklist/Setup/Reads.antt =====
-- What a line of the block means, and that `parseConfig` reads it so.
use homedns.Prelude.{
  ℕ, ◌≤◌, ◌<◌, ◌≡◌, ◌≢◌, refl, sym, subst, inl, inr, List, [], ◌∷◌, ◌++◌, map, some, Bytes, codes,
  arith, Bool-cases, ok, ◌>>=◌, >>=-eq-ok, ok-injective, pos, str_eq, str_eq-eq, All, ltb,
}
use homedns.Prelude.Text.{StdLib}
use homedns.Corefile.{Line, TextLib}
use homedns.Blocklist.Parse.{normalize_entry}
use homedns.Blocklist.Setup.{
  Settings, minute, some_args, normalize_dns_addr, duration_arg, add_urls, add_bootstrap, add_allow,
  set_refresh, parse_property,
}
use homedns.Blocklist.Setup.Args.{
  IsHttpUrl, some_args-ok, some_args_lem, duration_arg-ok, duration_arg_lem, add_urls-ok,
  add_urls_lem, add_bootstrap-ok, add_bootstrap_lem, add_allow-ok, add_allow_lem,
}

-- A line turns one state of the settings into the next.
pub data Reads (std : StdLib) (txt : TextLib) (l : Line) (s : Settings) : Settings → Type 0 where
  url_line :
      l.name ≡ codes "url"
      → l.args ≢ []
      → All (IsHttpUrl txt) l.args
      → Reads std txt l s (record s { urls = s.urls ++ l.args })
  allow_line :
      (names : List Bytes)
      → l.name ≡ codes "allow"
      → l.args ≢ []
      → map (normalize_entry std) l.args ≡ map some names
      → Reads std txt l s (record s { allow = s.allow ++ names })
  bootstrap_line :
      (addrs : List Bytes)
      → l.name ≡ codes "bootstrap_dns"
      → l.args ≢ []
      → map (normalize_dns_addr txt) l.args ≡ map ok addrs
      → Reads std txt l s (record s { bootstrap = s.bootstrap ++ addrs })
  refresh_line :
      (raw : Bytes) (d : ℕ)
      → l.name ≡ codes "refresh"
      → l.args ≡ raw ∷ []
      → txt.parse_duration raw ≡ some (pos d)
      → minute ≤ d
      → Reads std txt l s (record s { refresh = d })
  timeout_line :
      (raw : Bytes) (d : ℕ)
      → l.name ≡ codes "ready_timeout"
      → l.args ≡ raw ∷ []
      → txt.parse_duration raw ≡ some (pos d)
      → 0 < d
      → Reads std txt l s (record s { ready_timeout = d })

module _ (std : StdLib) (txt : TextLib) (l : Line) (s : Settings) where
  url-Reads :
      {t : Settings}
      → l.name ≡ codes "url"
      → (some_args l.args >>= λ raws. add_urls txt raws s) ≡ ok t
      → Reads std txt l s t
  url-Reads {t} is h =
      let (raws, given, added) = >>=-eq-ok (some_args l.args) _ h in
      let (ne, same) = some_args-ok l.args raws given in
      let (good, e) =
        add_urls-ok txt l.args s (subst (λ rs. add_urls txt rs s ≡ ok t) same added) in
      subst (λ u. Reads std txt l s u) (sym e) (url_line is ne good)

  allow-Reads :
      {t : Settings}
      → l.name ≡ codes "allow"
      → (some_args l.args >>= λ raws. add_allow std raws s) ≡ ok t
      → Reads std txt l s t
  allow-Reads {t} is h =
      let (raws, given, added) = >>=-eq-ok (some_args l.args) _ h in
      let (ne, same) = some_args-ok l.args raws given in
      let (names, m, e) =
        add_allow-ok std l.args s (subst (λ rs. add_allow std rs s ≡ ok t) same added) in
      subst (λ u. Reads std txt l s u) (sym e) (allow_line names is ne m)

  bootstrap-Reads :
      {t : Settings}
      → l.name ≡ codes "bootstrap_dns"
      → (some_args l.args >>= λ raws. add_bootstrap txt raws s) ≡ ok t
      → Reads std txt l s t
  bootstrap-Reads {t} is h =
      let (raws, given, added) = >>=-eq-ok (some_args l.args) _ h in
      let (ne, same) = some_args-ok l.args raws given in
      let (addrs, m, e) =
        add_bootstrap-ok txt l.args s (subst (λ rs. add_bootstrap txt rs s ≡ ok t) same added) in
      subst (λ u. Reads std txt l s u) (sym e) (bootstrap_line addrs is ne m)

  set_refresh-ok :
      (d : ℕ) {t : Settings}
      → set_refresh d s ≡ ok t
      → (minute ≤ d) × (t ≡ record s { refresh = d })
  unfolding set_refresh
  set_refresh-ok d h = elim (Bool-cases (ltb d minute)) [
    | inl short ↦ ground arith
    | inr long ↦ (ground arith, sym (ok-injective (rw long at h)))
  ]

  set_refresh_lem : (d : ℕ) → minute ≤ d → set_refresh d s ≡ ok (record s { refresh = d })
  unfolding set_refresh
  set_refresh_lem d long = ground arith

  refresh-Reads :
      {t : Settings}
      → l.name ≡ codes "refresh"
      → (duration_arg txt l.name l.args >>= λ d. set_refresh d s) ≡ ok t
      → Reads std txt l s t
  refresh-Reads is h =
      let (d, given, checked) = >>=-eq-ok (duration_arg txt l.name l.args) _ h in
      let (raw, one, at, some_time) = duration_arg-ok txt l.name l.args given in
      let (long, e) = set_refresh-ok d checked in
      subst (λ u. Reads std txt l s u) (sym e) (refresh_line raw d is one at long)

  timeout-Reads :
      {t : Settings}
      → l.name ≡ codes "ready_timeout"
      → (duration_arg txt l.name l.args >>= λ d. ok (record s { ready_timeout = d })) ≡ ok t
      → Reads std txt l s t
  timeout-Reads is h =
      let (d, given, checked) = >>=-eq-ok (duration_arg txt l.name l.args) _ h in
      let (raw, one, at, some_time) = duration_arg-ok txt l.name l.args given in
      subst (λ u. Reads std txt l s u) (ok-injective checked)
        (timeout_line raw d is one at some_time)

  -- The switch accepts only what a line can mean.
  pub parse_property-Reads :
      {t : Settings} → parse_property std txt l s ≡ ok t → Reads std txt l s t
  unfolding parse_property
  parse_property-Reads h = elim (Bool-cases (str_eq l.name (codes "url"))) [
    | inl url ↦ url-Reads (str_eq-eq _ _ url) (rw url at h)
    | inr not_url ↦ elim (Bool-cases (str_eq l.name (codes "allow"))) [
      | inl allow ↦ allow-Reads (str_eq-eq _ _ allow) (rw allow at (rw not_url at h))
      | inr not_allow ↦ elim (Bool-cases (str_eq l.name (codes "bootstrap_dns"))) [
        | inl dns ↦
            bootstrap-Reads (str_eq-eq _ _ dns) (rw dns at (rw not_allow at (rw not_url at h)))
        | inr not_dns ↦ elim (Bool-cases (str_eq l.name (codes "refresh"))) [
          | inl refresh ↦
              refresh-Reads (str_eq-eq _ _ refresh)
                (rw refresh at (rw not_dns at (rw not_allow at (rw not_url at h))))
          | inr not_refresh ↦ elim (Bool-cases (str_eq l.name (codes "ready_timeout"))) [
            | inl timeout ↦ timeout-Reads (str_eq-eq _ _ timeout) (
                rw timeout at
                  (rw not_refresh at (rw not_dns at (rw not_allow at (rw not_url at h)))))
            | inr unknown ↦ ground arith
          ]
        ]
      ]
    ]
  ]

  -- The switch accepts whatever a line can mean.
  pub Reads-parse_property :
      {t : Settings} → Reads std txt l s t → parse_property std txt l s ≡ ok t
  unfolding parse_property str_eq
  Reads-parse_property (url_line is ne good) =
      rw (is, parse_property) (rw (some_args_lem l.args ne, ◌>>=◌) (add_urls_lem txt l.args s good))
  Reads-parse_property (allow_line names is ne m) =
      rw (is, parse_property)
        (rw (some_args_lem l.args ne, ◌>>=◌) (add_allow_lem std l.args names s m))
  Reads-parse_property (bootstrap_line addrs is ne m) =
      rw (is, parse_property)
        (rw (some_args_lem l.args ne, ◌>>=◌) (add_bootstrap_lem txt l.args addrs s m))
  Reads-parse_property (refresh_line raw d is one at long) =
      let given : duration_arg txt (codes "refresh") l.args ≡ ok d =
        rw one (duration_arg_lem txt (codes "refresh") raw d at (omega arith)) in
      rw (is, parse_property) (rw (given, ◌>>=◌) (set_refresh_lem d long))
  Reads-parse_property (timeout_line raw d is one at some_time) =
      let given : duration_arg txt (codes "ready_timeout") l.args ≡ ok d =
        rw one (duration_arg_lem txt (codes "ready_timeout") raw d at some_time) in
      rw (is, parse_property) (rw (given, ◌>>=◌) refl)
