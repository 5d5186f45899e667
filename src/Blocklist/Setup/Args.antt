-- ===== src/Blocklist/Setup/Args.antt =====
-- The loops over the arguments of a property, and its duration.
use homedns.Prelude.{
  ℕ, zero, suc, ◌<◌, ◌≡◌, ◌≢◌, refl, sym, ap, ap₂, ◌∙◌, ◌⊎◌, inl, inr, List, [], ◌∷◌, ◌++◌,
  append-nil, append_assoc, map, Option, none, some, Bytes, codes, arith, Option-cases, ok, ◌>>=◌,
  >>=-eq-ok, ok-injective, ℤ, pos, negsuc, str_eq-eq, str_eq_iff, All,
}
use homedns.Prelude.Text.{StdLib}
use homedns.Corefile.{TextLib}
use homedns.Blocklist.Parse.{normalize_entry}
use homedns.Blocklist.Setup.{
  Settings, check_url, some_args, check_duration, validate_url, normalize_dns_addr, duration_arg,
  add_urls, add_bootstrap, add_allow,
}

-- A list can be downloaded from here.
pub record IsHttpUrl (txt : TextLib) (raw : Bytes) : Type 0 where
  pub scheme : Bytes
  pub host : Bytes
  pub parsed : txt.parse_url raw ≡ some (scheme, host)
  pub http : (scheme ≡ codes "http") ⊎ (scheme ≡ codes "https")
  pub has_host : host ≢ []

pub some_args-ok : (raws out : List Bytes) → some_args raws ≡ ok out → (raws ≢ []) × (out ≡ raws)
unfolding some_args
some_args-ok [] out h = cc
some_args-ok (raw ∷ raws) out h = (λ e. cc, sym (ok-injective h))

pub some_args_lem : (raws : List Bytes) → raws ≢ [] → some_args raws ≡ ok raws
unfolding some_args
some_args_lem [] h = absurd (h refl)
some_args_lem (raw ∷ raws) h = refl

module _ (txt : TextLib) where
  check_url-ok :
      (raw : Bytes) (o : Option (Bytes × Bytes))
      → txt.parse_url raw ≡ o
      → check_url raw o ≡ ok tt
      → IsHttpUrl txt raw
  unfolding check_url
  check_url-ok raw none at h = cc
  check_url-ok raw (some (scheme, host)) at h = record {
    scheme = scheme;
    host = host;
    parsed = at;
    http = ground (arith, str_eq-eq scheme (codes "http"), str_eq-eq scheme (codes "https"));
    has_host = λ e. no_host e (rw e at h);
  }
    where
      no_host : host ≡ [] → check_url raw (some (scheme, [])) ≡ ok tt → ⊥
      no_host e k = ground arith

  validate_url_lem : (raw : Bytes) → IsHttpUrl txt raw → validate_url txt raw ≡ ok tt
  unfolding validate_url check_url
  validate_url_lem raw u = rw (u.parsed, check_url) (fits u.scheme u.host u.http u.has_host)
    where
      fits :
          (scheme host : Bytes)
          → (scheme ≡ codes "http") ⊎ (scheme ≡ codes "https")
          → host ≢ []
          → check_url raw (some (scheme, host)) ≡ ok tt
      fits scheme [] http has = absurd (has refl)
      fits scheme (c ∷ host) http has =
          ground (arith, str_eq_iff scheme (codes "http"), str_eq_iff scheme (codes "https"))

  check_duration-ok :
      (prop raw : Bytes) (o : Option ℤ) {d : ℕ}
      → check_duration prop raw o ≡ ok d
      → (o ≡ some (pos d)) × (0 < d)
  unfolding check_duration
  check_duration-ok prop raw none h = cc
  check_duration-ok prop raw (some (pos zero)) h = cc
  check_duration-ok prop raw (some (pos (suc n))) h =
      let e = ok-injective h in (ap (λ t. some (pos t)) e, omega (arith, e))
  check_duration-ok prop raw (some (negsuc n)) h = cc

  pub duration_arg-ok :
      (prop : Bytes) (raws : List Bytes) {d : ℕ}
      → duration_arg txt prop raws ≡ ok d
      → (raw : Bytes) × (raws ≡ raw ∷ []) × (txt.parse_duration raw ≡ some (pos d)) × (0 < d)
  unfolding duration_arg
  duration_arg-ok prop [] h = cc
  duration_arg-ok prop (raw ∷ []) h =
      let (e, p) = check_duration-ok prop raw (txt.parse_duration raw) h in (raw, refl, e, p)
  duration_arg-ok prop (raw ∷ more ∷ raws) h = cc

  pub duration_arg_lem :
      (prop raw : Bytes) (d : ℕ)
      → txt.parse_duration raw ≡ some (pos d)
      → 0 < d
      → duration_arg txt prop (raw ∷ []) ≡ ok d
  unfolding duration_arg check_duration
  duration_arg_lem prop raw zero at h = absurd (omega arith)
  duration_arg_lem prop raw (suc n) at h = rw (at, check_duration) refl

  pub add_urls-ok :
      (raws : List Bytes) (s : Settings) {t : Settings}
      → add_urls txt raws s ≡ ok t
      → All (IsHttpUrl txt) raws × (t ≡ record s { urls = s.urls ++ raws })
  unfolding add_urls validate_url
  add_urls-ok [] s h =
      (tt, sym (ok-injective h) ∙ ap (λ us. record s { urls = us }) (sym (append-nil s.urls)))
  add_urls-ok (raw ∷ raws) s h =
      let (u, here, rest) = >>=-eq-ok (validate_url txt raw) _ h in
      let (more, e) = add_urls-ok raws (record s { urls = s.urls ++ raw ∷ [] }) rest in
      (
        (check_url-ok raw (txt.parse_url raw) refl here, more),
        e ∙ ap (λ us. record s { urls = us }) (append_assoc s.urls (raw ∷ []) raws),
      )

  pub add_urls_lem :
      (raws : List Bytes) (s : Settings)
      → All (IsHttpUrl txt) raws
      → add_urls txt raws s ≡ ok (record s { urls = s.urls ++ raws })
  unfolding add_urls
  add_urls_lem [] s h = ap (λ us. ok (record s { urls = us })) (sym (append-nil s.urls))
  add_urls_lem (raw ∷ raws) s h =
      rw (validate_url_lem raw h.0, ◌>>=◌)
        (add_urls_lem raws (record s { urls = s.urls ++ raw ∷ [] }) h.1
          ∙ ap (λ us. ok (record s { urls = us })) (append_assoc s.urls (raw ∷ []) raws))

  pub add_bootstrap-ok :
      (raws : List Bytes) (s : Settings) {t : Settings}
      → add_bootstrap txt raws s ≡ ok t
      → (addrs : List Bytes) × (map (normalize_dns_addr txt) raws ≡ map ok addrs)
        × (t ≡ record s { bootstrap = s.bootstrap ++ addrs })
  unfolding add_bootstrap
  add_bootstrap-ok [] s h = (
    [],
    refl,
    sym (ok-injective h) ∙ ap (λ us. record s { bootstrap = us }) (sym (append-nil s.bootstrap)),
  )
  add_bootstrap-ok (raw ∷ raws) s h =
      let (addr, here, rest) = >>=-eq-ok (normalize_dns_addr txt raw) _ h in
      let (addrs, m, e) =
        add_bootstrap-ok raws (record s { bootstrap = s.bootstrap ++ addr ∷ [] }) rest in
      (
        addr ∷ addrs,
        ap₂ (λ x xs. x ∷ xs) here m,
        e ∙ ap (λ us. record s { bootstrap = us }) (append_assoc s.bootstrap (addr ∷ []) addrs),
      )

  pub add_bootstrap_lem :
      (raws addrs : List Bytes) (s : Settings)
      → map (normalize_dns_addr txt) raws ≡ map ok addrs
      → add_bootstrap txt raws s ≡ ok (record s { bootstrap = s.bootstrap ++ addrs })
  unfolding add_bootstrap
  add_bootstrap_lem [] [] s h =
      ap (λ us. ok (record s { bootstrap = us })) (sym (append-nil s.bootstrap))
  add_bootstrap_lem [] (addr ∷ addrs) s h = cc
  add_bootstrap_lem (raw ∷ raws) [] s h = cc
  add_bootstrap_lem (raw ∷ raws) (addr ∷ addrs) s h =
      let here : normalize_dns_addr txt raw ≡ ok addr = cc in
      let more : map (normalize_dns_addr txt) raws ≡ map ok addrs = cc in
      rw (here, ◌>>=◌)
        (add_bootstrap_lem raws addrs (record s { bootstrap = s.bootstrap ++ addr ∷ [] }) more
          ∙ ap (λ us. ok (record s { bootstrap = us }))
              (append_assoc s.bootstrap (addr ∷ []) addrs))

pub add_allow-ok :
    (std : StdLib) (raws : List Bytes) (s : Settings) {t : Settings}
    → add_allow std raws s ≡ ok t
    → (names : List Bytes) × (map (normalize_entry std) raws ≡ map some names)
      × (t ≡ record s { allow = s.allow ++ names })
unfolding add_allow
add_allow-ok std [] s h =
    ([], refl, sym (ok-injective h) ∙ ap (λ us. record s { allow = us }) (sym (append-nil s.allow)))
add_allow-ok std (raw ∷ raws) s {t} h = elim (Option-cases (normalize_entry std raw)) [
  | inl bad ↦ ground arith
  | inr (name, here) ↦
      let rest : add_allow std raws (record s { allow = s.allow ++ name ∷ [] }) ≡ ok t =
        rw (here, add_allow) at h in
      let (names, m, e) = add_allow-ok std raws (record s { allow = s.allow ++ name ∷ [] }) rest in
      (
        name ∷ names,
        ap₂ (λ x xs. x ∷ xs) here m,
        e ∙ ap (λ us. record s { allow = us }) (append_assoc s.allow (name ∷ []) names),
      )
]

pub add_allow_lem :
    (std : StdLib) (raws names : List Bytes) (s : Settings)
    → map (normalize_entry std) raws ≡ map some names
    → add_allow std raws s ≡ ok (record s { allow = s.allow ++ names })
unfolding add_allow
add_allow_lem std [] [] s h = ap (λ us. ok (record s { allow = us })) (sym (append-nil s.allow))
add_allow_lem std [] (name ∷ names) s h = cc
add_allow_lem std (raw ∷ raws) [] s h = cc
add_allow_lem std (raw ∷ raws) (name ∷ names) s h =
    let here : normalize_entry std raw ≡ some name = cc in
    let more : map (normalize_entry std) raws ≡ map some names = cc in
    rw (here, add_allow)
      (add_allow_lem std raws names (record s { allow = s.allow ++ name ∷ [] }) more
        ∙ ap (λ us. ok (record s { allow = us })) (append_assoc s.allow (name ∷ []) names))
