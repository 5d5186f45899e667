-- ===== src/Race/Setup/Proxies.antt =====
-- The loop over the hosts makes one proxy of each.
use homedns.Prelude.{
  ℕ, ◌≡◌, refl, sym, ap, subst, ◌∙◌, ◌⊎◌, inl, inr, List, [], ◌∷◌, ◌++◌, append_assoc, append-nil,
  none, some, Bytes, ok, ◌>>=◌, >>=-eq-ok, ok-injective,
}
use homedns.Corefile.{TextLib}
use homedns.Race.{max_idle_conns}
use homedns.Race.Setup.{
  Transport, dns, tls, other, TlsConfig, Proxy, Race, UpstreamLib, new_proxy, add_proxies,
}

-- The proxy that stands for a host: over DNS, or over TLS with the shared configuration.
pub record IsProxyOf (up : UpstreamLib) (config : TlsConfig) (expire : ℕ) (host : Bytes) (p : Proxy)
    : Type 0 where
  pub split : up.transport host ≡ (p.trans, p.addr)
  pub secured :
      ((p.trans ≡ dns) × (p.tls_config ≡ none)) ⊎ ((p.trans ≡ tls) × (p.tls_config ≡ some config))
  pub expires : p.expire ≡ expire
  pub idles : p.max_idle ≡ max_idle_conns

-- One proxy for each host, in their order.
abbrev pub AreProxiesOf : UpstreamLib → TlsConfig → ℕ → List Bytes → List Proxy → Type 0
AreProxiesOf up config expire [] [] = Unit
AreProxiesOf up config expire [] (p ∷ ps) = ⊥
AreProxiesOf up config expire (host ∷ hosts) [] = ⊥
AreProxiesOf up config expire (host ∷ hosts) (p ∷ ps) =
    IsProxyOf up config expire host p × AreProxiesOf up config expire hosts ps

new_proxy-IsProxyOf :
    (up : UpstreamLib) (config : TlsConfig) (expire : ℕ) (host : Bytes) (t : Transport × Bytes)
    {p : Proxy}
    → up.transport host ≡ t
    → new_proxy config expire host t ≡ ok p
    → IsProxyOf up config expire host p
unfolding new_proxy
new_proxy-IsProxyOf up config expire host (dns, addr) at h =
    subst (IsProxyOf up config expire host) (ok-injective h)
      (record { split = at; secured = inl (refl, refl); expires = refl; idles = refl })
new_proxy-IsProxyOf up config expire host (tls, addr) at h =
    subst (IsProxyOf up config expire host) (ok-injective h)
      (record { split = at; secured = inr (refl, refl); expires = refl; idles = refl })
new_proxy-IsProxyOf up config expire host (other name, addr) at h = cc

-- The same proxy from its fields.
made_of :
    (config : TlsConfig) (expire : ℕ) (host : Bytes) (p : Proxy)
    → ((p.trans ≡ dns) × (p.tls_config ≡ none)) ⊎ ((p.trans ≡ tls) × (p.tls_config ≡ some config))
    → p.expire ≡ expire
    → p.max_idle ≡ max_idle_conns
    → new_proxy config expire host (p.trans, p.addr) ≡ ok p
unfolding new_proxy
made_of config expire host p (inl (d, n)) e i = rw d (cc (n, e, i))
made_of config expire host p (inr (t, c)) e i = rw t (cc (c, e, i))

module _ (txt : TextLib) (up : UpstreamLib) where
  pub add_proxies-ok :
      (config : TlsConfig) (hosts : List Bytes) (rc : Race) {out : Race}
      → add_proxies txt up config hosts rc ≡ ok out
      → (ps : List Proxy) × (out ≡ record rc { proxies = rc.proxies ++ ps })
        × AreProxiesOf up config rc.expire hosts ps
  unfolding add_proxies
  add_proxies-ok config [] rc {out} h = (
    [],
    sym (ok-injective h)
        ∙ ap (λ (ps : List Proxy). record rc { proxies = ps }) (sym (append-nil rc.proxies)),
    tt,
  )
  add_proxies-ok config (host ∷ hosts) rc h =
      let (p, made, rest) = >>=-eq-ok (new_proxy config rc.expire host (up.transport host)) _ h in
      let (ps, e, all) =
        add_proxies-ok config hosts (record rc { proxies = rc.proxies ++ p ∷ [] }) rest in
      (
        p ∷ ps,
        e
            ∙ ap (λ (qs : List Proxy). record rc { proxies = qs })
                (append_assoc rc.proxies (p ∷ []) ps),
        (new_proxy-IsProxyOf up config rc.expire host (up.transport host) refl made, all),
      )

  pub add_proxies_lem :
      (config : TlsConfig) (hosts : List Bytes) (rc : Race) (ps : List Proxy)
      → AreProxiesOf up config rc.expire hosts ps
      → add_proxies txt up config hosts rc ≡ ok (record rc { proxies = rc.proxies ++ ps })
  unfolding add_proxies
  add_proxies_lem config [] rc [] all =
      ap (λ (ps : List Proxy). ok (record rc { proxies = ps })) (sym (append-nil rc.proxies))
  add_proxies_lem config [] rc (p ∷ ps) all = absurd all
  add_proxies_lem config (host ∷ hosts) rc [] all = absurd all
  add_proxies_lem config (host ∷ hosts) rc (p ∷ ps) (one, all) =
      rw (one.split, made_of config rc.expire host p one.secured one.expires one.idles, ◌>>=◌)
        (add_proxies_lem config hosts (record rc { proxies = rc.proxies ++ p ∷ [] }) ps all
          ∙ ap (λ (qs : List Proxy). ok (record rc { proxies = qs }))
              (append_assoc rc.proxies (p ∷ []) ps))
