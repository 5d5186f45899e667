-- ===== src/Race/Setup/Reads.antt =====
-- What a line of the block means, and that `parseConfig` reads it so.
use homedns.Prelude.{
  ℕ, zero, suc, ◌<◌, ◌≡◌, refl, ap, subst, inl, inr, List, [], ◌∷◌, Option, none, some, Bytes,
  codes, arith, Bool-cases, str_eq, str_eq-eq, ok, ◌>>=◌, >>=-eq-ok, ok-injective, ℤ, pos, negsuc,
}
use homedns.Corefile.{Line, TextLib}
use homedns.Race.Setup.{Race, UpstreamLib, one_arg, check_expire, parse_property, parse_block}

-- A line turns one state of the plugin into the next.
pub data Reads (txt : TextLib) (l : Line) (rc : Race) : Race → Type 0 where
  name_line :
      (name : Bytes)
      → l.name ≡ codes "tls_servername"
      → l.args ≡ name ∷ []
      → Reads txt l rc (record rc { tls_server_name = name })
  expire_line :
      (raw : Bytes) (d : ℕ)
      → l.name ≡ codes "expire"
      → l.args ≡ raw ∷ []
      → txt.parse_duration raw ≡ some (pos d)
      → 0 < d
      → Reads txt l rc (record rc { expire = d })

-- The lines in their order.
pub data ReadsAll (txt : TextLib) : List Line → Race → Race → Type 0 where
  end : {rc : Race} → ReadsAll txt [] rc rc
  line :
      {l : Line} {ls : List Line} {rc mid out : Race}
      → Reads txt l rc mid
      → ReadsAll txt ls mid out
      → ReadsAll txt (l ∷ ls) rc out

one_arg-ok : (args : List Bytes) {arg : Bytes} → one_arg args ≡ ok arg → args ≡ arg ∷ []
unfolding one_arg
one_arg-ok [] h = cc
one_arg-ok (arg ∷ []) h = ap (λ a. a ∷ []) (ok-injective h)
one_arg-ok (arg ∷ more ∷ args) h = cc

check_expire-ok :
    (raw : Bytes) (o : Option ℤ) {d : ℕ} → check_expire raw o ≡ ok d → (o ≡ some (pos d)) × (0 < d)
unfolding check_expire
check_expire-ok raw none h = cc
check_expire-ok raw (some (pos zero)) h = cc
check_expire-ok raw (some (pos (suc n))) h =
    let e = ok-injective h in (ap (λ d. some (pos d)) e, omega (arith, e))
check_expire-ok raw (some (negsuc n)) h = cc

check_expire_lem : (raw : Bytes) (d : ℕ) → 0 < d → check_expire raw (some (pos d)) ≡ ok d
unfolding check_expire
check_expire_lem raw zero p = absurd (omega (arith, p))
check_expire_lem raw (suc d) p = refl

module _ (txt : TextLib) (up : UpstreamLib) where
  parse_property-Reads :
      (l : Line) (rc : Race) {out : Race} → parse_property txt up l rc ≡ ok out → Reads txt l rc out
  unfolding parse_property
  parse_property-Reads l rc {out} h = elim (Bool-cases (str_eq l.name (codes "tls_servername"))) [
    | inl named ↦ by_name (str_eq-eq l.name _ named) (rw named at h)
    | inr unnamed ↦ elim (Bool-cases (str_eq l.name (codes "expire"))) [
      | inl timed ↦ by_time (str_eq-eq l.name _ timed) (rw timed at (rw unnamed at h))
      | inr unknown ↦ ground arith
    ]
  ]
    where
      by_name :
          l.name ≡ codes "tls_servername"
          → (one_arg l.args >>= λ name. ok (record rc { tls_server_name = name })) ≡ ok out
          → Reads txt l rc out
      by_name is h =
          let (name, given, e) = >>=-eq-ok (one_arg l.args) _ h in
          subst (Reads txt l rc) (ok-injective e) (name_line name is (one_arg-ok l.args given))

      by_time :
          l.name ≡ codes "expire"
          → (one_arg l.args >>= λ raw.
              check_expire raw (txt.parse_duration raw) >>= λ d. ok (record rc { expire = d }))
            ≡ ok out
          → Reads txt l rc out
      by_time is h =
          let (raw, given, checked) = >>=-eq-ok (one_arg l.args) _ h in
          let (d, some_time, e) = >>=-eq-ok (check_expire raw (txt.parse_duration raw)) _ checked in
          let (parsed, positive_d) = check_expire-ok raw (txt.parse_duration raw) some_time in
          subst (Reads txt l rc) (ok-injective e)
            (expire_line raw d is (one_arg-ok l.args given) parsed positive_d)

  Reads-parse_property :
      {l : Line} {rc out : Race} → Reads txt l rc out → parse_property txt up l rc ≡ ok out
  unfolding parse_property one_arg str_eq
  Reads-parse_property (name_line name is given) = rw (is, given) refl
  Reads-parse_property (expire_line raw d is given parsed p) =
      rw (is, given, parsed, check_expire_lem raw d p) refl

  pub parse_block-ReadsAll :
      (ls : List Line) (rc : Race) {out : Race}
      → parse_block txt up ls rc ≡ ok out
      → ReadsAll txt ls rc out
  unfolding parse_block
  parse_block-ReadsAll [] rc h = subst (ReadsAll txt [] rc) (ok-injective h) end
  parse_block-ReadsAll (l ∷ ls) rc h =
      let (mid, one, more) = >>=-eq-ok (parse_property txt up l rc) _ h in
      line (parse_property-Reads l rc one) (parse_block-ReadsAll ls mid more)

  pub ReadsAll-parse_block :
      {ls : List Line} {rc out : Race} → ReadsAll txt ls rc out → parse_block txt up ls rc ≡ ok out
  unfolding parse_block
  ReadsAll-parse_block end = refl
  ReadsAll-parse_block (line one more) =
      rw (Reads-parse_property one, ◌>>=◌) (ReadsAll-parse_block more)

-- A block does not touch the upstreams.
pub ReadsAll-proxies :
    {txt : TextLib} {ls : List Line} {rc out : Race}
    → ReadsAll txt ls rc out
    → out.proxies ≡ rc.proxies
ReadsAll-proxies end = refl
ReadsAll-proxies (line (name_line name is given) more) = ReadsAll-proxies more
ReadsAll-proxies (line (expire_line raw d is given parsed p) more) = ReadsAll-proxies more
