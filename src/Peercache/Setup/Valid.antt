-- ===== src/Peercache/Setup/Valid.antt =====
-- What an accepted directive of the plugin gives.
use homedns.Prelude.{
  ℕ, ◌≤◌, ◌≡◌, ◌≢◌, refl, ap, subst, ◌⊎◌, inl, inr, Bool, true, false, List, [], ◌∷◌, Option, none,
  some, Bytes, codes, arith, Bool-cases, if◌then◌else◌, is_empty, str_eq, ok, err, ◌>>=◌, >>=-eq-ok,
  ok-injective, ℤ, pos, negsuc, is_port,
}
use homedns.Corefile.{Line, Occurrence, lines_of, TextLib}
use homedns.Peercache.Setup.{
  Settings, defaults, one_arg, check_port, parse_property, parse_block, parse_loop, finish_config,
  parse_config, bad_selector,
}

check_port-ok :
    (raw : Bytes) (o : Option ℤ) {n : ℕ} → check_port raw o ≡ ok n → (1 ≤ n) × (n ≤ 65535)
unfolding check_port
check_port-ok raw none h = cc
check_port-ok raw (some (pos k)) {n} h = elim (Bool-cases (is_port (pos k))) [
  | inl good ↦ let e = ok-injective (rw good at h) in ground arith
  | inr bad ↦ ground arith
]
check_port-ok raw (some (negsuc k)) h = cc

module _ (txt : TextLib) (is_selector : Bytes → Bool) where
  -- The port can be listened on, and a selector that was given is one.
  pub record IsSound (s : Settings) : Type 0 where
    pub low : 1 ≤ s.port
    pub high : s.port ≤ 65535
    pub selects : (s.selector ≡ []) ⊎ (is_selector s.selector ≡ true)

  parse_property-IsSound :
      (l : Line) (s : Settings) {t : Settings}
      → IsSound s
      → parse_property txt is_selector l s ≡ ok t
      → IsSound t
  unfolding parse_property
  parse_property-IsSound l s {t} sound h = elim (Bool-cases (str_eq l.name (codes "selector"))) [
    | inl selecting ↦ by_selector (rw selecting at h)
    | inr unselecting ↦ elim (Bool-cases (str_eq l.name (codes "port"))) [
      | inl porting ↦ by_port (rw porting at (rw unselecting at h))
      | inr unknown ↦ ground arith
    ]
  ]
    where
      by_selector :
          (one_arg l.args >>= λ raw.
          if is_selector raw then ok (record s { selector = raw }) else err (bad_selector raw))
            ≡ ok t
          → IsSound t
      by_selector h =
          let (raw, given, e) = >>=-eq-ok (one_arg l.args) _ h in
          elim (Bool-cases (is_selector raw)) [
            | inl good ↦
                subst IsSound (ok-injective (rw good at e))
                  (record { low = sound.low; high = sound.high; selects = inr good })
            | inr bad ↦ ground arith
          ]

      by_port :
          (one_arg l.args >>= λ raw.
          check_port raw (txt.atoi raw) >>= λ n. ok (record s { port = n }))
            ≡ ok t
          → IsSound t
      by_port h =
          let (raw, given, checked) = >>=-eq-ok (one_arg l.args) _ h in
          let (n, good, e) = >>=-eq-ok (check_port raw (txt.atoi raw)) _ checked in
          let (low, high) = check_port-ok raw (txt.atoi raw) good in
          subst IsSound (ok-injective e)
            (record { low = low; high = high; selects = sound.selects })

  parse_block-IsSound :
      (ls : List Line) (s : Settings) {t : Settings}
      → IsSound s
      → parse_block txt is_selector ls s ≡ ok t
      → IsSound t
  unfolding parse_block
  parse_block-IsSound [] s sound h = subst IsSound (ok-injective h) sound
  parse_block-IsSound (l ∷ ls) s sound h =
      let (mid, one, more) = >>=-eq-ok (parse_property txt is_selector l s) _ h in
      parse_block-IsSound ls mid (parse_property-IsSound l s sound one) more

  parse_loop-IsSound :
      (configured : Bool) (os : List Occurrence) (s : Settings) {t : Settings}
      → IsSound s
      → parse_loop txt is_selector configured os s ≡ ok t
      → IsSound t
  unfolding parse_loop
  parse_loop-IsSound true [] s sound h = subst IsSound (ok-injective h) sound
  parse_loop-IsSound false [] s sound h = subst IsSound (ok-injective h) sound
  parse_loop-IsSound true (o ∷ os) s sound h = cc
  parse_loop-IsSound false (o ∷ os) s {t} sound h = elim (Bool-cases (is_empty o.args)) [
    | inl bare ↦ read (rw bare at h)
    | inr args ↦ ground arith
  ]
    where
      read :
          (parse_block txt is_selector (lines_of o.block) s >>= parse_loop txt is_selector true os)
            ≡ ok t
          → IsSound t
      read h =
          let (mid, one, more) = >>=-eq-ok (parse_block txt is_selector (lines_of o.block) s) _ h in
          last os mid (parse_block-IsSound (lines_of o.block) s sound one) more
        where
          last :
              (os : List Occurrence) (mid : Settings)
              → IsSound mid
              → parse_loop txt is_selector true os mid ≡ ok t
              → IsSound t
          last [] mid good h = subst IsSound (ok-injective h) good
          last (p ∷ ps) mid good h = cc

  finish_config-ok :
      (given : Settings) {s : Settings}
      → finish_config txt is_selector given ≡ ok s
      → (given ≡ s) × (given.selector ≢ [])
  unfolding finish_config
  finish_config-ok given h = elim (Bool-cases (is_empty given.selector)) [
    | inl empty ↦ ground arith
    | inr full ↦ (ok-injective (rw full at h), λ e. cc (ap is_empty e, full))
  ]

  -- A configured plugin has a port in the range of ports, and a selector that labels.Parse accepts.
  pub parse_config-IsSound :
      (os : List Occurrence) {s : Settings}
      → parse_config txt is_selector os ≡ ok s
      → (1 ≤ s.port) × (s.port ≤ 65535) × (s.selector ≢ []) × (is_selector s.selector ≡ true)
  unfolding parse_config
  parse_config-IsSound os {s} h =
      let (given, looped, finished) =
        >>=-eq-ok (parse_loop txt is_selector false os defaults) _ h in
      let sound =
        parse_loop-IsSound false os defaults
          (record { low = omega arith; high = omega arith; selects = inl refl }) looped in
      let (same, full) = finish_config-ok given finished in
      subst
        (λ (t : Settings).
          (1 ≤ t.port) × (t.port ≤ 65535) × (t.selector ≢ []) × (is_selector t.selector ≡ true))
        same (sound.low, sound.high, full, selecting sound.selects full)
    where
      selecting :
          {sel : Bytes} → (sel ≡ []) ⊎ (is_selector sel ≡ true) → sel ≢ [] → is_selector sel ≡ true
      selecting (inl e) full = absurd (full e)
      selecting (inr good) full = good
