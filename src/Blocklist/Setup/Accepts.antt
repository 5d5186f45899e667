-- ===== src/Blocklist/Setup/Accepts.antt =====
-- `parseConfig` against the meaning of the lines.
use homedns.Prelude.{
  ◌≡◌, ◌≢◌, refl, sym, ap, subst, ◌∙◌, ◌↔◌, inl, inr, Bool, true, false, List, [], ◌∷◌, Option,
  arith, Bool-cases, ok, ◌>>=◌, >>=-eq-ok, ok-injective, if◌then◌else◌, is_empty, is_empty-nil,
}
use homedns.Prelude.Text.{StdLib}
use homedns.Corefile.{Line, Occurrence, lines_of, TextLib}
use homedns.Blocklist.Setup.{
  Settings, defaults, default_bootstrap_dns, parse_property, parse_block, parse_loop, finish_config,
  parse_config,
}
use homedns.Blocklist.Setup.Reads.{Reads, parse_property-Reads, Reads-parse_property}

module _ (std : StdLib) (txt : TextLib) where
  -- The lines in their order.
  pub data ReadsAll : List Line → Settings → Settings → Type 0 where
    end : {s : Settings} → ReadsAll [] s s
    line :
        {l : Line} {ls : List Line} {s t u : Settings}
        → Reads std txt l s t
        → ReadsAll ls t u
        → ReadsAll (l ∷ ls) s u

  parse_block-ReadsAll :
      (ls : List Line) (s : Settings) {t : Settings}
      → parse_block std txt ls s ≡ ok t
      → ReadsAll ls s t
  unfolding parse_block
  parse_block-ReadsAll [] s h = subst (λ u. ReadsAll [] s u) (ok-injective h) end
  parse_block-ReadsAll (l ∷ ls) s h =
      let (u, one, more) = >>=-eq-ok (parse_property std txt l s) _ h in
      line (parse_property-Reads std txt l s one) (parse_block-ReadsAll ls u more)

  ReadsAll-parse_block :
      {ls : List Line} {s t : Settings} → ReadsAll ls s t → parse_block std txt ls s ≡ ok t
  unfolding parse_block
  ReadsAll-parse_block end = refl
  ReadsAll-parse_block (line {l = l} {s = s} one more) =
      rw (Reads-parse_property std txt l s one, ◌>>=◌) (ReadsAll-parse_block more)

  -- The settings behind the defaults, if no `bootstrap_dns` is given.
  abbrev pub or_default : Settings → Settings
  or_default s = record s {
    bootstrap = if is_empty s.bootstrap then default_bootstrap_dns else s.bootstrap;
  }

  -- The directive stands once, without arguments, its lines mean settings, and one of them a URL.
  pub record Accepts (os : List Occurrence) (s : Settings) : Type 0 where
    pub block : Option (List Line)
    pub given : Settings
    pub once : os ≡ record { args = []; block = block } ∷ []
    pub lines : ReadsAll (lines_of block) defaults given
    pub has_url : given.urls ≢ []
    pub settings : s ≡ or_default given

  finish_config_lem :
      (given : Settings) → given.urls ≢ [] → finish_config std txt given ≡ ok (or_default given)
  unfolding finish_config
  finish_config_lem given has = elim (Bool-cases (is_empty given.urls)) [
    | inl empty ↦ absurd (has (is_empty-nil given.urls empty))
    | inr full ↦ rw full (ap ok (default_if (is_empty given.bootstrap)))
  ]
    where
      default_if :
          (b : Bool)
          → (if b then record given { bootstrap = default_bootstrap_dns } else given)
            ≡ record given { bootstrap = if b then default_bootstrap_dns else given.bootstrap }
      default_if true = refl
      default_if false = refl

  no_urls_fail :
      (given : Settings) {s : Settings} → given.urls ≡ [] → finish_config std txt given ≡ ok s → ⊥
  unfolding finish_config
  no_urls_fail given none_given h = cc (ap is_empty none_given, h)

  finish_config-ok :
      (given : Settings) {s : Settings}
      → finish_config std txt given ≡ ok s
      → (given.urls ≢ []) × (s ≡ or_default given)
  finish_config-ok given h =
      let has : given.urls ≢ [] = λ e. no_urls_fail given e h in
      (has, ok-injective (sym h ∙ finish_config_lem given has))

  Accepts-of_block :
      (o : Occurrence) (others : List Occurrence) {s : Settings}
      → (parse_loop std txt false (o ∷ others) defaults >>= finish_config std txt) ≡ ok s
      → Accepts (o ∷ others) s
  unfolding parse_loop
  Accepts-of_block o others {s} h = elim (Bool-cases (is_empty o.args)) [
    | inl bare ↦ one (is_empty-nil o.args bare) others (rw bare at h)
    | inr args ↦ ground arith
  ]
    where
      one :
          o.args ≡ []
          → (others : List Occurrence)
          → ((parse_block std txt (lines_of o.block) defaults >>= parse_loop std txt true others)
              >>= finish_config std txt)
            ≡ ok s
          → Accepts (o ∷ others) s
      one bare [] h =
          let (t, looped, finished) =
            >>=-eq-ok
              (parse_block std txt (lines_of o.block) defaults >>= parse_loop std txt true []) _
              h in
          let (given, read, same) =
            >>=-eq-ok (parse_block std txt (lines_of o.block) defaults) _ looped in
          let (has, settings) = finish_config-ok given (rw (ok-injective same) finished) in
          record {
            block = o.block;
            given = given;
            once = ap (λ a. record { args = a; block = o.block } ∷ []) bare;
            lines = parse_block-ReadsAll (lines_of o.block) defaults read;
            has_url = has;
            settings = settings;
          }
      one bare (p ∷ more) h =
          let (t, looped, finished) =
            >>=-eq-ok
              (parse_block std txt (lines_of o.block) defaults
                >>= parse_loop std txt true (p ∷ more))
              _ h in
          let (given, read, same) =
            >>=-eq-ok (parse_block std txt (lines_of o.block) defaults) _ looped in
          cc

  -- `parseConfig` accepts exactly the directives whose lines have a meaning, with the settings that
  -- they mean.
  pub parse_config_iff :
      (os : List Occurrence) (s : Settings) → (parse_config std txt os ≡ ok s) ↔ Accepts os s
  unfolding parse_config parse_loop
  parse_config_iff os s = (accepts os, parses)
    where
      accepts : (os : List Occurrence) → parse_config std txt os ≡ ok s → Accepts os s
      accepts [] h = absurd (no_urls_fail defaults refl h)
      accepts (o ∷ others) h = Accepts-of_block o others h

      parses : Accepts os s → parse_config std txt os ≡ ok s
      parses a = rw a.once (
          rw (ReadsAll-parse_block a.lines, ◌>>=◌)
            (finish_config_lem a.given a.has_url ∙ ap ok (sym a.settings)))
