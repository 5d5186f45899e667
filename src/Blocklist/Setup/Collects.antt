-- ===== src/Blocklist/Setup/Collects.antt =====
-- What the settings of an accepted directive hold.
use homedns.Prelude.{
  ◌≤◌, ◌<◌, ◌≡◌, ◌≢◌, refl, sym, ap, ap₂, subst, ◌∙◌, false, List, [], ◌∷◌, ◌++◌, append-nil,
  append_assoc, map, some, Bytes, codes, arith, ok, if◌then◌else◌, str_eq, str_eq_self, is_empty,
  All, All-append,
}
use mathlib.Core.List.{map-append}
use homedns.Prelude.Text.{StdLib}
use homedns.Corefile.{Line, Occurrence, lines_of, TextLib}
use homedns.Blocklist.Parse.{normalize_entry}
use homedns.Blocklist.Parse.Entry.{IsBlockable, normalize_entry-IsBlockable}
use homedns.Blocklist.Setup.{
  Settings, default_bootstrap_dns, minute, normalize_dns_addr, parse_config,
}
use homedns.Blocklist.Setup.Args.{IsHttpUrl}
use homedns.Blocklist.Setup.Reads.{url_line, allow_line, bootstrap_line, refresh_line, timeout_line}
use homedns.Blocklist.Setup.Accepts.{ReadsAll, end, line, parse_config_iff}

-- The arguments of all lines with a name, in their order.
unfoldable pub args_of : Bytes → List Line → List Bytes
args_of name [] = []
args_of name (l ∷ ls) = (if str_eq l.name name then l.args else []) ++ args_of name ls

unfoldable pub all_lines : List Occurrence → List Line
all_lines [] = []
all_lines (o ∷ os) = lines_of o.block ++ all_lines os

args_of_own :
    (name : Bytes) (l : Line) (ls : List Line)
    → l.name ≡ name
    → args_of name (l ∷ ls) ≡ l.args ++ args_of name ls
unfolding args_of
args_of_own name l ls e = rw (e, args_of) (rw (str_eq_self name) refl)

args_of_other :
    (name other : Bytes) (l : Line) (ls : List Line)
    → l.name ≡ other
    → str_eq other name ≡ false
    → args_of name (l ∷ ls) ≡ args_of name ls
unfolding args_of
args_of_other name other l ls e d = rw (e, args_of) (rw d refl)

module _ (std : StdLib) (txt : TextLib) where
  collect_urls :
      {ls : List Line} {s t : Settings}
      → ReadsAll std txt ls s t
      → (t.urls ≡ s.urls ++ args_of (codes "url") ls)
        × All (IsHttpUrl txt) (args_of (codes "url") ls)
  unfolding str_eq args_of
  collect_urls (end {s = s}) = (sym (append-nil s.urls), tt)
  collect_urls (line {l = l} {ls = ls} {s = s} (url_line is ne good) more) =
      let (e, a) = collect_urls more in
      rw (args_of_own (codes "url") l ls is)
        (e ∙ append_assoc s.urls l.args _, All-append (IsHttpUrl txt) l.args _ good a)
  collect_urls (line {l = l} {ls = ls} (allow_line names is ne m) more) =
      rw (args_of_other (codes "url") _ l ls is refl) (collect_urls more)
  collect_urls (line {l = l} {ls = ls} (bootstrap_line addrs is ne m) more) =
      rw (args_of_other (codes "url") _ l ls is refl) (collect_urls more)
  collect_urls (line {l = l} {ls = ls} (refresh_line raw d is one at long) more) =
      rw (args_of_other (codes "url") _ l ls is refl) (collect_urls more)
  collect_urls (line {l = l} {ls = ls} (timeout_line raw d is one at pos) more) =
      rw (args_of_other (codes "url") _ l ls is refl) (collect_urls more)

  collect_allow :
      {ls : List Line} {s t : Settings}
      → ReadsAll std txt ls s t
      → (names : List Bytes) × (t.allow ≡ s.allow ++ names)
        × (map (normalize_entry std) (args_of (codes "allow") ls) ≡ map some names)
  unfolding str_eq args_of
  collect_allow (end {s = s}) = ([], sym (append-nil s.allow), refl)
  collect_allow (line {l = l} {ls = ls} {s = s} (allow_line names is ne m) more) =
      let (rest, e, a) = collect_allow more in
      (
        names ++ rest,
        e ∙ append_assoc s.allow names rest,
        rw (args_of_own (codes "allow") l ls is)
            (map-append _ l.args _ ∙ ap₂ (λ xs ys. xs ++ ys) m a ∙ sym (map-append _ names rest)),
      )
  collect_allow (line {l = l} {ls = ls} (url_line is ne good) more) =
      rw (args_of_other (codes "allow") _ l ls is refl) (collect_allow more)
  collect_allow (line {l = l} {ls = ls} (bootstrap_line addrs is ne m) more) =
      rw (args_of_other (codes "allow") _ l ls is refl) (collect_allow more)
  collect_allow (line {l = l} {ls = ls} (refresh_line raw d is one at long) more) =
      rw (args_of_other (codes "allow") _ l ls is refl) (collect_allow more)
  collect_allow (line {l = l} {ls = ls} (timeout_line raw d is one at pos) more) =
      rw (args_of_other (codes "allow") _ l ls is refl) (collect_allow more)

  collect_bootstrap :
      {ls : List Line} {s t : Settings}
      → ReadsAll std txt ls s t
      → (addrs : List Bytes) × (t.bootstrap ≡ s.bootstrap ++ addrs)
        × (map (normalize_dns_addr txt) (args_of (codes "bootstrap_dns") ls) ≡ map ok addrs)
  unfolding str_eq args_of
  collect_bootstrap (end {s = s}) = ([], sym (append-nil s.bootstrap), refl)
  collect_bootstrap (line {l = l} {ls = ls} {s = s} (bootstrap_line addrs is ne m) more) =
      let (rest, e, a) = collect_bootstrap more in
      (
        addrs ++ rest,
        e ∙ append_assoc s.bootstrap addrs rest,
        rw (args_of_own (codes "bootstrap_dns") l ls is)
            (map-append _ l.args _ ∙ ap₂ (λ xs ys. xs ++ ys) m a ∙ sym (map-append _ addrs rest)),
      )
  collect_bootstrap (line {l = l} {ls = ls} (url_line is ne good) more) =
      rw (args_of_other (codes "bootstrap_dns") _ l ls is refl) (collect_bootstrap more)
  collect_bootstrap (line {l = l} {ls = ls} (allow_line names is ne m) more) =
      rw (args_of_other (codes "bootstrap_dns") _ l ls is refl) (collect_bootstrap more)
  collect_bootstrap (line {l = l} {ls = ls} (refresh_line raw d is one at long) more) =
      rw (args_of_other (codes "bootstrap_dns") _ l ls is refl) (collect_bootstrap more)
  collect_bootstrap (line {l = l} {ls = ls} (timeout_line raw d is one at pos) more) =
      rw (args_of_other (codes "bootstrap_dns") _ l ls is refl) (collect_bootstrap more)

  keep_bounds :
      {ls : List Line} {s t : Settings}
      → ReadsAll std txt ls s t
      → minute ≤ s.refresh
      → 0 < s.ready_timeout
      → (minute ≤ t.refresh) × (0 < t.ready_timeout)
  keep_bounds end h k = (h, k)
  keep_bounds (line (url_line is ne good) more) h k = keep_bounds more h k
  keep_bounds (line (allow_line names is ne m) more) h k = keep_bounds more h k
  keep_bounds (line (bootstrap_line addrs is ne m) more) h k = keep_bounds more h k
  keep_bounds (line (refresh_line raw d is one at long) more) h k = keep_bounds more long k
  keep_bounds (line (timeout_line raw d is one at some_time) more) h k =
      keep_bounds more h some_time

  allowed-IsBlockable :
      (raws names : List Bytes)
      → map (normalize_entry std) raws ≡ map some names
      → All (IsBlockable std) names
  allowed-IsBlockable [] [] h = tt
  allowed-IsBlockable [] (name ∷ names) h = cc
  allowed-IsBlockable (raw ∷ raws) [] h = tt
  allowed-IsBlockable (raw ∷ raws) (name ∷ names) h =
      (normalize_entry-IsBlockable std raw (cc), allowed-IsBlockable raws names (cc))

  -- What a running plugin relies on.
  pub record IsUsable (os : List Occurrence) (s : Settings) : Type 0 where
    pub urls_eq : s.urls ≡ args_of (codes "url") (all_lines os)
    pub has_url : s.urls ≢ []
    pub https : All (IsHttpUrl txt) s.urls
    pub allow_eq :
        map some s.allow ≡ map (normalize_entry std) (args_of (codes "allow") (all_lines os))
    pub allowed : All (IsBlockable std) s.allow
    pub given_dns : List Bytes
    pub given_eq :
        map ok given_dns
        ≡ map (normalize_dns_addr txt) (args_of (codes "bootstrap_dns") (all_lines os))
    pub bootstrap_eq :
        s.bootstrap ≡ (if is_empty given_dns then default_bootstrap_dns else given_dns)
    pub long_enough : minute ≤ s.refresh
    pub some_time : 0 < s.ready_timeout

  -- Accepted settings hold the arguments of all `url` lines in their order, each an http or https URL
  -- with a host, and one at least; those of all `allow` lines as blockable names; those of all
  -- `bootstrap_dns` lines as addresses, or the default ones if there are none; a refresh period of
  -- a minute or more, and a positive timeout.
  pub parse_config-IsUsable :
      (os : List Occurrence) (s : Settings) → parse_config std txt os ≡ ok s → IsUsable os s
  unfolding all_lines
  parse_config-IsUsable os s h =
      let a = (parse_config_iff std txt os s).0 h in
      let (urls, https) = collect_urls a.lines in
      let (names, allow, allowed) = collect_allow a.lines in
      let (addrs, dns, dialled) = collect_bootstrap a.lines in
      let (long, some_time) = keep_bounds a.lines (omega arith) (omega arith) in
      let whole : all_lines os ≡ lines_of a.block =
        ap all_lines a.once ∙ append-nil (lines_of a.block) in
      let same_urls : s.urls ≡ a.given.urls = ap (λ t. t.urls) a.settings in
      record {
        urls_eq = same_urls ∙ urls ∙ ap (args_of (codes "url")) (sym whole);
        has_url = λ e. a.has_url (sym same_urls ∙ e);
        https = subst (All (IsHttpUrl txt)) (sym (same_urls ∙ urls)) https;
        allow_eq =
            ap (λ t. map some t.allow) a.settings
            ∙ ap (map some) allow
            ∙ sym allowed
            ∙ ap (λ ls. map (normalize_entry std) (args_of (codes "allow") ls)) (sym whole);
        allowed =
            subst (All (IsBlockable std)) (sym (ap (λ t. t.allow) a.settings ∙ allow))
              (allowed-IsBlockable _ names allowed);
        given_dns = addrs;
        given_eq =
            sym dialled
            ∙ ap (λ ls. map (normalize_dns_addr txt) (args_of (codes "bootstrap_dns") ls))
                (sym whole);
        bootstrap_eq =
            ap (λ t. t.bootstrap) a.settings
            ∙ ap (λ b. if is_empty b then default_bootstrap_dns else b) dns;
        long_enough = subst (λ t. minute ≤ t.refresh) (sym a.settings) long;
        some_time = subst (λ t. 0 < t.ready_timeout) (sym a.settings) some_time;
      }
