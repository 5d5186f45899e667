-- ===== src/Blocklist/Parse/Entry.antt =====
-- `normalizeEntry`: what it returns is a blockable domain in normal form.
use homedns.Prelude.{
  ℕ, suc, ◌<◌, ◌≡◌, refl, ap, ◌∙◌, ◌↔◌, true, false, ◌||◌, [], ◌∷◌, some, Bytes, All, arith, ◌==◌,
  codes, is_empty, All-imp, str_eq,
}
use homedns.Prelude.Text.{
  StdLib, to_lower, lower_byte, is_space, trim_space, trim_suffix, trim_prefix, to_lower_id,
  trim_space_id, trim_prefix_id,
}
use homedns.Blocklist.Matcher.{normalize_query}
use homedns.Blocklist.Parse.{
  is_label_byte, domain_loop, is_domain_name, contains_byte, contains, local_names, is_ip,
  canonical, normalize_entry,
}
use homedns.Blocklist.Parse.Domain.{
  IsDomainName, is_domain_name→IsDomainName, IsDomainName→is_domain_name,
}

-- A name that the list parser may store.
pub record IsBlockable (std : StdLib) (name : Bytes) : Type 0 where
  pub domain : IsDomainName name
  pub has_dot : contains_byte name b'.' ≡ true
  pub not_ip : is_ip std name ≡ false
  pub not_local : contains local_names name ≡ false

abbrev IsNameByte : ℕ → Type 0
IsNameByte c = (is_label_byte c || c == b'.') ≡ true

domain_loop-IsNameByte : (k : ℕ) (s : Bytes) → domain_loop k s ≡ true → All IsNameByte s
unfolding domain_loop
domain_loop-IsNameByte k [] h = tt
domain_loop-IsNameByte k (c ∷ s) h =
    ground (arith, domain_loop-IsNameByte 0 s, domain_loop-IsNameByte (suc k) s)

IsNameByte-plain : (c : ℕ) → IsNameByte c → (c < 128) × (lower_byte c ≡ c) × (is_space c ≡ false)
unfolding is_label_byte lower_byte is_space
IsNameByte-plain c h = ground arith

label_byte-plain : (c : ℕ) → is_label_byte c ≡ true → ((c == b'*') ≡ false) × ((c == b'.') ≡ false)
unfolding is_label_byte
label_byte-plain c h = ground arith

domain_loop-trim_suffix :
    (k : ℕ) (s : Bytes) → domain_loop k s ≡ true → trim_suffix s (codes ".") ≡ s
unfolding domain_loop trim_suffix str_eq
domain_loop-trim_suffix k [] h = refl
domain_loop-trim_suffix k (c ∷ []) h = ground arith
domain_loop-trim_suffix k (c ∷ d ∷ s) h =
    ground (arith, domain_loop-trim_suffix 0 (d ∷ s), domain_loop-trim_suffix (suc k) (d ∷ s))

-- A name does not begin with a dot or an asterisk, and is not empty.
domain_loop-first :
    (s : Bytes)
    → domain_loop 0 s ≡ true
    → (trim_prefix s (codes "*.") ≡ s) × (trim_prefix s (codes ".") ≡ s) × (is_empty s ≡ false)
unfolding domain_loop
domain_loop-first [] h = ground arith
domain_loop-first (c ∷ s) h =
    let label : is_label_byte c ≡ true = ground arith in
    let plain = label_byte-plain c label in
    (trim_prefix_id c b'*' s (codes ".") plain.0, trim_prefix_id c b'.' s [] plain.1, refl)

module _ (std : StdLib) where
  to_lower-name : (s : Bytes) → All IsNameByte s → to_lower std s ≡ s
  to_lower-name s h =
      to_lower_id std s (All-imp _ _ s (λ c k. (IsNameByte-plain c k).0) h)
        (All-imp _ _ s (λ c k. (IsNameByte-plain c k).1) h)

  trim_space-name : (s : Bytes) → All IsNameByte s → trim_space std s ≡ s
  trim_space-name s h =
      trim_space_id std s (All-imp _ _ s (λ c k. (IsNameByte-plain c k).0) h)
        (All-imp _ _ s (λ c k. (IsNameByte-plain c k).2) h)

  -- The guards that an accepted entry has passed.
  normalize_entry_inv :
      (s : Bytes) {name : Bytes}
      → normalize_entry std s ≡ some name
      → (canonical std s ≡ name)
        × (is_ip std (canonical std s) ≡ false)
        × (contains_byte (canonical std s) b'.' ≡ true)
        × (is_domain_name (canonical std s) ≡ true)
        × (contains local_names (canonical std s) ≡ false)
  unfolding normalize_entry
  normalize_entry_inv s h = ground arith

  -- What `normalizeEntry` returns is blockable.
  pub normalize_entry-IsBlockable :
      (s : Bytes) {name : Bytes} → normalize_entry std s ≡ some name → IsBlockable std name
  normalize_entry-IsBlockable s {name} h =
      let (e, ip, dot, domain, local) = normalize_entry_inv s h in
      record {
        domain = is_domain_name→IsDomainName name (rw e at domain);
        has_dot = rw e at dot;
        not_ip = rw e at ip;
        not_local = rw e at local;
      }

  module _ (name : Bytes) (accepted : domain_loop 0 name ≡ true) where
    canonical-name : canonical std name ≡ name
    unfolding canonical
    canonical-name =
        let bytes = domain_loop-IsNameByte 0 name accepted in
        let (star, dot, _) = domain_loop-first name accepted in
        rw
          (
            trim_space-name name bytes,
            to_lower-name name bytes,
            domain_loop-trim_suffix 0 name accepted,
          )
          (ap (λ t. trim_prefix t (codes ".")) star ∙ dot)

    normalize_query-name : normalize_query std name ≡ name
    unfolding normalize_query
    normalize_query-name =
        rw (to_lower-name name (domain_loop-IsNameByte 0 name accepted))
          (domain_loop-trim_suffix 0 name accepted)

  IsBlockable-domain_loop : (name : Bytes) → IsBlockable std name → domain_loop 0 name ≡ true
  unfolding is_domain_name
  IsBlockable-domain_loop name b = ground (arith, IsDomainName→is_domain_name name b.domain)

  -- A blockable name is returned as it is.
  IsBlockable-normalize_entry :
      (name : Bytes) → IsBlockable std name → normalize_entry std name ≡ some name
  unfolding normalize_entry
  IsBlockable-normalize_entry name b =
      let loop = IsBlockable-domain_loop name b in
      let (_, _, full) = domain_loop-first name loop in
      rw (canonical-name name loop) (
        ground (
          arith,
          IsDomainName→is_domain_name name b.domain,
          full,
          b.not_ip,
          b.has_dot,
          b.not_local,
        ))

  -- A query for a blockable name reaches the matcher as that name.
  IsBlockable-normalize_query :
      (name : Bytes) → IsBlockable std name → normalize_query std name ≡ name
  IsBlockable-normalize_query name b = normalize_query-name name (IsBlockable-domain_loop name b)

  -- Normalising twice is normalising once, and the blockable names are what it leaves alone.
  pub normalize_entry_idem :
      (s : Bytes) {name : Bytes}
      → normalize_entry std s ≡ some name
      → (normalize_entry std name ≡ some name) × (normalize_query std name ≡ name)
  normalize_entry_idem s {name} h =
      let b = normalize_entry-IsBlockable s h in
      (IsBlockable-normalize_entry name b, IsBlockable-normalize_query name b)

  -- The blockable names are exactly those that `normalizeEntry` returns unchanged.
  pub normalize_entry_iff :
      (name : Bytes) → (normalize_entry std name ≡ some name) ↔ IsBlockable std name
  normalize_entry_iff name = (normalize_entry-IsBlockable name, IsBlockable-normalize_entry name)
