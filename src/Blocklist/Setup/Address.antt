-- ===== src/Blocklist/Setup/Address.antt =====
-- `normalizeDNSAddr`.
use homedns.Prelude.{
  ◌≡◌, refl, sym, subst, ◌⊎◌, inl, inr, true, false, Option, none, some, Bytes, codes, arith,
  Bool-cases, ok, ℤ, pos, is_port, ok-injective,
}
use homedns.Corefile.{TextLib, TextLaws, has_bracket}
use homedns.Blocklist.Setup.{valid_port, join_port, split_addr, whole_addr, normalize_dns_addr}

-- An address joined to a port number: nothing in it has to be looked up.
pub record IsDialable (txt : TextLib) (joined : Bytes) : Type 0 where
  pub raw_host : Bytes
  pub addr : Bytes
  pub port : Bytes
  pub number : ℤ
  pub is_addr : txt.parse_addr raw_host ≡ some addr
  pub is_number : txt.atoi port ≡ some number
  pub in_range : is_port number ≡ true
  pub joined_eq : joined ≡ txt.join_host_port addr port

valid_port-some : (o : Option ℤ) → valid_port o ≡ true → (n : ℤ) × (o ≡ some n) × (is_port n ≡ true)
unfolding valid_port
valid_port-some none h = ground arith
valid_port-some (some n) h = (n, refl, h)

module _ (txt : TextLib) (laws : TextLaws txt) where
  join_port-IsDialable :
      (raw port host : Bytes) (o : Option Bytes) {joined : Bytes}
      → txt.parse_addr host ≡ o
      → join_port txt raw port o ≡ ok joined
      → IsDialable txt joined
  unfolding join_port
  join_port-IsDialable raw port host none at h = cc
  join_port-IsDialable raw port host (some addr) {joined} at h =
      elim (Bool-cases (valid_port (txt.atoi port))) [
        | inl good ↦
            let (n, is_number, in_range) = valid_port-some (txt.atoi port) good in
            record {
              raw_host = host;
              addr = addr;
              port = port;
              number = n;
              is_addr = at;
              is_number = is_number;
              in_range = in_range;
              joined_eq = sym (ok-injective (rw good at h));
            }
        | inr bad ↦ ground arith
      ]

  split_addr-IsDialable :
      (raw : Bytes) (o : Option (Bytes × Bytes)) {joined : Bytes}
      → split_addr txt raw o ≡ ok joined
      → IsDialable txt joined
  unfolding split_addr
  split_addr-IsDialable raw none h = cc
  split_addr-IsDialable raw (some (host, port)) h =
      join_port-IsDialable raw port host (txt.parse_addr host) refl h

  whole_addr-IsDialable :
      (raw : Bytes) (o : Option Bytes) {joined : Bytes}
      → txt.parse_addr raw ≡ o
      → whole_addr txt raw o ≡ ok joined
      → IsDialable txt joined
  unfolding whole_addr
  whole_addr-IsDialable raw none at h = split_addr-IsDialable raw (txt.split_host_port raw) h
  whole_addr-IsDialable raw (some addr) at h = record {
    raw_host = raw;
    addr = addr;
    port = codes "53";
    number = pos 53;
    is_addr = at;
    is_number = laws.atoi_dns;
    in_range = refl;
    joined_eq = sym (ok-injective h);
  }

  normalize_dns_addr_joined :
      (raw addr port : Bytes) (n : ℤ)
      → txt.parse_addr raw ≡ some addr
      → txt.atoi port ≡ some n
      → is_port n ≡ true
      → has_bracket addr ≡ false
      → normalize_dns_addr txt (txt.join_host_port addr port) ≡ ok (txt.join_host_port addr port)
  unfolding normalize_dns_addr whole_addr split_addr join_port valid_port
  normalize_dns_addr_joined raw addr port n is_addr is_number in_range plain =
      rw (laws.parse_addr-join raw addr port n is_addr is_number, whole_addr)
        (rw (laws.split-join raw addr port n is_addr is_number plain, split_addr)
          (rw (laws.parse_addr_idem raw addr is_addr, join_port)
            (rw (is_number, valid_port) (rw in_range refl))))

  -- What `normalizeDNSAddr` accepts becomes an address joined to a port number, and a second call
  -- leaves it as it is, unless the zone of the address has a bracket in it.
  pub normalize_dns_addr-IsDialable :
      (raw : Bytes) {joined : Bytes}
      → normalize_dns_addr txt raw ≡ ok joined
      → (d : IsDialable txt joined) × ((has_bracket d.addr ≡ true)
          ⊎ (normalize_dns_addr txt joined ≡ ok joined))
  unfolding normalize_dns_addr
  normalize_dns_addr-IsDialable raw h =
      let d = whole_addr-IsDialable raw (txt.parse_addr raw) refl h in
      (
        d,
        elim (Bool-cases (has_bracket d.addr)) [
          | inl odd ↦ inl odd
          | inr plain ↦ inr (
              subst (λ j. normalize_dns_addr txt j ≡ ok j) (sym d.joined_eq)
                (normalize_dns_addr_joined d.raw_host d.addr d.port d.number d.is_addr d.is_number
                  d.in_range plain))
        ],
      )
