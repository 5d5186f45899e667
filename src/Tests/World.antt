-- ===== src/Tests/World.antt =====
-- Concrete stand-ins for the libraries that the development takes as parameters.
use homedns.Prelude.{ℕ, refl, true, List, [], ◌∷◌, Bytes, codes, str_eq}
use homedns.Prelude.Text.{StdLib}
use homedns.Dns.{Msg, Question, DnsLib, new_msg}

-- The tables for texts that are not ASCII are left out, and one address is known.
abbrev pub std : StdLib
std = record {
  unicode_lower = λ s. s;
  unicode_trim = λ s. s;
  unicode_fields = λ s. s ∷ [];
  is_addr = λ s. str_eq s (codes "0.0.0.0");
}

abbrev pub name_of : List Question → Bytes
name_of [] = codes "."
name_of (q ∷ qs) = q.name

abbrev pub lib : DnsLib
lib = record {
  set_rcode = λ m r c. record m { id = r.id; response = true; rcode = c; question = r.question };
  set_rcode-rcode = λ m r c. refl;
  set_rcode-id = λ m r c. refl;
  set_rcode-response = λ m r c. refl;
  set_rcode-truncated = λ m r c. refl;
  set_rcode-answer = λ m r c. refl;
  set_rcode-ns = λ m r c. refl;
  set_rcode-extra = λ m r c. refl;
  request_name = λ m. name_of m.question;
  answers = λ r m. str_eq (name_of r.question) (name_of m.question);
  zone_holds = λ zone name. true;
}

abbrev pub query : Bytes → Msg
query name = record new_msg {
  id = 7;
  question = record { name = name; qtype = 1; qclass = 1 } ∷ [];
}

-- An answer with one record.
abbrev pub answer : Bytes → ℕ → Msg
answer name rcode = record (query name) {
  id = 40;
  response = true;
  rcode = rcode;
  answer = record { rrtype = 1; ttl = 300; rdata = codes "abcd" } ∷ [];
}
