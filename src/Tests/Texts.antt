-- ===== src/Tests/Texts.antt =====
-- A concrete stand-in for the text functions that setups read with.
use homedns.Prelude.{
  false, ℕ, ◌+◌, ◌-◌, ◌*◌, ◌≡◌, refl, sym, ◌&&◌, List, [], ◌∷◌, ◌++◌, Option, none, some, Bytes,
  codes, str_eq, leb, arith, if◌then◌else◌, ℤ, pos, Bool-cases, inl, inr,
}
use mathlib.Core.Option.{some-injective}
use homedns.Prelude.Text.{strip_prefix}
use homedns.Corefile.{Line, Occurrence, TextLib, TextLaws, has_bracket}

abbrev pub nine : Bytes
nine = codes "9.9.9.9"

-- Decimal digits, from the left.
abbrev pub digits : ℕ → Bytes → Option ℕ
digits n [] = some n
digits n (c ∷ s) = if leb b'0' c && leb c b'9' then digits (n * 10 + (c - b'0')) s else none

abbrev pub to_int : Option ℕ → Option ℤ
to_int none = none
to_int (some n) = some (pos n)

abbrev pub split_at : Option Bytes → Option (Bytes × Bytes)
split_at none = none
split_at (some port) = some (nine, port)

-- One address is known, one URL, and one duration.
abbrev pub txt : TextLib
txt = record {
  parse_duration = λ s. if str_eq s (codes "1h") then some (pos 3600000000000) else none;
  parse_url = λ s.
      if str_eq s (codes "https://l.example/")
      then some (codes "https", codes "l.example")
      else none;
  parse_addr = λ s. if str_eq s nine then some nine else none;
  split_host_port = λ s. split_at (strip_prefix s (codes "9.9.9.9:"));
  join_host_port = λ host port. host ++ b':' ∷ port;
  atoi = λ s. to_int (digits 0 s);
  itoa = λ n. if leb 8053 n then codes "8053" else codes "53";
}

known_addr : (raw addr : Bytes) → txt.parse_addr raw ≡ some addr → addr ≡ nine
known_addr raw addr h = elim (Bool-cases (str_eq raw nine)) [
  | inl is ↦ sym (some-injective nine addr (rw is at h))
  | inr not_it ↦ ground arith
]

known_idem : (raw addr : Bytes) → txt.parse_addr raw ≡ some addr → txt.parse_addr addr ≡ some addr
unfolding str_eq
known_idem raw addr h = rw (known_addr raw addr h) refl

known_split :
    (raw addr port : Bytes) (n : ℤ)
    → txt.parse_addr raw ≡ some addr
    → txt.atoi port ≡ some n
    → has_bracket addr ≡ false
    → txt.split_host_port (txt.join_host_port addr port) ≡ some (addr, port)
unfolding strip_prefix
known_split raw addr port n h k plain = rw (known_addr raw addr h) refl

known_join :
    (raw addr port : Bytes) (n : ℤ)
    → txt.parse_addr raw ≡ some addr
    → txt.atoi port ≡ some n
    → txt.parse_addr (txt.join_host_port addr port) ≡ none
unfolding str_eq
known_join raw addr port n h k = rw (known_addr raw addr h) refl

pub laws : TextLaws txt
laws = record {
  parse_addr_idem = known_idem;
  split-join = known_split;
  parse_addr-join = known_join;
  atoi_dns = refl;
}

abbrev pub line : Bytes → List Bytes → Line
line name args = record { name = name; args = args }

abbrev pub block : List Line → Occurrence
block lines = record { args = []; block = some lines }
