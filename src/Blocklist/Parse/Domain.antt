-- ===== src/Blocklist/Parse/Domain.antt =====
-- `isDomainName` against the grammar of names: labels of 1 to 63 bytes, joined by single dots.
use homedns.Prelude.{
  ℕ, suc, ◌+◌, ◌≤◌, ◌<◌, ◌≡◌, refl, sym, ap, ◌∙◌, ◌↔◌, ◌⊎◌, inl, inr, true, false, List, [], ◌∷◌,
  ◌++◌, Bytes, All, arith, length, ◌==◌, Bool-cases,
}
use homedns.Blocklist.Parse.{is_label_byte, domain_loop, is_domain_name}

-- A lower-case letter, a digit, `-` or `_`, by its code.
abbrev pub IsLabelByte : ℕ → Type 0
IsLabelByte c = ((97 ≤ c) × (c ≤ 122)) ⊎ ((48 ≤ c) × (c ≤ 57)) ⊎ (c ≡ 45) ⊎ (c ≡ 95)

abbrev pub IsLabelText : Bytes → Type 0
IsLabelText l = All IsLabelByte l

is_label_byte_iff : (c : ℕ) → (is_label_byte c ≡ true) ↔ IsLabelByte c
unfolding is_label_byte
is_label_byte_iff c = (λ h. ground arith, λ h. ground arith)

pub record IsLabel (l : Bytes) : Type 0 where
  pub not_empty : 0 < length l
  pub short : length l ≤ 63
  pub text : IsLabelText l

-- Labels with a dot between any two.
unfoldable pub dotted : Bytes → List Bytes → Bytes
dotted l [] = l
dotted l (m ∷ ms) = l ++ b'.' ∷ dotted m ms

-- A name of at most 253 bytes that is made of labels.
pub record IsDomainName (s : Bytes) : Type 0 where
  pub first : Bytes
  pub others : List Bytes
  pub fits : length s ≤ 253
  pub first_label : IsLabel first
  pub other_labels : All IsLabel others
  pub joined : s ≡ dotted first others

dotted-cons : (c : ℕ) (l : Bytes) (ms : List Bytes) → dotted (c ∷ l) ms ≡ c ∷ dotted l ms
unfolding dotted
dotted-cons c l [] = refl
dotted-cons c l (m ∷ ms) = refl

-- What a run of the loop recognises when `k` bytes of the first label are already read.
record IsRest (k : ℕ) (s : Bytes) : Type 0 where
  head : Bytes
  others : List Bytes
  not_empty : 0 < k + length head
  short : k + length head ≤ 63
  text : IsLabelText head
  other_labels : All IsLabel others
  joined : s ≡ dotted head others

IsRest-IsLabel : {s : Bytes} (r : IsRest 0 s) → IsLabel r.head
IsRest-IsLabel r = record {
  not_empty = omega (arith, r.not_empty);
  short = omega (arith, r.short);
  text = r.text;
}

domain_loop→IsRest : (k : ℕ) (s : Bytes) → k ≤ 63 → domain_loop k s ≡ true → IsRest k s
unfolding domain_loop dotted
domain_loop→IsRest k [] h e = record {
  head = [];
  others = [];
  not_empty = ground arith;
  short = omega arith;
  text = tt;
  other_labels = tt;
  joined = refl;
}
domain_loop→IsRest k (c ∷ s) h e = elim (Bool-cases (c == b'.')) [
  | inl dot ↦
      let r = domain_loop→IsRest 0 s (omega arith) (ground arith) in
      record {
        head = [];
        others = r.head ∷ r.others;
        not_empty = ground arith;
        short = omega arith;
        text = tt;
        other_labels = (IsRest-IsLabel r, r.other_labels);
        joined = ground (arith, r.joined);
      }
  | inr byte ↦
      let r = domain_loop→IsRest (suc k) s (ground arith) (ground arith) in
      record {
        head = c ∷ r.head;
        others = r.others;
        not_empty = omega arith;
        short = omega (arith, r.short);
        text = ((is_label_byte_iff c).0 (ground arith), r.text);
        other_labels = r.other_labels;
        joined = ap (λ t. c ∷ t) r.joined ∙ sym (dotted-cons c r.head r.others);
      }
]

dot-not_label : (c : ℕ) → is_label_byte c ≡ true → (c == b'.') ≡ false
unfolding is_label_byte
dot-not_label c h = ground arith

domain_loop-dotted :
    (k : ℕ) (l : Bytes) (ms : List Bytes)
    → 0 < k + length l
    → k + length l ≤ 63
    → IsLabelText l
    → All IsLabel ms
    → domain_loop k (dotted l ms) ≡ true
unfolding domain_loop dotted
domain_loop-dotted k [] [] h b t o = ground arith
domain_loop-dotted k [] (m ∷ ms) h b t o = ground (
  arith,
  domain_loop-dotted 0 m ms (omega (arith, o.0.not_empty)) (omega (arith, o.0.short)) o.0.text o.1,
)
domain_loop-dotted k (c ∷ l) ms h b t o =
    let letter = (is_label_byte_iff c).1 t.0 in
    rw (dotted-cons c l ms, dot-not_label c letter, letter, domain_loop)
      (ground (arith, domain_loop-dotted (suc k) l ms (omega arith) (omega arith) t.1 o))

pub is_domain_name→IsDomainName : (s : Bytes) → is_domain_name s ≡ true → IsDomainName s
unfolding is_domain_name
is_domain_name→IsDomainName s h =
    let r = domain_loop→IsRest 0 s (omega arith) (ground arith) in
    record {
      first = r.head;
      others = r.others;
      fits = ground arith;
      first_label = IsRest-IsLabel r;
      other_labels = r.other_labels;
      joined = r.joined;
    }

pub IsDomainName→is_domain_name : (s : Bytes) → IsDomainName s → is_domain_name s ≡ true
unfolding is_domain_name
IsDomainName→is_domain_name s d =
    let accepted =
      domain_loop-dotted 0 d.first d.others (omega (arith, d.first_label.not_empty))
        (omega (arith, d.first_label.short)) d.first_label.text d.other_labels in
    ground (arith, d.fits, ap (domain_loop 0) d.joined)

-- `isDomainName` accepts exactly the names of the grammar: at most 253 bytes, in labels of 1 to 63
-- lower-case letters, digits, `-` or `_`, with single dots between them.
pub is_domain_name_iff : (s : Bytes) → (is_domain_name s ≡ true) ↔ IsDomainName s
is_domain_name_iff s = (is_domain_name→IsDomainName s, IsDomainName→is_domain_name s)
