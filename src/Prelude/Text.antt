-- ===== src/Prelude/Text.antt =====
-- The functions of the package `strings` that treat letters, white space and affixes. On a text
-- that is all ASCII they are written out; for any other text Go consults its Unicode tables.
use Prim.Native.Nat.{ℕ, ◌+◌, ◌<◌}
use mathlib.Core.Path.{◌≡◌, refl}
use mathlib.Core.Bool.{Bool, true, false, ◌&&◌, ◌||◌}
use mathlib.Core.Option.{Option, none, some}
use mathlib.Core.List.{List, [], ◌∷◌, ◌++◌, map}
use native.Mathlib.Omega.{arith}
use homedns.Prelude.Tests.{ltb, leb, ◌==◌, if◌then◌else◌}
use homedns.Prelude.Lists.{All, is_empty}
use homedns.Prelude.Strings.{Bytes, str_eq}

-- What the standard library decides by tables and parsers that the model leaves open: the Unicode
-- versions of ToLower, TrimSpace and Fields, used on texts with a byte above 127, and whether
-- netip.ParseAddr accepts a text.
pub record StdLib : Type 0 where
  pub unicode_lower : Bytes → Bytes
  pub unicode_trim : Bytes → Bytes
  pub unicode_fields : Bytes → List Bytes
  pub is_addr : Bytes → Bool

unfoldable pub is_ascii : Bytes → Bool
is_ascii [] = true
is_ascii (c ∷ s) = ltb c 128 && is_ascii s

unfoldable pub lower_byte : ℕ → ℕ
lower_byte c = if leb b'A' c && leb c b'Z' then c + 32 else c

-- strings.ToLower.
unfoldable pub to_lower : StdLib → Bytes → Bytes
unfolding is_ascii lower_byte
to_lower std s = if is_ascii s then map lower_byte s else std.unicode_lower s

-- Tab, newline, vertical tab, form feed, carriage return, space.
unfoldable pub is_space : ℕ → Bool
is_space c = (leb 9 c && leb c 13) || c == 32

unfoldable pub trim_left : Bytes → Bytes
unfolding is_space
trim_left [] = []
trim_left (c ∷ s) = if is_space c then trim_left s else c ∷ s

unfoldable pub trim_right : Bytes → Bytes
unfolding is_space
trim_right [] = []
trim_right (c ∷ s) = let rest = trim_right s in if is_empty rest && is_space c then [] else c ∷ rest

-- strings.TrimSpace.
unfoldable pub trim_space : StdLib → Bytes → Bytes
unfolding is_ascii trim_left trim_right
trim_space std s = if is_ascii s then trim_right (trim_left s) else std.unicode_trim s

-- What a field that ends adds in front of the fields after it.
unfoldable pub end_field : Bytes → List Bytes → List Bytes
end_field [] rest = rest
end_field (c ∷ s) rest = (c ∷ s) ∷ rest

-- The fields of a text of which `field` was read since the last white space.
unfoldable pub fields_loop : Bytes → Bytes → List Bytes
unfolding is_space end_field
fields_loop field [] = end_field field []
fields_loop field (c ∷ s) = elim (is_space c) [
  | true ↦ end_field field (fields_loop [] s)
  | false ↦ fields_loop (field ++ c ∷ []) s
]

-- strings.Fields.
unfoldable pub fields : StdLib → Bytes → List Bytes
unfolding is_ascii fields_loop
fields std s = if is_ascii s then fields_loop [] s else std.unicode_fields s

-- strings.TrimSuffix.
unfoldable pub trim_suffix : Bytes → Bytes → Bytes
trim_suffix [] suffix = []
trim_suffix (c ∷ s) suffix = if str_eq (c ∷ s) suffix then [] else c ∷ trim_suffix s suffix

-- The rest of a text behind a prefix.
unfoldable pub strip_prefix : Bytes → Bytes → Option Bytes
strip_prefix s [] = some s
strip_prefix [] (p ∷ ps) = none
strip_prefix (c ∷ s) (p ∷ ps) = if c == p then strip_prefix s ps else none

-- strings.TrimPrefix.
unfoldable pub trim_prefix : Bytes → Bytes → Bytes
unfolding strip_prefix
trim_prefix s prefix = elim (strip_prefix s prefix) [ none ↦ s | some rest ↦ rest ]

-- The lines of bufio.ScanLines, of which `line` was read since the last newline: the text after
-- the last newline is a line if it is not empty.
unfoldable pub lines_loop : Bytes → Bytes → List Bytes
unfolding end_field
lines_loop line [] = end_field line []
lines_loop line (c ∷ s) = elim (c == 10) [
  | true ↦ line ∷ lines_loop [] s
  | false ↦ lines_loop (line ++ c ∷ []) s
]

-- bufio.ScanLines drops one carriage return at the end of a line.
unfoldable pub drop_cr : Bytes → Bytes
unfolding trim_suffix
drop_cr line = trim_suffix line (13 ∷ [])

-- Texts on which these functions change nothing.
trim_left_id : (c : ℕ) (s : Bytes) → is_space c ≡ false → trim_left (c ∷ s) ≡ c ∷ s
unfolding trim_left
trim_left_id c s h = rw h refl

trim_right_id : (s : Bytes) → All (λ c. is_space c ≡ false) s → trim_right s ≡ s
unfolding trim_right
trim_right_id [] h = refl
trim_right_id (c ∷ s) h = ground (arith, trim_right_id s h.1)

is_ascii-All : (s : Bytes) → All (λ c. c < 128) s → is_ascii s ≡ true
unfolding is_ascii
is_ascii-All [] h = refl
is_ascii-All (c ∷ s) h = ground (arith, is_ascii-All s h.1)

map-lower_byte_id : (s : Bytes) → All (λ c. lower_byte c ≡ c) s → map lower_byte s ≡ s
map-lower_byte_id [] h = refl
map-lower_byte_id (c ∷ s) h = cc (h.0, map-lower_byte_id s h.1)

pub to_lower_id :
    (std : StdLib) (s : Bytes)
    → All (λ c. c < 128) s
    → All (λ c. lower_byte c ≡ c) s
    → to_lower std s ≡ s
unfolding to_lower
to_lower_id std s h k = rw (is_ascii-All s h) (map-lower_byte_id s k)

pub trim_space_id :
    (std : StdLib) (s : Bytes)
    → All (λ c. c < 128) s
    → All (λ c. is_space c ≡ false) s
    → trim_space std s ≡ s
unfolding trim_space
trim_space_id std [] h k = refl
trim_space_id std (c ∷ s) h k =
    rw (is_ascii-All (c ∷ s) h, trim_left_id c s k.0) (trim_right_id (c ∷ s) k)

pub trim_prefix_id :
    (c p : ℕ) (s ps : Bytes) → (c == p) ≡ false → trim_prefix (c ∷ s) (p ∷ ps) ≡ c ∷ s
unfolding trim_prefix
trim_prefix_id c p s ps h = rw (h, trim_prefix, strip_prefix) refl
