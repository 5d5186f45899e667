-- ===== src/Blocklist/Matcher/Build/Order.antt =====
-- Sorting forgets the order in which texts are given.
use homedns.Prelude.{
  ◌≡◌, refl, ◌∙◌, List, [], ◌∷◌, Bytes, arith, str_lt_trans, str_lt_total, str_lt_irrefl,
}
use mathlib.Core.List.{Permᴰ}
use homedns.Blocklist.Matcher.{insert_string, sort_strings}
use homedns.Blocklist.Matcher.Build.Sort.{not_lt_trans}

insert_string_comm :
    (x y : Bytes) (zs : List Bytes)
    → insert_string x (insert_string y zs) ≡ insert_string y (insert_string x zs)
unfolding insert_string
insert_string_comm x y [] = ground (arith, str_lt_trans x y x, str_lt_irrefl x, str_lt_total x y)
insert_string_comm x y (z ∷ zs) = ground (
  arith,
  insert_string_comm x y zs,
  str_lt_trans x y x,
  str_lt_irrefl x,
  str_lt_total x y,
  not_lt_trans x y z,
  not_lt_trans y x z,
  str_lt_trans x y z,
  str_lt_trans y x z,
  str_lt_trans z x y,
  str_lt_trans z y x,
)

pub sort_strings-Permᴰ : {xs ys : List Bytes} → Permᴰ xs ys → sort_strings xs ≡ sort_strings ys
unfolding sort_strings
sort_strings-Permᴰ Permᴰ.nil = refl
sort_strings-Permᴰ (Permᴰ.cons e p) = cc (sort_strings-Permᴰ p)
sort_strings-Permᴰ (Permᴰ.swap {a} {b} {l = l} e f) = cc (insert_string_comm a b (sort_strings l))
sort_strings-Permᴰ (Permᴰ.trans p q) = sort_strings-Permᴰ p ∙ sort_strings-Permᴰ q
