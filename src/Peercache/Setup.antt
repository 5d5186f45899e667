-- ===== src/Peercache/Setup.antt =====
-- plugin/peercache/setup.go: the configuration of the plugin.
use homedns.Prelude.{
  ℕ, zero, suc, Bool, true, false, not, List, [], ◌∷◌, Option, none, some, Bytes, codes, is_empty,
  str_eq, if◌then◌else◌, Result, ok, err, ◌>>=◌, ◌>>◌, ℤ, pos, negsuc, is_port,
}
use homedns.Corefile.{Line, Occurrence, lines_of, TextLib}
pub mod Valid

abbrev pub default_port : ℕ
default_port = 8053

pub record Settings : Type 0 where
  pub selector : Bytes
  pub port : ℕ

abbrev pub defaults : Settings
defaults = record { selector = []; port = default_port }

pub data ConfigErr : Type 0 where
  configured_twice takes_no_args arg_err no_selector : ConfigErr
  bad_selector bad_port unknown_property : Bytes → ConfigErr

abbrev pub Parsed : Type 0 → Type 0
Parsed = Result ConfigErr

unfoldable pub one_arg : List Bytes → Parsed Bytes
one_arg (arg ∷ []) = ok arg
one_arg _ = err arg_err

-- The number of `port`, if it parses and is in range.
unfoldable pub check_port : Bytes → Option ℤ → Parsed ℕ
check_port raw none = err (bad_port raw)
check_port raw (some (pos n)) = if is_port (pos n) then ok n else err (bad_port raw)
check_port raw (some (negsuc n)) = err (bad_port raw)

-- labels.Parse is the argument `is_selector`.
module _ (txt : TextLib) (is_selector : Bytes → Bool) where
  unfoldable pub parse_property : Line → Settings → Parsed Settings
  parse_property l s =
      if str_eq l.name (codes "selector")
      then (one_arg l.args >>= λ raw.
          if is_selector raw then ok (record s { selector = raw }) else err (bad_selector raw))
      else if str_eq l.name (codes "port")
      then (one_arg l.args >>= λ raw.
          check_port raw (txt.atoi raw) >>= λ n. ok (record s { port = n }))
      else err (unknown_property l.name)

  unfoldable pub parse_block : List Line → Settings → Parsed Settings
  parse_block [] s = ok s
  parse_block (l ∷ ls) s = parse_property l s >>= parse_block ls

  -- The loop over `c.Next`.
  unfoldable pub parse_loop : Bool → List Occurrence → Settings → Parsed Settings
  parse_loop configured [] s = ok s
  parse_loop true (o ∷ os) s = err configured_twice
  parse_loop false (o ∷ os) s =
      if not (is_empty o.args)
      then err takes_no_args
      else parse_block (lines_of o.block) s >>= parse_loop true os

  unfoldable pub finish_config : Settings → Parsed Settings
  finish_config s = if is_empty s.selector then err no_selector else ok s

  unfoldable pub parse_config : List Occurrence → Parsed Settings
  parse_config os = parse_loop false os defaults >>= finish_config
