-- ===== src/Corefile.antt =====
-- What the caddy parser hands to a plugin's setup, and the functions of the standard library that
-- setups and discovery read and write texts with.
use homedns.Prelude.{
  ℕ, ◌≡◌, Bool, true, false, ◌||◌, ◌==◌, if◌then◌else◌, List, [], ◌∷◌, Option, none, some, Bytes,
  codes, ℤ, pos,
}

-- A line of a block: what `c.Val` and then `c.RemainingArgs` give after `c.NextBlock`.
pub record Line : Type 0 where
  pub name : Bytes
  pub args : List Bytes

-- What stands behind `c.Next`: the arguments in front of the brace, and the lines of the block.
-- `none` is a directive without a brace.
pub record Occurrence : Type 0 where
  pub args : List Bytes
  pub block : Option (List Line)

-- The loop over `c.NextBlock` sees no lines if there is no brace.
abbrev pub lines_of : Option (List Line) → List Line
lines_of none = []
lines_of (some lines) = lines

-- time.ParseDuration in nanoseconds, scheme and host of url.Parse, netip.ParseAddr as the text that
-- Addr.String gives, net.SplitHostPort, net.JoinHostPort, strconv.Atoi and strconv.Itoa.
pub record TextLib : Type 0 where
  pub parse_duration : Bytes → Option ℤ
  pub parse_url : Bytes → Option (Bytes × Bytes)
  pub parse_addr : Bytes → Option Bytes
  pub split_host_port : Bytes → Option (Bytes × Bytes)
  pub join_host_port : Bytes → Bytes → Bytes
  pub atoi : Bytes → Option ℤ
  pub itoa : ℕ → Bytes

-- SplitHostPort refuses a bracket inside a host, and netip.ParseAddr takes one in an IPv6 zone.
abbrev pub has_bracket : Bytes → Bool
has_bracket [] = false
has_bracket (b ∷ bs) = if b == b'[' || b == b']' then true else has_bracket bs

-- What is documented of them: an address reads back as itself; joined to a number it is no address,
-- and is split again unless it has a bracket in its zone; and 53 reads as a number.
pub record TextLaws (txt : TextLib) : Type 0 where
  pub parse_addr_idem :
      (raw addr : Bytes) → txt.parse_addr raw ≡ some addr → txt.parse_addr addr ≡ some addr
  pub split-join :
      (raw addr port : Bytes) (n : ℤ)
      → txt.parse_addr raw ≡ some addr
      → txt.atoi port ≡ some n
      → has_bracket addr ≡ false
      → txt.split_host_port (txt.join_host_port addr port) ≡ some (addr, port)
  pub parse_addr-join :
      (raw addr port : Bytes) (n : ℤ)
      → txt.parse_addr raw ≡ some addr
      → txt.atoi port ≡ some n
      → txt.parse_addr (txt.join_host_port addr port) ≡ none
  pub atoi_dns : txt.atoi (codes "53") ≡ some (pos 53)
