-- ===== src/Blocklist/Source.antt =====
-- plugin/blocklist/source.go: one download, and the dialler of the bootstrap resolver.
use homedns.Prelude.{
  ℕ, zero, suc, ◌+◌, ◌-◌, ◌*◌, ◌%◌, ◌^◌, Bool, true, false, not, List, [], ◌∷◌, Option, none, some,
  Bytes, ◌==◌, if◌then◌else◌, length, get_elem?,
}
use homedns.Prelude.Text.{StdLib}
use homedns.Blocklist.Parse.{Body, parse_list}
pub mod Dial
pub mod Client

-- An HTTP response.
pub record Response : Type 0 where
  pub status : ℕ
  pub body : Body

-- What the world does in one round of a reload: whether the context is done by then, whether the
-- request can be built, and what client.Do returns.
pub record Attempt : Type 0 where
  pub cancelled : Bool
  pub request_ok : Bool
  pub answer : Option Response

abbrev pub status_ok : ℕ
status_ok = 200

-- A download that parses to no name is an error, as `none`.
unfoldable pub non_empty : Option (List Bytes) → Option (List Bytes)
non_empty none = none
non_empty (some []) = none
non_empty (some (n ∷ names)) = some (n ∷ names)

unfoldable pub read_response : StdLib → Option Response → Option (List Bytes)
unfolding non_empty
read_response std none = none
read_response std (some resp) =
    if not (resp.status == status_ok) then none else non_empty (parse_list std resp.body)

unfoldable pub fetch : StdLib → Attempt → Option (List Bytes)
unfolding read_response
fetch std a = if a.request_ok then read_response std a.answer else none

-- The loop of the resolver's Dial over the servers from `start` on: the first that can be
-- reached, or the error of the last attempt.
unfoldable pub dial_loop : ℕ → List Bytes → (Bytes → Bool) → ℕ → ℕ → Option Bytes
dial_loop zero servers reachable start i = none
dial_loop (suc rounds) servers reachable start i =
    let rest = dial_loop rounds servers reachable start (suc i) in
    elim (get_elem? servers ((start + i) % length servers)) [
      | none ↦ none
      | some srv ↦ if reachable srv then some srv else rest
    ]

-- `b.next.Add(1)` on an atomic.Uint32, whose old value is the start, and the dialling.
unfoldable pub dial : List Bytes → (Bytes → Bool) → ℕ → ℕ × Option Bytes
unfolding dial_loop
dial servers reachable next =
    let added = (next + 1) % 2 ^ 32 in
    let start = ((added + 2 ^ 32 - 1) % 2 ^ 32) % length servers in
    (added, dial_loop (length servers) servers reachable start 0)
