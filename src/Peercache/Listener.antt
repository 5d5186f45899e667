-- ===== src/Peercache/Listener.antt =====
-- plugin/peercache/listener.go: the answers to the probes of siblings, and the binding of the port.
use homedns.Prelude.{
  ℕ, zero, suc, ◌-◌, Bool, true, false, not, List, [], ◌∷◌, Option, none, some, Bytes, ◌==◌,
  if◌then◌else◌, length,
}
use homedns.Dns.{Msg, new_msg, DnsLib, rcode_refused}
use homedns.Peercache.Store.{CacheLib, get}
pub mod Probe
pub mod Bind
pub mod Serve

-- net.SplitHostPort for the host, net.ParseIP, and IP.Equal.
pub record NetLib : Type 0 where
  pub host_of : Bytes → Option Bytes
  pub parse_ip : Bytes → Option Bytes
  pub ip_equal : Bytes → Bytes → Bool

-- The address of a host and port, if both calls succeed.
unfoldable pub parse_host : NetLib → Option Bytes → Option Bytes
parse_host net none = none
parse_host net (some host) = net.parse_ip host

-- `ip.Equal(net.ParseIP(peerHost))`, which is false for nil.
unfoldable pub same_ip : NetLib → Bytes → Option Bytes → Bool
same_ip net ip none = false
same_ip net ip (some other) = net.ip_equal ip other

-- The loop of `isPeer`.
unfoldable pub peer_loop : NetLib → Bytes → List Bytes → Bool
unfolding parse_host same_ip
peer_loop net ip [] = false
peer_loop net ip (p ∷ peers) =
    if same_ip net ip (parse_host net (net.host_of p)) then true else peer_loop net ip peers

unfoldable pub peer_with : NetLib → Option Bytes → List Bytes → Bool
unfolding peer_loop
peer_with net none peers = false
peer_with net (some ip) peers = peer_loop net ip peers

unfoldable pub is_peer : NetLib → Bytes → List Bytes → Bool
unfolding peer_with parse_host
is_peer net remote peers = peer_with net (parse_host net (net.host_of remote)) peers

-- The message of `refuse`.
unfoldable pub refusal : DnsLib → Msg → Msg
refusal lib r = lib.set_rcode new_msg r rcode_refused

-- What `serveProbe` makes of the result of the store.
unfoldable pub or_refuse : DnsLib → Msg → Option Msg → Msg
unfolding refusal
or_refuse lib r none = refusal lib r
or_refuse lib r (some m) = m

-- The store after `serveProbe`, and the message that it writes; a failing write is only logged.
unfoldable pub serve_probe :
    (lib : DnsLib) (lru : CacheLib)
    → NetLib
    → List Bytes
    → ℕ
    → Bytes
    → Msg
    → lru.Cache
    → lru.Cache × Msg
unfolding is_peer or_refuse
serve_probe lib lru net peers now remote r c =
    let got = get lib lru now r c in
    if not (is_peer net remote peers)
    then (c, refusal lib r)
    else if not (length r.question == 1)
    then (c, refusal lib r)
    else (got.0, or_refuse lib r got.1)

abbrev pub bind_attempts : ℕ
bind_attempts = 20

-- How `bind` ends: with the socket of an attempt, after the last attempt, or with the context.
pub data Bound : Type 0 where
  socket : ℕ → Bound
  gave_up stopped : Bound

-- The loop of `bind` from attempt `i` on: `free i` is whether it can listen, `ends i` whether the
-- context ends in the delay behind it.
unfoldable pub bind_loop : ℕ → (ℕ → Bool) → (ℕ → Bool) → ℕ → Bound
bind_loop zero free ends i = gave_up
bind_loop (suc rounds) free ends i =
    let rest = bind_loop rounds free ends (suc i) in
    if free i
    then socket i
    else if i == bind_attempts - 1
    then gave_up
    else if ends i
    then stopped
    else rest

unfoldable pub bind : (ℕ → Bool) → (ℕ → Bool) → Bound
unfolding bind_loop
bind free ends = bind_loop bind_attempts free ends 0
