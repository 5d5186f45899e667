-- ===== src/Blocklist/Source/Client.antt =====
-- The HTTP client of a download, and its resolver. Times are nanoseconds.
use homedns.Prelude.{ℕ, ◌*◌, Bool, true, List, Option, Bytes}
use homedns.Blocklist.Source.{dial}

abbrev second : ℕ
second = 1000000000

-- `httpTimeout`.
abbrev pub http_timeout : ℕ
http_timeout = 30 * second

-- `bootstrapResolver`.
pub record BootstrapResolver : Type 0 where
  pub servers : List Bytes
  pub next : ℕ

unfoldable pub new_bootstrap_resolver : List Bytes → BootstrapResolver
new_bootstrap_resolver servers = record { servers = servers; next = 0 }

-- The resolver's Dial, which the C library's resolver would pass over.
unfoldable pub resolve_dial : (Bytes → Bool) → BootstrapResolver → BootstrapResolver × Option Bytes
unfolding dial
resolve_dial reachable b =
    let (next, conn) = dial b.servers reachable b.next in (record b { next = next }, conn)

-- The fields of http.Client, http.Transport, net.Dialer and net.Resolver that the code sets.
pub record HttpClient : Type 0 where
  pub timeout : ℕ
  pub tls_handshake_timeout : ℕ
  pub response_header_timeout : ℕ
  pub disable_keep_alives : Bool
  pub dial_timeout : ℕ
  pub dial_keep_alive : ℕ
  pub prefer_go : Bool
  pub resolve_timeout : ℕ
  pub resolver : BootstrapResolver

unfoldable pub http_client : BootstrapResolver → HttpClient
http_client b = record {
  timeout = http_timeout;
  tls_handshake_timeout = 10 * second;
  response_header_timeout = 15 * second;
  disable_keep_alives = true;
  dial_timeout = 10 * second;
  dial_keep_alive = 30 * second;
  prefer_go = true;
  resolve_timeout = 5 * second;
  resolver = b;
}
