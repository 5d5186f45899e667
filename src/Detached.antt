-- ===== src/Detached.antt =====
-- internal/detached/writer.go: a writer that keeps the reply and leaves the client's connection alone.
use homedns.Prelude.{ℕ, Bool, List, [], ◌∷◌, Option, none, some, Bytes, length}
use homedns.Dns.{Msg}
pub mod Capture

pub record DetachedWriter : Type 0 where
  pub local_addr : Bytes
  pub remote_addr : Bytes
  pub msg : Option Msg

-- `New`, from the addresses of the client's writer.
unfoldable pub new_writer : Bytes → Bytes → DetachedWriter
new_writer local remote = record { local_addr = local; remote_addr = remote; msg = none }

-- `WriteMsg`, which never fails.
unfoldable pub write_msg : Msg → DetachedWriter → DetachedWriter
write_msg m d = record d { msg = some m }

-- A handler that writes these messages.
unfoldable pub write_all : List Msg → DetachedWriter → DetachedWriter
unfolding write_msg
write_all [] d = d
write_all (m ∷ ms) d = write_all ms (write_msg m d)

-- The methods of dns.ResponseWriter.
pub data Call : Type 0 where
  local_addr remote_addr close tsig_status hijack : Call
  writing : Msg → Call
  writing_raw : Bytes → Call
  tsig_timers_only : Bool → Call

-- What a method returns: an address, a number of bytes, no error, or nothing.
pub data Returned : Type 0 where
  addr : Bytes → Returned
  wrote : ℕ → Returned
  no_error nothing : Returned

unfoldable pub call : Call → DetachedWriter → DetachedWriter × Returned
unfolding write_msg
call local_addr d = (d, addr d.local_addr)
call remote_addr d = (d, addr d.remote_addr)
call (writing m) d = (write_msg m d, no_error)
call (writing_raw b) d = (d, wrote (length b))
call close d = (d, no_error)
call tsig_status d = (d, no_error)
call (tsig_timers_only b) d = (d, nothing)
call hijack d = (d, nothing)

unfoldable pub call_all : List Call → DetachedWriter → DetachedWriter
unfolding call
call_all [] d = d
call_all (k ∷ ks) d = call_all ks (call k d).0
