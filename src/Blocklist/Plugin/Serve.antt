-- ===== src/Blocklist/Plugin/Serve.antt =====
-- `ServeDNS`: what the client gets, and what is counted.
use homedns.Prelude.{
  ℕ, ◌+◌, ◌<◌, ◌≡◌, refl, true, false, [], ◌∷◌, none, some, Bytes, arith, length, if◌then◌else◌,
  str_eq,
}
use homedns.Prelude.Text.{StdLib}
use homedns.Dns.{
  Msg, new_msg, DnsLib, Writer, Next, write_reply, rcode_name_error, rcode_server_failure, inc, Err,
}
use homedns.Blocklist.Matcher.{blocked, normalize_query}
use homedns.Blocklist.Matcher.Covers.{IsWithin, IsCovered}
use homedns.Blocklist.Source.{Attempt}
use homedns.Blocklist.Plugin.{Config, Blocklist, name_error, serve_dns, reload}
use homedns.Blocklist.Plugin.WellFormed.{IsStored}
use homedns.Blocklist.Plugin.Reload.{Delivers, reload-blocks}

module _ (lib : DnsLib) (std : StdLib) where
  -- The reply of a blocked query: an authoritative NXDOMAIN to that request, with no records.
  pub record IsNameError (r m : Msg) : Type 0 where
    pub rcode : m.rcode ≡ rcode_name_error
    pub authoritative : m.authoritative ≡ true
    pub id : m.id ≡ r.id
    pub answer : m.answer ≡ []
    pub ns : m.ns ≡ []

  name_error-IsNameError : (r : Msg) → IsNameError r (name_error lib std r)
  unfolding name_error
  name_error-IsNameError r = record {
    rcode = lib.set_rcode-rcode new_msg r rcode_name_error;
    authoritative = refl;
    id = lib.set_rcode-id new_msg r rcode_name_error;
    answer = lib.set_rcode-answer new_msg r rcode_name_error;
    ns = lib.set_rcode-ns new_msg r rcode_name_error;
  }

  serve_dns-blocked :
      (server : Bytes) (next : Next) (b : Blocklist) (w : Writer) (r : Msg)
      → blocked b.current (normalize_query std (lib.request_name r)) ≡ true
      → (serve_dns lib std server next b w r).1
        ≡ write_reply w (name_error lib std r) rcode_name_error none
  unfolding serve_dns
  serve_dns-blocked server next b w r h = ground arith

  -- After a reload that is not cancelled, a query for a domain that a source delivers, or for a name
  -- below it, is answered with NXDOMAIN alone, unless an `allow` entry covers the queried name. This
  -- holds whatever the handlers behind the plugin do; only a failed write changes the results. The
  -- downloads that the plugin remembers are required to be such as a fetch gives: not empty, with
  -- blockable names alone.
  pub reload-serve_dns :
      (c : Config) (env : ℕ → Attempt) (b : Blocklist) (server d : Bytes) (next : Next) (r : Msg)
      → IsStored std b
      → ((k : ℕ) → k < length c.urls → (env k).cancelled ≡ false)
      → Delivers std c env b d
      → IsWithin (normalize_query std (lib.request_name r)) d
      → ¬ IsCovered c.allow (normalize_query std (lib.request_name r))
      → IsNameError r (name_error lib std r)
        × ((serve_dns lib std server next (reload std c env b) none r).1
            ≡ record { written = name_error lib std r ∷ []; rcode = rcode_name_error; err = none })
        × ((e : Err)
            → (serve_dns lib std server next (reload std c env b) (some e) r).1
              ≡ record { written = []; rcode = rcode_server_failure; err = some e })
  unfolding write_reply
  reload-serve_dns c env b server d next r w live del within free =
      let h =
        reload-blocks std c env b (normalize_query std (lib.request_name r)) d w live del within
          free in
      (
        name_error-IsNameError r,
        serve_dns-blocked server next (reload std c env b) none r h,
        λ e. serve_dns-blocked server next (reload std c env b) (some e) r h,
      )

  -- A query is counted once, as blocked or as allowed, under its own server, and changes nothing
  -- else that a later query depends on.
  pub serve_dns-counts :
      (server l : Bytes) (next : Next) (b : Blocklist) (w : Writer) (r : Msg)
      → let b' = (serve_dns lib std server next b w r).0 in
        (b'.blocked_count l + b'.allowed_count l
          ≡ b.blocked_count l + b.allowed_count l + (if str_eq l server then 1 else 0))
        × (b'.current ≡ b.current)
        × (b'.ready ≡ b.ready)
        × (b'.last_good ≡ b.last_good)
  unfolding serve_dns inc
  serve_dns-counts server l next b w r = ground arith

  -- A query that is not blocked is left to the handlers behind the plugin.
  pub serve_dns-passes :
      (server : Bytes) (next : Next) (b : Blocklist) (w : Writer) (r : Msg)
      → blocked b.current (normalize_query std (lib.request_name r)) ≡ false
      → (serve_dns lib std server next b w r).1 ≡ next r
  unfolding serve_dns
  serve_dns-passes server next b w r h = ground arith
