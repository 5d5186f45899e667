-- ===== src/Dns.antt =====
-- What the plugins share of github.com/miekg/dns and CoreDNS: the parts of a message that they
-- read and write, the errors that they tell apart, and the calls of those libraries as parameters.
use homedns.Prelude.{
  ℕ, suc, ◌≡◌, Bool, true, false, List, [], ◌∷◌, Option, none, some, Bytes, ◌==◌, ◌||◌,
  if◌then◌else◌, str_eq,
}

pub record Question : Type 0 where
  pub name : Bytes
  pub qtype : ℕ
  pub qclass : ℕ

-- The header of a resource record, and its data.
pub record Rr : Type 0 where
  pub rrtype : ℕ
  pub ttl : ℕ
  pub rdata : Bytes

pub record Msg : Type 0 where
  pub id : ℕ
  pub response : Bool
  pub authoritative : Bool
  pub truncated : Bool
  pub checking_disabled : Bool
  pub rcode : ℕ
  pub question : List Question
  pub answer : List Rr
  pub ns : List Rr
  pub extra : List Rr

abbrev pub rcode_success : ℕ
rcode_success = 0

abbrev pub rcode_server_failure : ℕ
rcode_server_failure = 2

abbrev pub rcode_name_error : ℕ
rcode_name_error = 3

abbrev pub rcode_refused : ℕ
rcode_refused = 5

abbrev pub type_opt : ℕ
type_opt = 41

-- `new(dns.Msg)`.
abbrev pub new_msg : Msg
new_msg = record {
  id = 0;
  response = false;
  authoritative = false;
  truncated = false;
  checking_disabled = false;
  rcode = 0;
  question = [];
  answer = [];
  ns = [];
  extra = [];
}

-- The errors that the code compares with, and all others. `wrapped` is an error around another
-- one, which errors.Is looks through; `plugin_error` is the text that plugin.Error makes.
pub data Err : Type 0 where
  cached_closed eof epipe econnreset : Err
  canceled deadline_exceeded net_timeout : Err
  no_answer mismatch : Err
  other : ℕ → Err
  wrapped : Err → Err
  plugin_error : Err → Err

-- Msg.SetRcode of miekg/dns: it makes a message the reply to a request with a response code, and
-- leaves the records of the message alone.
pub record DnsLib : Type 0 where
  pub set_rcode : Msg → Msg → ℕ → Msg
  pub set_rcode-rcode : (m r : Msg) (c : ℕ) → (set_rcode m r c).rcode ≡ c
  pub set_rcode-id : (m r : Msg) (c : ℕ) → (set_rcode m r c).id ≡ r.id
  pub set_rcode-response : (m r : Msg) (c : ℕ) → (set_rcode m r c).response ≡ true
  pub set_rcode-truncated : (m r : Msg) (c : ℕ) → (set_rcode m r c).truncated ≡ m.truncated
  pub set_rcode-answer : (m r : Msg) (c : ℕ) → (set_rcode m r c).answer ≡ m.answer
  pub set_rcode-ns : (m r : Msg) (c : ℕ) → (set_rcode m r c).ns ≡ m.ns
  pub set_rcode-extra : (m r : Msg) (c : ℕ) → (set_rcode m r c).extra ≡ m.extra
  -- request.Request.Name: the name of the first question in lower case.
  pub request_name : Msg → Bytes
  -- request.Request.Match: whether a reply, the second message, answers the request's question.
  pub answers : Msg → Msg → Bool
  -- plugin.Name.Matches: whether a zone holds a name.
  pub zone_holds : Bytes → Bytes → Bool

-- What a handler leaves behind: the messages that it wrote to the client, and its results.
pub record Served : Type 0 where
  pub written : List Msg
  pub rcode : ℕ
  pub err : Option Err

-- A dns.ResponseWriter whose WriteMsg fails with this error, if with any.
abbrev pub Writer : Type 0
Writer = Option Err

-- plugin.NextOrFailure on the handlers behind a plugin.
abbrev pub Next : Type 0
Next = Msg → Served

-- `w.WriteMsg(m)`, then the results of the handler for either outcome.
unfoldable pub write_reply : Writer → Msg → ℕ → Option Err → Served
write_reply none m rcode err = record { written = m ∷ []; rcode = rcode; err = err }
write_reply (some e) m rcode err = record {
  written = [];
  rcode = rcode_server_failure;
  err = some e;
}

-- A counter or gauge vector of Prometheus, by its label.
abbrev pub Metric : Type 0
Metric = Bytes → ℕ

unfoldable pub inc : Bytes → Metric → Metric
inc label metric l = if str_eq l label then suc (metric l) else metric l

unfoldable pub set_to : Bytes → ℕ → Metric → Metric
set_to label v metric l = if str_eq l label then v else metric l

-- `useful` of race.go and of peercache.go: an answer that can end a contest.
unfoldable pub useful : Option Msg → Bool
useful none = false
useful (some m) =
    if m.truncated then false else m.rcode == rcode_success || m.rcode == rcode_name_error
