-- ===== src/Peercache/Contest/HandBack.antt =====
-- What the client of peercache's `race` gets when no leg has a useful answer, written out.
use homedns.Prelude.{
  ℕ, suc, ◌≡◌, refl, sym, ap, subst, ◌∙◌, List, [], ◌∷◌, ◌++◌, Option, none, some, Bytes, All,
  length,
}
use homedns.Dns.{Msg, Err, DnsLib, Served, Writer, Next, write_reply}
use homedns.Detached.{DetachedWriter, new_writer, write_msg, write_all}
use homedns.Peercache.Store.{CacheLib}
use homedns.Peercache.Contest.{Event, upstream_leg, send_on, hand_back, hand_back_msg, contest}
use homedns.Peercache.Contest.First.{Timed, IsLosing, IsPeer, arrivals, contest-hand_back}

-- A message that is written to the client beside an error, or the writer's error.
abbrev pub handed : Writer → Msg → Option Err → Served
handed none m err = record { written = m ∷ []; rcode = 0; err = err }
handed (some e) m err = record { written = []; rcode = 2; err = some e }

-- The next plugin's results and the client's: the code and error as they are, if the plugin wrote
-- nothing; else its last message, as the reply to the request under its own code, with its error.
pub data IsHandedBack (lib : DnsLib) (w : Writer) (r : Msg) (s : Served) : Served → Type 0 where
  silent :
      s.written ≡ []
      → IsHandedBack lib w r s (record { written = []; rcode = s.rcode; err = s.err })
  replied :
      (ms : List Msg) (m : Msg)
      → s.written ≡ ms ++ m ∷ []
      → IsHandedBack lib w r s (handed w (lib.set_rcode m r m.rcode) s.err)

-- The detached writer holds the last message.
write_all-last :
    (m : Msg) (ms : List Msg) (d : DetachedWriter)
    → (front : List Msg) × (l : Msg) × (m ∷ ms ≡ front ++ l ∷ [])
      × ((write_all (m ∷ ms) d).msg ≡ some l)
unfolding write_all write_msg
write_all-last m [] d = ([], m, refl, refl)
write_all-last m (n ∷ ms) d =
    let (front, l, e, held) = write_all-last n ms (record d { msg = some m }) in
    (m ∷ front, l, ap (λ (t : List Msg). m ∷ t) e, held)

module _ (lib : DnsLib) (lru : CacheLib) (w : Writer) (r : Msg) where
  send_on-handed :
      (m : Msg) (err : Option Err)
      → send_on lib w r m err ≡ handed w (lib.set_rcode m r m.rcode) err
  unfolding send_on write_reply
  send_on-handed m err = by_writer w
    where
      by_writer : (v : Writer) → send_on lib v r m err ≡ handed v (lib.set_rcode m r m.rcode) err
      by_writer none = refl
      by_writer (some e) = refl

  hand_back-IsHandedBack :
      (next : Next) (local remote : Bytes) (ms : List Msg)
      → (next r).written ≡ ms
      → IsHandedBack lib w r (next r) (hand_back lib w r (some (upstream_leg next local remote r)))
  unfolding hand_back hand_back_msg upstream_leg write_all new_writer
  hand_back-IsHandedBack next local remote [] e =
      subst
        (λ o.
          IsHandedBack lib w r (next r)
            (hand_back_msg lib w r (upstream_leg next local remote r) o))
        (sym (ap (λ t. (write_all t (new_writer local remote)).msg) e)) (silent e)
  hand_back-IsHandedBack next local remote (m ∷ ms) e =
      let (front, l, split, held) = write_all-last m ms (new_writer local remote) in
      subst
        (λ o.
          IsHandedBack lib w r (next r)
            (hand_back_msg lib w r (upstream_leg next local remote r) o))
        (sym (ap (λ t. (write_all t (new_writer local remote)).msg) e ∙ held))
        (subst (IsHandedBack lib w r (next r)) (sym (send_on-handed l (next r).err))
          (replied front l (e ∙ split)))

  -- When every leg has reported and no answer was useful, the client gets what the next plugin did on
  -- a detached writer: its code and error if it wrote nothing, and else its last message, as the reply
  -- to the request under its own code, together with its error. If the write fails, the handler gives
  -- SERVFAIL and the writer's error. The store is left alone.
  pub contest-IsHandedBack :
      (peers : List Bytes) (before after : List Timed) (next : Next) (local remote : Bytes)
      (now : ℕ) (late : List (ℕ × Event)) (c : lru.Cache)
      → All IsLosing (before ++ (now, upstream_leg next local remote r) ∷ after)
      → All IsPeer after
      → length (before ++ (now, upstream_leg next local remote r) ∷ after) ≡ suc (length peers)
      → (out : Served) × (contest lib lru w r peers
            (arrivals (before ++ (now, upstream_leg next local remote r) ∷ after) ++ late)
            c
          ≡ some (c, out))
        × IsHandedBack lib w r (next r) out
  contest-IsHandedBack peers before after next local remote now late c losing others all = (
    hand_back lib w r (some (upstream_leg next local remote r)),
    contest-hand_back lib lru w r peers before after next local remote now late c losing others all,
    hand_back-IsHandedBack next local remote (next r).written refl,
  )
