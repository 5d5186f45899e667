-- ===== src/Peercache/Discovery.antt =====
-- plugin/peercache/discovery.go: the peer set follows the running pods.
use homedns.Prelude.{
  ℕ, ◌||◌, Bool, true, false, not, List, [], ◌∷◌, Option, none, some, Bytes, length, is_empty,
  str_eq, if◌then◌else◌,
}
use homedns.Corefile.{TextLib}
use homedns.Blocklist.Matcher.{sort_strings}
pub mod Siblings
pub mod Order

-- A pod of the lister: its address, whether its phase is Running, and whether it has a deletion
-- timestamp.
pub record Pod : Type 0 where
  pub ip : Bytes
  pub is_running : Bool
  pub is_deleted : Bool

-- The pointer `peers`, and the gauge `peersTotal`.
pub record Peers : Type 0 where
  pub listed : Option (List Bytes)
  pub total : ℕ

unfoldable pub peer_list : Option (List Bytes) → List Bytes
peer_list none = []
peer_list (some addrs) = addrs

-- The guard of the loop.
unfoldable pub is_skipped : Bytes → Pod → Bool
is_skipped self pod = is_empty pod.ip || str_eq pod.ip self || not pod.is_running || pod.is_deleted

-- The steps of `discover` that can fail, in their order.
pub record Cluster : Type 0 where
  pub namespace_read : Bool
  pub config_built : Bool
  pub client_built : Bool
  pub watched : Bool

module _ (txt : TextLib) (port : ℕ) (self : Bytes) where
  -- The loop over the pods.
  unfoldable pub addrs_of : List Pod → List Bytes
  unfolding is_skipped
  addrs_of [] = []
  addrs_of (pod ∷ pods) =
      if is_skipped self pod
      then addrs_of pods
      else txt.join_host_port pod.ip (txt.itoa port) ∷ addrs_of pods

  -- `republish` with what the lister gives; `none` is its error.
  unfoldable pub republish : Option (List Pod) → Peers → Peers
  unfolding addrs_of
  republish none peers = peers
  republish (some pods) peers =
      let addrs = sort_strings (addrs_of pods) in
      record { listed = some addrs; total = length addrs }

  -- `republish` runs on every event of the informer and once after the first synchronisation.
  unfoldable pub republish_all : List (Option (List Pod)) → Peers → Peers
  unfolding republish
  republish_all [] peers = peers
  republish_all (pods ∷ later) peers = republish_all later (republish pods peers)

  unfoldable pub discover : Cluster → List (Option (List Pod)) → Peers → Peers
  unfolding republish_all
  discover k events peers =
      if not k.namespace_read
      then peers
      else if not k.config_built
      then peers
      else if not k.client_built
      then peers
      else if not k.watched
      then peers
      else republish_all events peers
