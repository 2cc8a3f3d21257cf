-- ===== src/Quorum/Config.antt =====
-- pkg/coordinator/quorum.go: the quorum that the configuration describes, and its statistics.
-- The map of groups is a list of names with their members; names and addresses are texts.
use Prim.Native.String.{String}
use inx_coordinator.Base.{
  ℕ, Bool, true, false, not, ◌||◌, Option, none, some, List, [], ◌∷◌, ◌++◌, if◌then◌else◌, Error,
}

-- `QuorumClientConfig`
pub record QuorumClientConfig : Type 0 where
  pub alias : String
  pub base_url : String
  pub username : String
  pub password : String

-- `QuorumClientStatistic`; the response time is in the unit of the clock.
pub record QuorumClientStatistic : Type 0 where
  pub group : String
  pub alias : String
  pub base_url : String
  pub response_time : ℕ
  pub error : Option Error

-- `quorumGroupEntry`: the client is given by its address and credentials.
pub record QuorumGroupEntry : Type 0 where
  pub api_url : String
  pub user_info : Option (String × String)
  pub stats : QuorumClientStatistic

-- `quorum`, without its lock.
pub record Quorum : Type 0 where
  pub groups : List (String × List QuorumGroupEntry)
  pub timeout : ℕ

abbrev pub is_blank : String → Bool
is_blank String.[] = true
is_blank (String.◌∷◌ c s) = false

unfoldable pub new_entry : String → QuorumClientConfig → QuorumGroupEntry
new_entry name client = record {
  api_url = client.base_url;
  user_info =
      if not (is_blank client.username) || not (is_blank client.password)
      then some (client.username, client.password)
      else none;
  stats = record {
    group = name;
    alias = client.alias;
    base_url = client.base_url;
    response_time = 0;
    error = none;
  };
}

unfoldable pub new_entries : String → List QuorumClientConfig → List QuorumGroupEntry
new_entries name [] = []
new_entries name (c ∷ cs) = new_entry name c ∷ new_entries name cs

-- The loop of `newQuorum` over the groups; `none` is its panic on a group with no nodes.
unfoldable pub new_groups :
    List (String × List QuorumClientConfig) → Option (List (String × List QuorumGroupEntry))
new_groups [] = some []
new_groups ((name, []) ∷ gs) = none
new_groups ((name, c ∷ cs) ∷ gs) = elim (new_groups gs) [
  | none ↦ none
  | some rest ↦ some ((name, new_entries name (c ∷ cs)) ∷ rest)
]

-- `newQuorum`; `none` is a panic.
unfoldable pub new_quorum : List (String × List QuorumClientConfig) → ℕ → Option Quorum
unfolding new_groups
new_quorum [] timeout = none
new_quorum (g ∷ gs) timeout = elim (new_groups (g ∷ gs)) [
  | none ↦ none
  | some groups ↦ some (record { groups = groups; timeout = timeout })
]

-- `WithQuorum`, as the value that the option sets; the outer `none` is a panic.
unfoldable pub with_quorum :
    Bool → List (String × List QuorumClientConfig) → ℕ → Option (Option Quorum)
with_quorum enabled groups timeout =
    if enabled
    then (elim (new_quorum groups timeout) [ none ↦ none | some q ↦ some (some q) ])
    else some none

unfoldable pub entry_stats : List QuorumGroupEntry → List QuorumClientStatistic
entry_stats [] = []
entry_stats (e ∷ es) = e.stats ∷ entry_stats es

-- `quorumStatsSnapshot`
unfoldable pub quorum_stats_snapshot :
    List (String × List QuorumGroupEntry) → List QuorumClientStatistic
unfolding entry_stats
quorum_stats_snapshot [] = []
quorum_stats_snapshot ((name, es) ∷ gs) = entry_stats es ++ quorum_stats_snapshot gs
