-- ===== src/Security/TimeoutManager.antt =====
-- TimeoutManager of pkg/security/ratelimit.go. A duration is a number of nanoseconds.
use aixgo.Common.{ℕ, ◌≡◌, [], none, some, String, ite, string_discrete, arith, List, ◌∷◌}
use aixgo.Common.Maps.{Map, lookup, insert, lookup-insert}

pub record TimeoutManager : Type 0 where
  pub default_timeout : ℕ
  pub tool_timeouts : Map ℕ

pub new_timeout_manager : ℕ → TimeoutManager
new_timeout_manager default_timeout = record {
  default_timeout = default_timeout;
  tool_timeouts = [];
}

pub set_tool_timeout : TimeoutManager → String → ℕ → TimeoutManager
set_tool_timeout tm tool timeout = record tm {
  tool_timeouts = insert tool timeout tm.tool_timeouts;
}

pub get_timeout : TimeoutManager → String → ℕ
get_timeout tm tool = elim (lookup tool tm.tool_timeouts) [
  | some timeout ↦ timeout
  | none ↦ tm.default_timeout
]

-- A history of settings, oldest first.
pub set_all : TimeoutManager → List (String × ℕ) → TimeoutManager
set_all tm [] = tm
set_all tm ((tool, timeout) ∷ rest) = set_all (set_tool_timeout tm tool timeout) rest

-- The timeout that the newest setting for the tool gave, or `t` if there is none.
pub last_set : String → ℕ → List (String × ℕ) → ℕ
last_set tool t [] = t
last_set tool t ((other, timeout) ∷ rest) =
    last_set tool (ite (string_discrete other tool) timeout t) rest

get_timeout-set_tool_timeout :
    (tm : TimeoutManager) (tool other : String) (timeout : ℕ)
    → get_timeout (set_tool_timeout tm other timeout) tool
      ≡ ite (string_discrete other tool) timeout (get_timeout tm tool)
unfolding get_timeout set_tool_timeout
get_timeout-set_tool_timeout tm tool other timeout =
    ground (arith, lookup-insert other tool timeout tm.tool_timeouts)

get_timeout-set_all_from :
    (tm : TimeoutManager) (sets : List (String × ℕ)) (tool : String)
    → get_timeout (set_all tm sets) tool ≡ last_set tool (get_timeout tm tool) sets
unfolding set_all last_set
get_timeout-set_all_from tm [] tool = ground arith
get_timeout-set_all_from tm ((other, timeout) ∷ rest) tool = ground (
  arith,
  get_timeout-set_all_from (set_tool_timeout tm other timeout) rest tool,
  get_timeout-set_tool_timeout tm tool other timeout,
)

-- After any history of settings a tool has the timeout that was set for it last, or the default
-- one if none was.
pub get_timeout-set_all :
    (default_timeout : ℕ) (sets : List (String × ℕ)) (tool : String)
    → get_timeout (set_all (new_timeout_manager default_timeout) sets) tool
      ≡ last_set tool default_timeout sets
unfolding new_timeout_manager get_timeout lookup
get_timeout-set_all default_timeout sets tool =
    get_timeout-set_all_from (new_timeout_manager default_timeout) sets tool
