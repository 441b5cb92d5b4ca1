-- ===== src/Supervisor/Run/Returns.antt =====
-- That `gw_supervisor_run` of supervisor.c returns once its attempts end and a backoff is cut short.
use learn_apue.Base.{Bool, true, false, List, [], ◌∷◌, ◌++◌, ◌≡◌}
use learn_apue.Supervisor.Attempt.{Turn}
use learn_apue.Supervisor.Attempt.Returns.{IsLastTurn}
use learn_apue.Supervisor.Run.{Round, Run, Pass, again, returned}

-- The attempt of a round ends: the last of its turns finds the worker dead and its pipes closed.
pub record IsEnding (k : Round) : Type 0 where
  pub earlier : List Turn
  pub final : Turn
  pub all_turns : k.turns ≡ earlier ++ final ∷ []
  pub final-IsLastTurn : IsLastTurn final

pub data AllEnd : List Round → Type 0 where
  no_rounds : AllEnd []
  one_more : {k : Round} {ks : List Round} → IsEnding k → AllEnd ks → AllEnd (k ∷ ks)

abbrev is_returned : Pass → Bool
is_returned (again run) = false
is_returned (returned r) = true
