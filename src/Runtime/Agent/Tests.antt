-- ===== src/Runtime/Agent/Tests.antt =====
-- Agents whose states are numbers.
use guage.Prelude.{ℕ, ◌+◌, ◌<◌, ◌≡◌, none, List, [], ◌∷◌, arith, ◌==◌}
use guage.Runtime.Refs.{retains, releases}
use guage.Runtime.Slots.{max_slots, fresh}
use guage.Runtime.Agent.{Agents, agent_reset_all}
use guage.Runtime.Agent.Laws.{IsSound}
use guage.Runtime.Agent.Ownership.{
  Op, start, set_state, stop, run, fresh-IsSound, run-Balanced, agent_run-no_leak,
}

abbrev no_agents : Agents ℕ
no_agents = fresh none

few : no_agents.used < max_slots
unfolding fresh
few = omega arith

abbrev ops : List (Op ℕ)
ops = start 5 ∷ start 6 ∷ set_state 0 8 ∷ stop 1 ∷ set_state 1 9 ∷ []

agent_run-no_leak_example :
    let (t, log) = run {C = ℕ} (fresh none) ops in
    retains (λ c. c == 8) log + retains (λ c. c == 8) (agent_reset_all t).1
    ≡ releases (λ c. c == 8) log + releases (λ c. c == 8) (agent_reset_all t).1
agent_run-no_leak_example = agent_run-no_leak ops (λ c. c == 8)

abbrev after : Agents ℕ
after = (run no_agents ops).0

after-IsSound : IsSound after
after-IsSound = (run-Balanced no_agents ops fresh-IsSound).1
