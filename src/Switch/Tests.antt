-- ===== src/Switch/Tests.antt =====
-- A switch at concrete inputs.
use unifi_network_rules.Prelude.{
  ◌≤◌, ◌≡◌, refl, Bool, true, false, some, List, [], ◌∷◌, ◌++◌, any, length,
}
use unifi_network_rules.Text.{codes}
use unifi_network_rules.Switch.{
  Switch, CurrentRule, init, mark_pending_operation, async_toggle_rule,
}
use unifi_network_rules.Switch.Runs.{Event, toggled, debounce_fired, executed, run}
use unifi_network_rules.Switch.Debounce.{
  toggles, toggle_all, run-init-submitted, execute-toggle_all,
}
use unifi_network_rules.Switch.Optimistic.{Update}
use unifi_network_rules.Prelude.{ℕ, keep}
use unifi_network_rules.Switch.{cancel, submit, execute_toggle_operation}
use unifi_network_rules.Switch.Runs.{step, fire_debounce}
use unifi_network_rules.Switch.Optimistic.{Differs}
use unifi_network_rules.Prelude.{◌+◌, arith, none}
use unifi_network_rules.Text.{text_eq}
use unifi_network_rules.IdSet.{member, add, discard}
use unifi_network_rules.Switch.SelfRemoval.{
  World, establish_parent_child_relationship, begin_removal, remove_directly, unlink_child,
  remove_self, map_world, remove_children, initiate_self_removal,
}
use unifi_network_rules.Switch.SelfRemoval.Settled.{begun, times_removed}
use unifi_network_rules.Switch.SelfRemoval.Once.{initiate_self_removal_lem}

program : Unit {0}
unfolding init run step fire_debounce async_toggle_rule execute_toggle_operation
    mark_pending_operation cancel submit keep any Differs text_eq member add discard
    establish_parent_child_relationship begin_removal remove_directly unlink_child remove_self
    remove_children initiate_self_removal
program = tt

-- Two toggles, of which the second cancels the first one's timer.
abbrev two_toggles : List Event
two_toggles =
    toggled 0 true
    ∷ toggled 100 false
    ∷ debounce_fired 0
    ∷ debounce_fired 1
    ∷ executed 700 true true
    ∷ executed 700 true true
    ∷ []

one_operation : (run two_toggles (init false)).submitted ≡ false ∷ []
unfolding program
one_operation = refl

run-init-submitted_example : length (run two_toggles (init false)).submitted ≤ toggles two_toggles
run-init-submitted_example = run-init-submitted false two_toggles

abbrev a_row : List (ℕ × Bool)
a_row = (0, true) ∷ (100, false) ∷ []

execute-toggle_all_example :
    let t = async_toggle_rule 200 true (toggle_all a_row (init false)) in
    let h = (toggle_all a_row (init false)).next_handle in
    let u = run (debounce_fired h ∷ executed 700 true true ∷ []) t in
    (length t.pending_timers ≡ 1)
    × (u.submitted ≡ (init false).submitted ++ true ∷ [])
    × (u.pending_timers ≡ [])
    × (u.execute_tasks ≡ 0)
    × (u.pending_operation ≡ some true)
unfolding program
execute-toggle_all_example = execute-toggle_all a_row 200 700 true (init false) refl refl

abbrev seen : Bool → CurrentRule
seen b = record { actual_state = some b; enabled = b }

-- Too early, with the other state, and with the target's state.
abbrev three_updates : List Update
three_updates =
    record { now = 1000; rule = seen true }
    ∷ record { now = 8000; rule = seen false }
    ∷ record { now = 9000; rule = seen true }
    ∷ []

abbrev shows_on : Switch
shows_on = mark_pending_operation 500 true (init false)

-- A route and its kill switch, each linked as a child of the other.
abbrev circle : World
circle = establish_parent_child_relationship (codes "k") (codes "r") (
    establish_parent_child_relationship (codes "r") (codes "k") (record {
      known = codes "r" ∷ codes "k" ∷ [];
      created = codes "r" ∷ codes "k" ∷ [];
      registry = codes "r" ∷ codes "k" ∷ [];
      entities = codes "r" ∷ codes "k" ∷ [];
      children = λ id. [];
      parent = λ id. none;
      initiated = [];
      removed = [];
    }))

child_first :
    map_world
      (λ w. record w { children = λ id. []; parent = λ id. none })
      (initiate_self_removal 4 (codes "r") circle)
    ≡ some (record {
      known = [];
      created = [];
      registry = codes "r" ∷ codes "k" ∷ [];
      entities = [];
      children = λ id. [];
      parent = λ id. none;
      initiated = codes "r" ∷ codes "k" ∷ [];
      removed = codes "k" ∷ codes "r" ∷ [];
    })
unfolding program
child_first = refl

initiate_self_removal_example :
    (u : World) × (initiate_self_removal 4 (codes "r") circle ≡ some u)
    × (begun (codes "r") u ≡ 1)
    × (times_removed (codes "k") u + begun (codes "k") circle
        ≡ times_removed (codes "k") circle + begun (codes "k") u)
unfolding program
initiate_self_removal_example =
    initiate_self_removal_lem (codes "k") (codes "r") 4 circle (omega arith)
