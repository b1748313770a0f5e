-- ===== src/Switch/Optimistic.antt =====
-- How long a switch shows the target of a toggle in place of the state of its rule.
use unifi_network_rules.Prelude.{
  ℕ, ◌-◌, ◌≡◌, refl, Bool, true, false, not, ◌&&◌, none, some, ap, List, [], ◌∷◌, All, ◌≢◌, any,
  ltb, arith, if◌then◌else◌, Bool-cases, inl, inr, ◌∙◌,
}
use unifi_network_rules.Switch.{
  Switch, CurrentRule, Completion, succeeded, refused, raised, matches_actual,
  mark_pending_operation, handle_coordinator_update, handle_operation_complete, is_on,
  clear_optimistic_state,
}

-- A coordinator update that finds the rule: its time, and the rule.
pub record Update : Type 0 where
  pub now : ℕ
  pub rule : CurrentRule

unfoldable pub update_all : List Update → Switch → Switch
update_all [] s = s
update_all (u ∷ us) s = update_all us (handle_coordinator_update u.now true (some u.rule) s)

-- The update comes later than the maximum age after `since`, with the target's state or none.
unfoldable pub releases : ℕ → ℕ → Bool → Update → Bool
releases max_age since target u =
    ltb max_age (u.now - since) && matches_actual (some target) u.rule.actual_state

update_all-none :
    (us : List Update) (s : Switch)
    → s.optimistic_state ≡ none
    → (update_all us s).optimistic_state ≡ none
unfolding update_all handle_coordinator_update clear_optimistic_state
update_all-none [] s h = h
update_all-none (u ∷ us) s h =
    update_all-none us (handle_coordinator_update u.now true (some u.rule) s) (ground (arith, h))

-- The switch shows `b`, since then and for at most that age.
record Showing (b : Bool) (since max_age : ℕ) (s : Switch) : Type 0 where
  state : s.optimistic_state ≡ some b
  at : s.optimistic_timestamp ≡ since
  age : s.optimistic_max_age ≡ max_age

update-Showing :
    (b : Bool) (since max_age : ℕ) (u : Update) (s : Switch)
    → Showing b since max_age s
    → releases max_age since b u ≡ false
    → Showing b since max_age (handle_coordinator_update u.now true (some u.rule) s)
unfolding handle_coordinator_update releases clear_optimistic_state
update-Showing b since max_age u s h held = record {
  state = ground (arith, h.state, h.at, h.age, held);
  at = ground (arith, h.state, h.at, h.age, held);
  age = ground (arith, h.state, h.at, h.age, held);
}

update-released :
    (b : Bool) (since max_age : ℕ) (u : Update) (s : Switch)
    → Showing b since max_age s
    → releases max_age since b u ≡ true
    → (handle_coordinator_update u.now true (some u.rule) s).optimistic_state ≡ none
unfolding handle_coordinator_update releases clear_optimistic_state
update-released b since max_age u s h free = ground (arith, h.state, h.at, h.age, free)

update_all-Showing :
    (us : List Update) (b : Bool) (since max_age : ℕ) (s : Switch)
    → Showing b since max_age s
    → (update_all us s).optimistic_state
      ≡ (if any (releases max_age since b) us then none else some b)
unfolding update_all any
update_all-Showing [] b since max_age s h = h.state
update_all-Showing (u ∷ us) b since max_age s h = elim (Bool-cases (releases max_age since b u)) [
  | inl free ↦ rw free (
      update_all-none us (handle_coordinator_update u.now true (some u.rule) s)
        (update-released b since max_age u s h free))
  | inr held ↦ rw held (
      update_all-Showing us b since max_age (handle_coordinator_update u.now true (some u.rule) s)
        (update-Showing b since max_age u s h held))
]

-- A switch that shows a target goes on to show it through every row of coordinator updates that
-- find its rule, until one of them comes later than the maximum age after the target was set and
-- its rule has the target's state or none; from then on it shows the rule.
pub is_on-update_all :
    (us : List Update) (b : Bool) (rule : CurrentRule) (s : Switch)
    → s.optimistic_state ≡ some b
    → is_on (some rule) (update_all us s) ≡ (
        if any (releases s.optimistic_max_age s.optimistic_timestamp b) us then rule.enabled else b)
unfolding is_on
is_on-update_all us b rule s h =
    let shown =
      update_all-Showing us b s.optimistic_timestamp s.optimistic_max_age s
        (record { state = h; at = refl; age = refl }) in
    ground (arith, shown)

-- The rule has the other state in the update.
unfoldable pub Differs : Bool → Update → Type 0
Differs target u = u.rule.actual_state ≡ some (not target)

releases-Differs :
    (max_age since : ℕ) (target : Bool) (us : List Update)
    → All (Differs target) us
    → any (releases max_age since target) us ≡ false
unfolding releases Differs any
releases-Differs max_age since target [] h = refl
releases-Differs max_age since true (u ∷ us) h =
    ground (arith, h.0, releases-Differs max_age since true us h.1)
releases-Differs max_age since false (u ∷ us) h =
    ground (arith, h.0, releases-Differs max_age since false us h.1)

marked-failed :
    (now : ℕ) (enable : Bool) (failure : Completion) (s : Switch)
    → failure ≢ succeeded
    → (handle_operation_complete now enable failure s).optimistic_state ≡ some (not enable)
unfolding handle_operation_complete mark_pending_operation
marked-failed now enable succeeded s failed = absurd (failed refl)
marked-failed now enable refused s failed = refl
marked-failed now enable (raised message) s failed = refl

is_on-Differs :
    (us : List Update) (b : Bool) (rule : CurrentRule) (s : Switch)
    → s.optimistic_state ≡ some b
    → All (Differs b) us
    → is_on (some rule) (update_all us s) ≡ b
is_on-Differs us b rule s h other =
    let never = releases-Differs s.optimistic_max_age s.optimistic_timestamp b us other in
    is_on-update_all us b rule s h ∙ ap (λ x. if x then rule.enabled else b) never

-- A switch whose operation fails shows the opposite of the operation's target, and goes on to show
-- it through every row of coordinator updates whose rule has the target's state, however late they
-- come.
pub is_on-failed :
    (us : List Update) (now : ℕ) (enable : Bool) (failure : Completion) (rule : CurrentRule)
    (s : Switch)
    → failure ≢ succeeded
    → All (Differs (not enable)) us
    → is_on (some rule) (update_all us (handle_operation_complete now enable failure s))
      ≡ not enable
is_on-failed us now enable failure rule s failed other =
    is_on-Differs us (not enable) rule (handle_operation_complete now enable failure s)
      (marked-failed now enable failure s failed) other
