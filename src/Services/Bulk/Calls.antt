-- ===== src/Services/Bulk/Calls.antt =====
-- services/rule_services.py: the calls that a bulk update queues, and the updates that it counts.
use unifi_network_rules.Prelude.{
  ℕ, ◌+◌, ◌≡◌, refl, sym, ◌∙◌, ap, subst, String, Bool, true, not, Option, none, some, List, [],
  ◌∷◌, All, All-append, All-map, arith, Bool-cases, inl, inr, if◌then◌else◌,
}
use unifi_network_rules.Text.{Text, lower}
use unifi_network_rules.Api.Wrapper
use unifi_network_rules.Api.Wrapper.{CallEnd}
use unifi_network_rules.Services.{toggle, QueuedCall, is_toggle, call_end, missing_arguments}
use unifi_network_rules.Services.Toggle.{NoState, AllNoState, toggle_rule-NoState}
use unifi_network_rules.Services.Bulk.{
  BulkRule, Coordinator, Entity, Bulk, is_in_state, toggle_rule_if_needed, add_call, updated,
  update_rules, update_collections, is_passed_over, has_unique_id, update_coordinators, is_selected,
  update_by_entity, selects_by_name, update_by_name, no_updates, async_bulk_update_rules,
}
use unifi_network_rules.Services.Bulk.Loops.{
  AllRules, AllRules-map, holds_of_rules, Step, is_picked, async_bulk_update_rules-keeps,
}

-- A call of a method that sets a state ends with the error for its missing argument, whatever the
-- method would do.
pub MissesState : QueuedCall → Type 0
MissesState call =
    (name : String)
    → call.method ≡ toggle name
    → (end : CallEnd) → call_end call end ≡ Wrapper.raised (missing_arguments name)

NoState-MissesState : (call : QueuedCall) → NoState call → MissesState call
unfolding MissesState
NoState-MissesState call h name m end =
    let stateless = subst (λ k. (if is_toggle k then call.state else none) ≡ none) m h in
    rw (m, stateless) refl

if_needed-NoState :
    (desired : Bool) (t : String) (r : BulkRule) → AllNoState (toggle_rule_if_needed desired t r)
unfolding toggle_rule_if_needed
if_needed-NoState desired t r = elim (Bool-cases (is_in_state desired r.enabled)) [
  | inl e ↦ rw e tt
  | inr e ↦ rw e (toggle_rule-NoState desired t r.object)
]

add_call-All :
    (P : QueuedCall → Type 0) (o : Option QueuedCall) (calls : List QueuedCall)
    → ((call : QueuedCall) → o ≡ some call → P call)
    → All P calls
    → All P (add_call o calls)
add_call-All P none calls f h = h
add_call-All P (some call) calls f h = All-append P calls (call ∷ []) h (f call refl, tt)

-- A bulk update that returns has queued calls without the state for each method that sets one:
-- whatever the controller would have answered to them, they end with the error for the missing
-- argument.
async_bulk_update_rules-MissesState :
    (f : Text) (desired : Bool) (es : List Entity) (cs : List Coordinator) (b : Bulk)
    → async_bulk_update_rules f desired es cs ≡ some b
    → All MissesState b.calls
async_bulk_update_rules-MissesState f desired es cs b e =
    All-map NoState MissesState b.calls NoState-MissesState (
      async_bulk_update_rules-keeps (All NoState) desired f es cs b
        (holds_of_rules (Step (All NoState) desired (is_picked (lower f) es)) cs (λ r t calls hit h.
          add_call-All NoState (toggle_rule_if_needed desired t r) calls
            (λ call k. subst AllNoState k (if_needed-NoState desired t r)) h))
        tt e)

module _ (desired : Bool) where
  rules_count :
      (selects : BulkRule → Bool) (t : String) (rs : List BulkRule) (b b' : Bulk)
      → b.updated_count ≡ b'.updated_count
      → (update_rules desired selects t rs b).updated_count
        ≡ (update_rules (not desired) selects t rs b').updated_count
  unfolding update_rules updated
  rules_count selects t [] b b' h = h
  rules_count selects t (r ∷ rs) b b' h = elim (Bool-cases (selects r)) [
    | inl e ↦
        rw (update_rules, e)
          (rules_count selects t rs (updated desired t r b) (updated (not desired) t r b')
            (ap (λ n. n + 1) h))
    | inr e ↦ rw (update_rules, e) (rules_count selects t rs b b' h)
  ]

  collections_count :
      (selects : BulkRule → Bool) (ks : List (String × List BulkRule)) (b b' : Bulk)
      → b.updated_count ≡ b'.updated_count
      → (update_collections desired selects ks b).updated_count
        ≡ (update_collections (not desired) selects ks b').updated_count
  unfolding update_collections
  collections_count selects [] b b' h = h
  collections_count selects ((t, rs) ∷ ks) b b' h =
      collections_count selects ks (update_rules desired selects t rs b)
        (update_rules (not desired) selects t rs b') (rules_count selects t rs b b' h)

  coordinators_count :
      (id : Text) (cs : List Coordinator) (b b' : Bulk)
      → b.updated_count ≡ b'.updated_count
      → (update_coordinators desired id cs b).updated_count
        ≡ (update_coordinators (not desired) id cs b').updated_count
  unfolding update_coordinators
  coordinators_count id [] b b' h = h
  coordinators_count id (c ∷ cs) b b' h = elim (Bool-cases (is_passed_over c)) [
    | inl e ↦ rw (update_coordinators, e) (coordinators_count id cs b b' h)
    | inr e ↦
        rw (update_coordinators, e)
          (coordinators_count id cs (update_collections desired (has_unique_id id) c.collections b)
            (update_collections (not desired) (has_unique_id id) c.collections b')
            (collections_count (has_unique_id id) c.collections b b' h))
  ]

  by_entity_count :
      (f : Text) (es : List Entity) (cs : List Coordinator) (b b' : Bulk)
      → b.updated_count ≡ b'.updated_count
      → (update_by_entity desired f es cs b).updated_count
        ≡ (update_by_entity (not desired) f es cs b').updated_count
  unfolding update_by_entity
  by_entity_count f [] cs b b' h = h
  by_entity_count f (e ∷ es) cs b b' h = elim (Bool-cases (is_selected f e)) [
    | inl s ↦
        rw (update_by_entity, s)
          (by_entity_count f es cs (update_coordinators desired e.unique_id cs b)
            (update_coordinators (not desired) e.unique_id cs b')
            (coordinators_count e.unique_id cs b b' h))
    | inr s ↦ rw (update_by_entity, s) (by_entity_count f es cs b b' h)
  ]

  by_name_count :
      (f : Text) (es : List Entity) (cs : List Coordinator) (b b' : Bulk)
      → b.updated_count ≡ b'.updated_count
      → (update_by_name desired f es cs b).updated_count
        ≡ (update_by_name (not desired) f es cs b').updated_count
  unfolding update_by_name
  by_name_count f es [] b b' h = h
  by_name_count f es (c ∷ cs) b b' h = elim (Bool-cases (is_passed_over c)) [
    | inl e ↦ rw (update_by_name, e) (by_name_count f es cs b b' h)
    | inr e ↦
        let done = update_collections desired (selects_by_name f es) c.collections b in
        let done' = update_collections (not desired) (selects_by_name f es) c.collections b' in
        rw (update_by_name, e)
          (by_name_count f es cs (record done { refreshes = done.refreshes + 1 })
            (record done' { refreshes = done'.refreshes + 1 })
            (collections_count (selects_by_name f es) c.collections b b' h))
  ]

abbrev IsNil : List QueuedCall → Type 0
IsNil calls = calls ≡ []

abbrev count_of : Option Bulk → Option ℕ
count_of none = none
count_of (some b) = some b.updated_count

bulk_count :
    (f : Text) (desired : Bool) (es : List Entity) (cs : List Coordinator)
    → count_of (async_bulk_update_rules f desired es cs)
      ≡ count_of (async_bulk_update_rules f (not desired) es cs)
unfolding async_bulk_update_rules
bulk_count f desired es [] = refl
bulk_count f desired es (c ∷ cs) = ap some (
    by_name_count desired (lower f) es (c ∷ cs)
      (update_by_entity desired (lower f) es (c ∷ cs) no_updates)
      (update_by_entity (not desired) (lower f) es (c ∷ cs) no_updates)
      (by_entity_count desired (lower f) es (c ∷ cs) no_updates no_updates refl))

-- If every rule is in the desired state, a bulk update queues no call, and yet it counts as many
-- updates as one to the other state.
async_bulk_update_rules-count :
    (f : Text) (desired : Bool) (es : List Entity) (cs : List Coordinator) (b b' : Bulk)
    → AllRules (λ r. is_in_state desired r.enabled ≡ true) cs
    → async_bulk_update_rules f desired es cs ≡ some b
    → async_bulk_update_rules f (not desired) es cs ≡ some b'
    → (b.calls ≡ []) × (b.updated_count ≡ b'.updated_count)
unfolding toggle_rule_if_needed
async_bulk_update_rules-count f desired es cs b b' set e e' = (
  async_bulk_update_rules-keeps IsNil desired f es cs b
      (AllRules-map (λ r. is_in_state desired r.enabled ≡ true)
        (Step IsNil desired (is_picked (lower f) es)) cs
        (λ r h t calls hit empty. rw (toggle_rule_if_needed, h) empty) set)
      refl e,
  ground (arith, sym (ap count_of e) ∙ bulk_count f desired es cs ∙ ap count_of e'),
)
