-- ===== src/Services/Bulk/Shadowed.antt =====
-- services/rule_services.py: the rules that a bulk update passes over because they have an entity.
use unifi_network_rules.Prelude.{
  ℕ, ◌≡◌, refl, ◌∙◌, String, Bool, true, false, ◌&&◌, ◌||◌, Option, none, some, List, [], ◌∷◌, ◌++◌,
  any, ◌==◌, arith, Bool-cases, inl, inr,
}
use text.Mathlib.Text.{◌==◌ as str_eq}
use unifi_network_rules.Text.{Text, lower}
use unifi_network_rules.Services.{
  Method, QueuedCall, toggle_rule, plain_call, method_of, toggle_methods,
}
use unifi_network_rules.Services.Bulk.{
  BulkRule, Coordinator, Entity, Bulk, is_in_state, toggle_rule_if_needed, add_call, has_unique_id,
  is_selected, is_handled, async_bulk_update_rules,
}
use unifi_network_rules.Services.Bulk.Loops.{
  AllRules, AllRules-map, Step, is_picked, async_bulk_update_rules-keeps,
}

-- The call, if there is one, is for the rule.
abbrev IsFor : ℕ → Option QueuedCall → Type 0
IsFor n none = Unit
IsFor n (some call) = call.rule ≡ n

plain_call-IsFor : (n : ℕ) (o : Option Method) → IsFor n (plain_call n o)
plain_call-IsFor n none = tt
plain_call-IsFor n (some method) = refl

toggle_rule-IsFor : (desired : Bool) (t : String) (n : ℕ) → IsFor n (toggle_rule desired t n)
unfolding toggle_rule
toggle_rule-IsFor desired t n = elim (Bool-cases (str_eq t "networks")) [
  | inl e ↦ rw (toggle_rule, e) refl
  | inr e ↦ elim (Bool-cases (str_eq t "devices")) [
    | inl d ↦ rw (toggle_rule, e, d) refl
    | inr d ↦ rw (toggle_rule, e, d) (plain_call-IsFor n (method_of t toggle_methods))
  ]
]

if_needed-IsFor :
    (desired : Bool) (t : String) (r : BulkRule)
    → IsFor r.object (toggle_rule_if_needed desired t r)
unfolding toggle_rule_if_needed
if_needed-IsFor desired t r = elim (Bool-cases (is_in_state desired r.enabled)) [
  | inl e ↦ rw (toggle_rule_if_needed, e) tt
  | inr e ↦ rw (toggle_rule_if_needed, e) (toggle_rule-IsFor desired t r.object)
]

any-append :
    (p : QueuedCall → Bool) (xs ys : List QueuedCall) → any p (xs ++ ys) ≡ (any p xs || any p ys)
unfolding any
any-append p [] ys = refl
any-append p (x ∷ xs) ys = ground (arith, any-append p xs ys)

abbrev pub calls_rule : ℕ → List QueuedCall → Bool
calls_rule n calls = any (λ call. call.rule == n) calls

add_call-other :
    (n m : ℕ) (o : Option QueuedCall) (calls : List QueuedCall)
    → IsFor m o
    → (m == n) ≡ false
    → calls_rule n calls ≡ false
    → calls_rule n (add_call o calls) ≡ false
unfolding any
add_call-other n m none calls h other none_yet = none_yet
add_call-other n m (some call) calls h other none_yet =
    any-append (λ c. c.rule == n) calls (call ∷ []) ∙ rw (none_yet, h, other) refl

-- The rule has an entity with a state, and no entity whose name matches has its unique id.
abbrev pub IsShadowed : Text → List Entity → BulkRule → Type 0
IsShadowed f es r =
    (is_handled es r ≡ true)
    × (any (λ e. is_selected f e && has_unique_id e.unique_id r) es ≡ false)

shadowed-kept :
    (f : Text) (es : List Entity) (n : ℕ) (desired : Bool) (r : BulkRule)
    → ((r.object == n) ≡ true → IsShadowed f es r)
    → Step (λ calls. calls_rule n calls ≡ false) desired (is_picked f es) r
shadowed-kept f es n desired r h t calls hit none_yet = elim (Bool-cases (r.object == n)) [
  | inl same ↦ absurd (ground (arith, hit, (h same).0, (h same).1))
  | inr other ↦
      add_call-other n r.object (toggle_rule_if_needed desired t r) calls
        (if_needed-IsFor desired t r) other none_yet
]

-- If each rule that is a given object has a switch with a state, and no switch whose name matches the
-- filter has its unique id, then a bulk update queues no call for that object, though the rule's own
-- name may match the filter.
pub async_bulk_update_rules-IsShadowed :
    (f : Text) (desired : Bool) (es : List Entity) (cs : List Coordinator) (b : Bulk) (n : ℕ)
    → AllRules (λ r. (r.object == n) ≡ true → IsShadowed (lower f) es r) cs
    → async_bulk_update_rules f desired es cs ≡ some b
    → any (λ call. call.rule == n) b.calls ≡ false
unfolding any
async_bulk_update_rules-IsShadowed f desired es cs b n h e =
    async_bulk_update_rules-keeps (λ calls. calls_rule n calls ≡ false) desired f es cs b
      (AllRules-map (λ r. (r.object == n) ≡ true → IsShadowed (lower f) es r)
        (Step (λ calls. calls_rule n calls ≡ false) desired (is_picked (lower f) es)) cs
        (shadowed-kept (lower f) es n desired) h)
      refl e
