-- ===== src/Services/Bulk/Loops.antt =====
-- services/rule_services.py: what all the calls that a bulk update queues have in common.
use unifi_network_rules.Prelude.{
  ◌≡◌, ◌+◌, refl, String, Bool, true, ◌&&◌, ◌||◌, some, List, [], ◌∷◌, All, All-map, holds_of_each,
  any, some-rule, arith, Bool-cases, inl, inr,
}
use unifi_network_rules.Text.{Text, lower}
use unifi_network_rules.Services.{QueuedCall}
use unifi_network_rules.Services.Bulk.{
  BulkRule, Coordinator, Entity, Bulk, toggle_rule_if_needed, add_call, updated, update_rules,
  update_collections, is_passed_over, has_unique_id, update_coordinators, is_selected,
  update_by_entity, selects_by_name, update_by_name, no_updates, async_bulk_update_rules,
}

-- Of each rule of the coordinators.
abbrev pub AllRules : (BulkRule → Type 0) → List Coordinator → Type 0
AllRules Q coordinators = All (λ c. All (λ k. All Q k.1) c.collections) coordinators

pub AllRules-map :
    (P Q : BulkRule → Type 0) (cs : List Coordinator)
    → ((r : BulkRule) → P r → Q r)
    → AllRules P cs
    → AllRules Q cs
AllRules-map P Q cs f h =
    All-map (λ c. All (λ k. All P k.1) c.collections) (λ c. All (λ k. All Q k.1) c.collections) cs
      (λ c. All-map (λ k. All P k.1) (λ k. All Q k.1) c.collections (λ k. All-map P Q k.1 f)) h

pub holds_of_rules :
    (Q : BulkRule → Type 0) (cs : List Coordinator) → ((r : BulkRule) → Q r) → AllRules Q cs
holds_of_rules Q cs f =
    holds_of_each (λ c. All (λ k. All Q k.1) c.collections) cs
      (λ c. holds_of_each (λ k. All Q k.1) c.collections (λ k. holds_of_each Q k.1 f))

-- A selected entity has the rule's unique id, or the second loop selects the rule.
abbrev pub is_picked : Text → List Entity → BulkRule → Bool
is_picked f es r =
    any (λ e. is_selected f e && has_unique_id e.unique_id r) es || selects_by_name f es r

selected_any :
    (p : Entity → BulkRule → Bool) (es : List Entity)
    → All (λ e. (r : BulkRule) → p e r ≡ true → any (λ x. p x r) es ≡ true) es
unfolding any
selected_any p [] = tt
selected_any p (e ∷ es) = (
  λ r h. rw h refl,
  All-map (λ x. (r : BulkRule) → p x r ≡ true → any (λ y. p y r) es ≡ true)
      (λ x. (r : BulkRule) → p x r ≡ true → (p e r || any (λ y. p y r) es) ≡ true) es
      (λ x k r h. ground (arith, k r h)) (selected_any p es),
)

module _ (P : List QueuedCall → Type 0) (desired : Bool) where
  -- The property is kept by the call for a rule, if that is selected.
  abbrev pub Step : (BulkRule → Bool) → BulkRule → Type 0
  Step selects r =
      (t : String) (calls : List QueuedCall)
      → selects r ≡ true
      → P calls
      → P (add_call (toggle_rule_if_needed desired t r) calls)

  update_rules-keeps :
      (selects : BulkRule → Bool) (t : String) (rs : List BulkRule) (b : Bulk)
      → All (Step selects) rs
      → P b.calls
      → P (update_rules desired selects t rs b).calls
  unfolding update_rules updated
  update_rules-keeps selects t [] b h p = p
  update_rules-keeps selects t (r ∷ rs) b h p = elim (Bool-cases (selects r)) [
    | inl e ↦
        rw (update_rules, e)
          (update_rules-keeps selects t rs (updated desired t r b) h.1 (h.0 t b.calls e p))
    | inr e ↦ rw (update_rules, e) (update_rules-keeps selects t rs b h.1 p)
  ]

  update_collections-keeps :
      (selects : BulkRule → Bool) (ks : List (String × List BulkRule)) (b : Bulk)
      → All (λ k. All (Step selects) k.1) ks
      → P b.calls
      → P (update_collections desired selects ks b).calls
  unfolding update_collections
  update_collections-keeps selects [] b h p = p
  update_collections-keeps selects ((t, rs) ∷ ks) b h p =
      update_collections-keeps selects ks (update_rules desired selects t rs b) h.1
        (update_rules-keeps selects t rs b h.0 p)

  update_coordinators-keeps :
      (id : Text) (cs : List Coordinator) (b : Bulk)
      → AllRules (Step (has_unique_id id)) cs
      → P b.calls
      → P (update_coordinators desired id cs b).calls
  unfolding update_coordinators
  update_coordinators-keeps id [] b h p = p
  update_coordinators-keeps id (c ∷ cs) b h p = elim (Bool-cases (is_passed_over c)) [
    | inl e ↦ rw (update_coordinators, e) (update_coordinators-keeps id cs b h.1 p)
    | inr e ↦
        rw (update_coordinators, e)
          (update_coordinators-keeps id cs
            (update_collections desired (has_unique_id id) c.collections b) h.1
            (update_collections-keeps (has_unique_id id) c.collections b h.0 p))
  ]

  update_by_entity-keeps :
      (f : Text) (es : List Entity) (cs : List Coordinator) (b : Bulk)
      → All (λ e. is_selected f e ≡ true → AllRules (Step (has_unique_id e.unique_id)) cs) es
      → P b.calls
      → P (update_by_entity desired f es cs b).calls
  unfolding update_by_entity
  update_by_entity-keeps f [] cs b h p = p
  update_by_entity-keeps f (e ∷ es) cs b h p = elim (Bool-cases (is_selected f e)) [
    | inl s ↦
        rw (update_by_entity, s)
          (update_by_entity-keeps f es cs (update_coordinators desired e.unique_id cs b) h.1
            (update_coordinators-keeps e.unique_id cs b (h.0 s) p))
    | inr s ↦ rw (update_by_entity, s) (update_by_entity-keeps f es cs b h.1 p)
  ]

  update_by_name-keeps :
      (f : Text) (es : List Entity) (cs : List Coordinator) (b : Bulk)
      → AllRules (Step (selects_by_name f es)) cs
      → P b.calls
      → P (update_by_name desired f es cs b).calls
  unfolding update_by_name
  update_by_name-keeps f es [] b h p = p
  update_by_name-keeps f es (c ∷ cs) b h p = elim (Bool-cases (is_passed_over c)) [
    | inl e ↦ rw (update_by_name, e) (update_by_name-keeps f es cs b h.1 p)
    | inr e ↦
        let done = update_collections desired (selects_by_name f es) c.collections b in
        rw (update_by_name, e)
          (update_by_name-keeps f es cs (record done { refreshes = done.refreshes + 1 }) h.1
            (update_collections-keeps (selects_by_name f es) c.collections b h.0 p))
  ]

  picked-by_entity :
      (f : Text) (es : List Entity) (cs : List Coordinator)
      → AllRules (Step (is_picked f es)) cs
      → All (λ e. is_selected f e ≡ true → AllRules (Step (has_unique_id e.unique_id)) cs) es
  picked-by_entity f es cs h =
      All-map
        (λ e.
          (r : BulkRule)
          → (is_selected f e && has_unique_id e.unique_id r) ≡ true
          → any (λ x. is_selected f x && has_unique_id x.unique_id r) es ≡ true)
        (λ e. is_selected f e ≡ true → AllRules (Step (has_unique_id e.unique_id)) cs) es
        (λ e found selected.
          AllRules-map (Step (is_picked f es)) (Step (has_unique_id e.unique_id)) cs
            (λ r step t calls hit p. step t calls (rw (found r (rw (selected, hit) refl)) refl) p)
            h)
        (selected_any (λ e r. is_selected f e && has_unique_id e.unique_id r) es)

  picked-by_name :
      (f : Text) (es : List Entity) (cs : List Coordinator)
      → AllRules (Step (is_picked f es)) cs
      → AllRules (Step (selects_by_name f es)) cs
  picked-by_name f es cs h =
      AllRules-map (Step (is_picked f es)) (Step (selects_by_name f es)) cs
        (λ r step t calls hit p. step t calls (ground (arith, hit)) p) h

  pub async_bulk_update_rules-keeps :
      (f : Text) (es : List Entity) (cs : List Coordinator) (b : Bulk)
      → AllRules (Step (is_picked (lower f) es)) cs
      → P []
      → async_bulk_update_rules f desired es cs ≡ some b
      → P b.calls
  unfolding async_bulk_update_rules
  async_bulk_update_rules-keeps f es [] b h p e = absurd (ground (arith, e))
  async_bulk_update_rules-keeps f es (c ∷ cs) b h p e =
      let named = lower f in
      let first = update_by_entity desired named es (c ∷ cs) no_updates in
      some-rule (λ x. P x.calls) (update_by_name desired named es (c ∷ cs) first) b e
        (update_by_name-keeps named es (c ∷ cs) first (picked-by_name named es (c ∷ cs) h) (
          update_by_entity-keeps named es (c ∷ cs) no_updates (picked-by_entity named es (c ∷ cs) h)
            p))
