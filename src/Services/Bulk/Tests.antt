-- ===== src/Services/Bulk/Tests.antt =====
-- The bulk update at a controller with two policies.
use unifi_network_rules.Prelude.{
  ℕ, ◌≡◌, refl, Bool, true, false, none, some, List, [], ◌∷◌, any, ◌==◌, arith,
}
use unifi_network_rules.Text.{Text, codes, text_eq, contains, starts_with, lower}
use unifi_network_rules.Services.{toggle, toggle_rule, method_of}
use unifi_network_rules.Services.Bulk.{
  BulkRule, Coordinator, Entity, Bulk, toggle_rule_if_needed, updated, update_rules,
  update_collections, update_coordinators, update_by_entity, entity_has_state, update_by_name,
  async_bulk_update_rules,
}
use unifi_network_rules.Services.Bulk.Shadowed.{async_bulk_update_rules-IsShadowed}

abbrev policy : ℕ → Text → Text → Bool → BulkRule
policy object id name enabled = record {
  object = object;
  unique_id = some id;
  name = name;
  enabled = some enabled;
}

abbrev television : BulkRule
television = policy 1 (codes "unr_policy_1") (codes "Kids TV") false

abbrev console : BulkRule
console = policy 2 (codes "unr_policy_2") (codes "Kids Console") false

abbrev controller : List Coordinator
controller =
    record { has_api = true; collections = ("firewall_policies", television ∷ console ∷ []) ∷ [] }
    ∷ []

-- A user has given the switch of the first policy a name of their own.
abbrev renamed : List Entity
renamed =
    record {
      is_our_switch = true;
      unique_id = codes "unr_policy_1";
      state_name = some (codes "Living room");
    }
    ∷ []

abbrev one_call : Bulk
one_call = record {
  calls = record { method = toggle "toggle_firewall_policy"; rule = 2; state = none } ∷ [];
  updated_count = 1;
  refreshes = 1;
}

abbrev counted : Bulk
counted = record { calls = []; updated_count = 1; refreshes = 1 }

program : Unit {0}
unfolding async_bulk_update_rules update_by_entity update_by_name update_coordinators
    update_collections update_rules updated toggle_rule_if_needed toggle_rule method_of
    entity_has_state contains starts_with text_eq lower any
program = tt

enables : async_bulk_update_rules (codes "Kids") true renamed controller ≡ some one_call
unfolding program
enables = refl

disables : async_bulk_update_rules (codes "Kids") false renamed controller ≡ some counted
unfolding program
disables = refl

async_bulk_update_rules-IsShadowed_example : any (λ call. call.rule == 1) one_call.calls ≡ false
unfolding program
async_bulk_update_rules-IsShadowed_example =
    async_bulk_update_rules-IsShadowed (codes "Kids") true renamed controller one_call 1
      ((((λ same. (refl, refl)), ((λ same. absurd (ground (arith, same))), tt)), tt), tt) enables
