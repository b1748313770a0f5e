-- ===== src/Entities/Policies.antt =====
-- The switch of a policy of the object-oriented networking, which the check for deleted rules
-- leaves out.
use unifi_network_rules.Prelude.{List, [], ◌∷◌}
use unifi_network_rules.Text.{Text}
use unifi_network_rules.IdSet.{IdSet}
use unifi_network_rules.Entities.{FoundRule, EntityData}

-- Data that has policies of the object-oriented networking (OON) and nothing else.
abbrev pub only_policies : List FoundRule → EntityData
only_policies policies = record { rules = ("oon_policies", policies) ∷ []; devices = [] }
