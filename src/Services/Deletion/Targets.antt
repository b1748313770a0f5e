-- ===== src/Services/Deletion/Targets.antt =====
-- services/rule_services.py: which call the service that deletes a rule queues.
use unifi_network_rules.Prelude.{
  ◌≡◌, refl, ap, ◌∙◌, ◌≢◌, Bool, true, false, Option, none, some, List, [], ◌∷◌, any, arith,
  Option-cases, inl, inr, if◌then◌else◌,
}
use unifi_network_rules.Text.{Text, codes, text_eq, contains, starts_with}
use unifi_network_rules.IdParser.{parse_rule_id, validate_rule_type, generate_entity_id_from_rule}
use unifi_network_rules.IdParser.RoundTrip.{is_plain, parse-generate, parse-raw}
use unifi_network_rules.Services.Deletion.{
  DeleteCall, remove_methods, remove_method, delete_rule, or_delete, delete_any, types_tried,
  delete_first, delete_end, async_delete_rule, delete_parsed, deletable_types,
}

-- Without an API nothing is queued.
delete_rule-no_api : (t id : Text) → delete_rule false t id ≡ none
unfolding delete_rule
delete_rule-no_api t id = elim (Option-cases (remove_method t remove_methods)) [
  | inl e ↦ rw e refl
  | inr (name, e) ↦ rw e refl
]

delete_any-no_api : (ts : List Text) (id : Text) → delete_any false ts id ≡ none
unfolding delete_any
delete_any-no_api [] id = refl
delete_any-no_api (t ∷ ts) id = rw (delete_rule-no_api t id) (delete_any-no_api ts id)

-- Whether a coordinator has an API.
abbrev pub has_any : List Bool → Bool
has_any coordinators = any (λ has_api. has_api) coordinators

abbrev pub call_if : Bool → Option DeleteCall → Option DeleteCall
call_if has call = if has then call else none

or_delete-same : (has : Bool) (call : Option DeleteCall) → or_delete call (call_if has call) ≡ call
or_delete-same true none = refl
or_delete-same false none = refl
or_delete-same has (some call) = refl

-- The coordinators with an API all lead to the same call.
delete_first_lem :
    (coordinators : List Bool) (t : Option Text) (id : Text)
    → delete_first coordinators t id
      ≡ call_if (has_any coordinators) (delete_any true (types_tried t) id)
unfolding delete_first any
delete_first_lem [] t id = refl
delete_first_lem (true ∷ coordinators) t id =
    rw (delete_first_lem coordinators t id)
      (or_delete-same (has_any coordinators) (delete_any true (types_tried t) id))
delete_first_lem (false ∷ coordinators) t id =
    rw (delete_any-no_api (types_tried t) id) (delete_first_lem coordinators t id)

async_delete_rule-parsed :
    (coordinators : List Bool) (id : Text) (t : Option Text) (r : Text × Option Text)
    → coordinators ≢ []
    → id ≢ []
    → parse_rule_id id t ≡ r
    → async_delete_rule coordinators id t ≡ delete_parsed coordinators t r
unfolding async_delete_rule
async_delete_rule-parsed [] id t r some_there given h = absurd (some_there refl)
async_delete_rule-parsed (a ∷ coordinators) [] t r some_there given h = absurd (given refl)
async_delete_rule-parsed (a ∷ coordinators) (c ∷ id) t r some_there given h =
    ap (delete_parsed (a ∷ coordinators) t) h

policies_first :
    (id : Text)
    → delete_any true deletable_types id
      ≡ some (record { method = codes "remove_firewall_policy"; rule_id = id })
unfolding delete_any delete_rule remove_method text_eq any
policies_first id = refl

-- With an id of UniFi and no rule type, the service that deletes a rule queues the removal of a
-- firewall policy with that id, and answers with success, whatever kind of rule has the id; it fails
-- only if no coordinator has an API.
pub async_delete_rule-untyped :
    (coordinators : List Bool) (id : Text)
    → coordinators ≢ []
    → id ≢ []
    → contains (codes ".") id ≡ false
    → starts_with (codes "unr_") id ≡ false
    → async_delete_rule coordinators id none
      ≡ delete_end (
          call_if
            (has_any coordinators)
            (some (record { method = codes "remove_firewall_policy"; rule_id = id })))
async_delete_rule-untyped coordinators [] some_there given no_dot no_prefix = absurd (given refl)
async_delete_rule-untyped coordinators (c ∷ id) some_there given no_dot no_prefix =
    let parsed = parse-raw (c ∷ id) none given no_dot no_prefix in
    async_delete_rule-parsed coordinators (c ∷ id) none (c ∷ id, none) some_there given parsed
    ∙ ap delete_end (
        delete_first_lem coordinators none (c ∷ id)
        ∙ ap (call_if (has_any coordinators)) (policies_first (c ∷ id)))

delete_any-one : (t id : Text) → delete_any true (t ∷ []) id ≡ delete_rule true t id
unfolding delete_any
delete_any-one t id = elim (Option-cases (delete_rule true t id)) [
  | inl e ↦ rw e refl
  | inr (call, e) ↦ rw e refl
]

generate_nonempty : (id t : Text) → generate_entity_id_from_rule id t ≢ []
unfolding generate_entity_id_from_rule
generate_nonempty id t h = ground (arith, h)

-- For an entity id that was generated from a supported rule type and an id without an underscore,
-- with no type given, the service does just what the deletion of that id under that type does: it
-- answers with success and queues the type's call for the id, or fails if the type has none, and it
-- fails if no coordinator has an API.
async_delete_rule-generate :
    (coordinators : List Bool) (id t : Text)
    → coordinators ≢ []
    → id ≢ []
    → is_plain id ≡ true
    → validate_rule_type t ≡ true
    → async_delete_rule coordinators (generate_entity_id_from_rule id t) none
      ≡ delete_end (call_if (has_any coordinators) (delete_rule true t id))
unfolding validate_rule_type any text_eq
async_delete_rule-generate coordinators [] t some_there given plain valid = absurd (given refl)
async_delete_rule-generate coordinators (c ∷ id) [] some_there given plain valid =
    absurd (ground (arith, valid))
async_delete_rule-generate coordinators (c ∷ id) (x ∷ t) some_there given plain valid =
    async_delete_rule-parsed coordinators (generate_entity_id_from_rule (c ∷ id) (x ∷ t)) none
      (c ∷ id, some (x ∷ t)) some_there (generate_nonempty (c ∷ id) (x ∷ t))
      (parse-generate (c ∷ id) (x ∷ t) plain valid)
    ∙ rw valid (
        ap delete_end (
          delete_first_lem coordinators (some (x ∷ t)) (c ∷ id)
          ∙ ap (call_if (has_any coordinators)) (delete_any-one (x ∷ t) (c ∷ id))))
