-- ===== src/RuleId/Tests.antt =====
-- Unique ids of switches at concrete inputs.
use unifi_network_rules.Prelude.{◌≡◌, ◌↔◌, refl, true, none, some, []}
use unifi_network_rules.Text.{codes}
use unifi_network_rules.Value.{str}
use unifi_network_rules.Detector.Creation.{unique_id_of}
use unifi_network_rules.IdParser.RoundTrip.{is_plain}
use unifi_network_rules.RuleId.{firewall_policy, typed, device, raw, get_rule_id}
use unifi_network_rules.RuleId.Agreement.{unique_text, kept_under, agrees, unique_id-get_rule_id}

device_id : get_rule_id (device (some (codes "aa"))) ≡ some (codes "unr_device_aa_led")
unfolding get_rule_id
device_id = refl

raw_unknown : get_rule_id (raw (some []) (some (codes "7")) none) ≡ some (codes "unr_unknown_7")
unfolding get_rule_id
raw_unknown = refl

unique_id-get_rule_id_example :
    (unique_text (unique_id_of (kept_under firewall_policy) (str "6786d55a"))
      ≡ get_rule_id (typed firewall_policy (some (codes "6786d55a"))))
    ↔ (agrees firewall_policy ≡ true)
unfolding is_plain
unique_id-get_rule_id_example = unique_id-get_rule_id firewall_policy "6786d55a" refl (λ e. cc)
