-- ===== src/Detector/Endings.antt =====
-- Lemmas on the texts of the ids of kill switches in unified_change_detector.py.
use Prim.Native.Char.{Char, code}
use Prim.Native.String.{◌++◌}
use Prim.Native.String.append as append_laws
use text.Mathlib.Text.{◌==◌}
use text.Mathlib.TextEquality.{eq_iff}
use unifi_network_rules.Prelude.{
  String, ◌≡◌, refl, ap, ◌∙◌, subst, true, false, [], ◌∷◌, ◌++◌ as append, arith, Bool-cases, inl,
  inr,
}
use unifi_network_rules.Text.{Text, codes, starts_with}
use unifi_network_rules.Value.{str, truthy}
use unifi_network_rules.Detector.{ends_with, is_kill_switch}
use unifi_network_rules.Detector.Snapshot.{kill_switch_id}

starts_with_refl : (s : Text) → starts_with s s ≡ true
unfolding starts_with
starts_with_refl [] = refl
starts_with_refl (c ∷ s) = ground (arith, starts_with_refl s)

ends_with_refl : (s : Text) → ends_with s s ≡ true
unfolding ends_with starts_with
ends_with_refl [] = refl
ends_with_refl (c ∷ s) = rw (starts_with_refl (c ∷ s)) refl

ends_with-append : (s p : Text) → ends_with p (append s p) ≡ true
unfolding ends_with
ends_with-append [] p = ends_with_refl p
ends_with-append (c ∷ s) p = rw (ends_with, ends_with-append s p) (ground arith)

codes-append : (s p : String) → codes (s ++ p) ≡ append (codes s) (codes p)
codes-append String.[] p = ap codes (append_laws.nil p)
codes-append (String.◌∷◌ c s) p =
    ap codes (append_laws.cons c s p) ∙ ap (λ t. code c ∷ t) (codes-append s p)

pub is_kill_switch-id : (s : String) → is_kill_switch (str (kill_switch_id s)) ≡ true
unfolding is_kill_switch
is_kill_switch-id s =
    rw (codes-append s "_kill_switch") (ends_with-append (codes s) (codes "_kill_switch"))

-- A text that does not end like the id of a kill switch is not its own kill switch's.
pub kill_switch_id-ne :
    (s : String) → is_kill_switch (str s) ≡ false → (s == kill_switch_id s) ≡ false
kill_switch_id-ne s h = elim (Bool-cases (s == kill_switch_id s)) [
  | inl e ↦
      let p = (eq_iff s (kill_switch_id s)).0 e in
      ground (arith, subst (λ t. is_kill_switch (str t) ≡ false) p h, is_kill_switch-id s)
  | inr e ↦ e
]

cons-nonempty : (c : Char) (s : String) → (String.◌∷◌ c s == "") ≡ false
cons-nonempty c s = elim (Bool-cases (String.◌∷◌ c s == "")) [
  | inl e ↦ ground (arith, ap codes ((eq_iff (String.◌∷◌ c s) "").0 e))
  | inr e ↦ e
]

pub append-truthy : (s p : String) → truthy (str p) ≡ true → truthy (str (s ++ p)) ≡ true
unfolding truthy
append-truthy String.[] p h = rw (append_laws.nil p) h
append-truthy (String.◌∷◌ c s) p h = rw (append_laws.cons c s p, cons-nonempty c (s ++ p)) refl
