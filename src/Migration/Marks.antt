-- ===== src/Migration/Marks.antt =====
-- Lemmas on update_trigger_templates of scripts/migrate_triggers.py: the quotes and dots of a text,
-- and which texts the replacements leave as they are.
use unifi_network_rules.Prelude.{
  ℕ, ◌-◌, ◌==◌, ◌≡◌, refl, sym, ◌∙◌, Bool, true, false, ◌||◌, Option, none, List, [], ◌∷◌, ◌++◌,
  All, Bool-cases, Option-cases, ap, inl, inr, arith,
}
use unifi_network_rules.Text.{Text, text_eq, starts_with, sub_from}
use unifi_network_rules.Migration.Templates.{
  Part, literal, longer, match_length, Replacement, replacements, sub, sub_all,
  replace_trigger_vars,
}

abbrev is_mark : ℕ → Bool
is_mark c = c == 39 || c == 46

unfoldable pub marked : Text → Bool
marked [] = false
marked (c ∷ s) = is_mark c || marked s

marked-append : (s t : Text) → marked (s ++ t) ≡ (marked s || marked t)
unfolding marked
marked-append [] t = refl
marked-append (c ∷ s) t = ground (arith, marked-append s t)

-- A text that starts with a marked one is marked.
starts_with-marked : (p s : Text) → starts_with p s ≡ true → marked p ≡ true → marked s ≡ true
unfolding starts_with marked
starts_with-marked [] s h m = ground (arith, m)
starts_with-marked (a ∷ p) [] h m = ground (arith, h)
starts_with-marked (a ∷ p) (b ∷ s) h m = ground (arith, h, m, starts_with-marked p s)

module _ (found : Text → Option ℕ) (new : Text) where
  sub_from-unmarked :
      ((s : Text) → marked s ≡ false → found s ≡ none)
      → (s : Text) → marked s ≡ false
      → sub_from found new 0 s ≡ s
  unfolding sub_from marked
  sub_from-unmarked h [] m = refl
  sub_from-unmarked h (c ∷ s) m =
      rw (sub_from, h (c ∷ s) m) (ap (λ t. c ∷ t) (sub_from-unmarked h s (ground (arith, m))))

  sub_from-marked :
      marked new ≡ true → (s : Text) → marked s ≡ true → marked (sub_from found new 0 s) ≡ true
  unfolding sub_from marked
  sub_from-marked h [] m = m
  sub_from-marked h (c ∷ s) m = elim (Option-cases (found (c ∷ s))) [
    | inl e ↦ rw (sub_from, e, marked) (ground (arith, m, sub_from-marked h s))
    | inr (n, e) ↦ rw (sub_from, e, marked-append new (sub_from found new (n - 1) s), h) refl
  ]

longer-none : (n : ℕ) (o : Option ℕ) → o ≡ none → longer n o ≡ none
longer-none n o h = rw h refl

-- A pattern whose first literal is marked is not found in an unmarked text.
match_length-unmarked :
    (p : Text) (ps : List Part) (s : Text)
    → marked p ≡ true
    → marked s ≡ false
    → match_length (literal p ∷ ps) s ≡ none
unfolding match_length
match_length-unmarked p ps s h m = elim (Bool-cases (starts_with p s)) [
  | inl e ↦ ground (arith, starts_with-marked p s e h, m)
  | inr e ↦ rw e refl
]

abbrev Marks : Replacement → Type 0
Marks r = (marked r.first ≡ true) × (marked r.new_value ≡ true)

sub-unmarked : (r : Replacement) → Marks r → (s : Text) → marked s ≡ false → sub r s ≡ s
unfolding sub
sub-unmarked r h =
    sub_from-unmarked (match_length (literal r.first ∷ r.rest)) r.new_value
      (λ s m. match_length-unmarked r.first r.rest s h.0 m)

sub-marked : (r : Replacement) → Marks r → (s : Text) → marked s ≡ true → marked (sub r s) ≡ true
unfolding sub
sub-marked r h = sub_from-marked (match_length (literal r.first ∷ r.rest)) r.new_value h.1

sub_all-unmarked :
    (rs : List Replacement) → All Marks rs → (s : Text) → marked s ≡ false → sub_all rs s ≡ s
unfolding sub_all
sub_all-unmarked [] h s m = refl
sub_all-unmarked (r ∷ rs) h s m = rw (sub-unmarked r h.0 s m) (sub_all-unmarked rs h.1 s m)

sub_all-marked :
    (rs : List Replacement)
    → All Marks rs
    → (s : Text) → marked s ≡ true
    → marked (sub_all rs s) ≡ true
unfolding sub_all
sub_all-marked [] h s m = m
sub_all-marked (r ∷ rs) h s m = sub_all-marked rs h.1 (sub r s) (sub-marked r h.0 s m)

replacements-Marks : All Marks replacements
unfolding marked
replacements-Marks = (
  (refl, refl),
  (
    (refl, refl),
    (
      (refl, refl),
      (
        (refl, refl),
        (
          (refl, refl),
          ((refl, refl), ((refl, refl), ((refl, refl), ((refl, refl), ((refl, refl), tt))))),
        ),
      ),
    ),
  ),
)

text_eq-marked : (s k : Text) → marked s ≡ true → marked k ≡ false → text_eq s k ≡ false
unfolding text_eq marked
text_eq-marked [] k m h = ground (arith, m)
text_eq-marked (c ∷ s) [] m h = refl
text_eq-marked (c ∷ s) (d ∷ k) m h = ground (arith, m, h, text_eq-marked s k)

-- An unmarked text is what the templates make of a text exactly if it is that text.
pub text_eq-replace_trigger_vars :
    (k s : Text) → marked k ≡ false → text_eq (replace_trigger_vars s) k ≡ text_eq s k
unfolding replace_trigger_vars
text_eq-replace_trigger_vars k s h = elim (Bool-cases (marked s)) [
  | inl m ↦
      text_eq-marked (sub_all replacements s) k (sub_all-marked replacements replacements-Marks s m)
        h
      ∙ sym (text_eq-marked s k m h)
  | inr m ↦ rw (sub_all-unmarked replacements replacements-Marks s m) refl
]
