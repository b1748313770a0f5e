-- ===== src/Text.antt =====
-- Text that the code looks into, as the list of its code points: the messages of errors
-- (`str(error).lower()`, `"timeout" in error_str`) and the identifiers that
-- custom_components/unifi_network_rules/helpers/id_parser.py takes apart.
use Prim.Native.Char.{code}
use unifi_network_rules.Prelude.{
  ℕ, zero, suc, ◌+◌, ◌-◌, String, Bool, true, false, ◌&&◌, ◌||◌, Option, none, some, List, [], ◌∷◌,
  ◌++◌, ◌≡◌, ◌↔◌, arith, length, leb, ◌==◌, if◌then◌else◌,
}

abbrev pub Text : Type 0
Text = List ℕ

-- The code points of a literal.
abbrev pub codes : String → Text
codes String.[] = []
codes (String.◌∷◌ c s) = code c ∷ codes s

unfoldable pub text_eq : Text → Text → Bool
text_eq [] [] = true
text_eq (a ∷ s) (b ∷ t) = (a == b) && text_eq s t
text_eq _ _ = false

pub text_eq_iff : (s t : Text) → (text_eq s t ≡ true) ↔ (s ≡ t)
unfolding text_eq
text_eq_iff [] [] = ground arith
text_eq_iff (a ∷ s) (b ∷ t) = ground (arith, text_eq_iff s t)
text_eq_iff [] (b ∷ t) = ground arith
text_eq_iff (a ∷ s) [] = ground arith

-- `s.startswith(p)`
unfoldable pub starts_with : Text → Text → Bool
starts_with [] s = true
starts_with (a ∷ p) [] = false
starts_with (a ∷ p) (b ∷ t) = (a == b) && starts_with p t

-- `p in s`
unfoldable pub contains : Text → Text → Bool
unfolding starts_with
contains p [] = starts_with p []
contains p (b ∷ t) = starts_with p (b ∷ t) || contains p t

-- `s.lower()`, on ASCII letters.
unfoldable pub lower : Text → Text
lower [] = []
lower (c ∷ s) = (if leb b'A' c && leb c b'Z' then c + 32 else c) ∷ lower s

-- `re.sub`, for a pattern given by the length of its match at the start of a text, which is not
-- zero: `skip` characters belong to the last match.
unfoldable pub sub_from : (Text → Option ℕ) → Text → ℕ → Text → Text
sub_from found new skip [] = []
sub_from found new (suc skip) (c ∷ s) = sub_from found new skip s
sub_from found new zero (c ∷ s) = elim (found (c ∷ s)) [
  | none ↦ c ∷ sub_from found new zero s
  | some n ↦ new ++ sub_from found new (n - 1) s
]

-- `s.replace(old, new)`, where `old` is not empty.
unfoldable pub replace : Text → Text → Text → Text
unfolding sub_from starts_with
replace old new s = sub_from (λ t. if starts_with old t then some (length old) else none) new zero s
