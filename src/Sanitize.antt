-- ===== src/Sanitize.antt =====
-- custom_components/unifi_network_rules/helpers/rule.py: `sanitize_entity_id`, and the ids of child
-- entities that are made with it.
pub mod Slug
mod Tests
use unifi_network_rules.Prelude.{
  ℕ, Bool, true, false, not, ◌&&◌, ◌||◌, List, [], ◌∷◌, ◌++◌, keep, leb, ◌==◌, if◌then◌else◌,
}
use unifi_network_rules.Text.{Text, codes, lower}

-- `[a-z0-9_]`
abbrev pub is_word : ℕ → Bool
is_word c = (leb b'a' c && leb c b'z') || ((leb b'0' c && leb c b'9') || (c == b'_'))

unfoldable pub replace_hyphens : Text → Text
replace_hyphens [] = []
replace_hyphens (c ∷ s) = (if c == b'-' then b'_' else c) ∷ replace_hyphens s

-- `re.sub(r"[^a-z0-9_]", "_", text)`
unfoldable pub replace_others : Text → Text
replace_others [] = []
replace_others (c ∷ s) = (if is_word c then c else b'_') ∷ replace_others s

abbrev pub begins_with_underscore : Text → Bool
begins_with_underscore [] = false
begins_with_underscore (c ∷ s) = c == b'_'

-- `re.sub(r"_{2,}", "_", text)`
unfoldable pub collapse : Text → Text
collapse [] = []
collapse (c ∷ s) =
    let rest = collapse s in if (c == b'_') && begins_with_underscore rest then rest else c ∷ rest

-- `text.strip("_")`, from the left and then from the right.
unfoldable pub lstrip : Text → Text
lstrip [] = []
lstrip (c ∷ s) = let rest = lstrip s in if c == b'_' then rest else c ∷ s

abbrev pub is_nil : Text → Bool
is_nil [] = true
is_nil (c ∷ s) = false

unfoldable pub rstrip : Text → Text
rstrip [] = []
rstrip (c ∷ s) = let rest = rstrip s in if (c == b'_') && is_nil rest then [] else c ∷ rest

abbrev pub or_unknown : Text → Text
or_unknown [] = codes "unknown"
or_unknown (c ∷ s) = c ∷ s

abbrev pub without_apostrophes : Text → Text
without_apostrophes s = keep (λ c. not (c == b'\'')) s

unfoldable pub sanitize_entity_id : Text → Text
sanitize_entity_id [] = []
sanitize_entity_id (c ∷ s) = or_unknown (
    rstrip
      (lstrip (collapse (replace_others (replace_hyphens (without_apostrophes (lower (c ∷ s))))))))

unfoldable pub get_child_entity_id : Text → Text → Text
get_child_entity_id parent_id child_type = parent_id ++ b'_' ∷ sanitize_entity_id child_type

unfoldable pub get_child_unique_id : Text → Text → Text
get_child_unique_id parent_unique_id child_type =
    parent_unique_id ++ b'_' ∷ sanitize_entity_id child_type
