-- ===== src/Sanitize/Slug.antt =====
-- What the sanitized ids look like.
use unifi_network_rules.Prelude.{
  ap, sym, ◌∙◌, ◌↔◌, ◌≡◌, refl, ◌≢◌, Bool, true, false, not, ◌&&◌, ◌||◌, [], ◌∷◌, all, keep, arith,
  ◌==◌,
}
use unifi_network_rules.Text.{Text, lower}
use unifi_network_rules.Sanitize.{
  is_word, replace_hyphens, replace_others, begins_with_underscore, collapse, lstrip, is_nil,
  rstrip, or_unknown, without_apostrophes, sanitize_entity_id,
}

-- Word characters with no two underscores in a row; `after` says that one stands before the text.
unfoldable pub has_single : Bool → Text → Bool
has_single after [] = true
has_single after (c ∷ s) = is_word c && (not (after && (c == b'_')) && has_single (c == b'_') s)

-- The same, and the text does not end with an underscore. From `true` on, it does not begin with
-- one either and is not empty: the object ids that Home Assistant takes.
unfoldable pub is_slug : Bool → Text → Bool
is_slug after [] = not after
is_slug after (c ∷ s) = is_word c && (not (after && (c == b'_')) && is_slug (c == b'_') s)

all-replace_others : (s : Text) → all (λ c. is_word c) (replace_others s) ≡ true
unfolding all replace_others
all-replace_others [] = refl
all-replace_others (c ∷ s) = ground (arith, all-replace_others s)

has_single-after :
    (s : Text)
    → has_single false s ≡ true
    → begins_with_underscore s ≡ false
    → has_single true s ≡ true
unfolding has_single
has_single-after [] h b = refl
has_single-after (c ∷ s) h b = ground arith

has_single-before :
    (after : Bool) (s : Text) → has_single after s ≡ true → has_single false s ≡ true
unfolding has_single
has_single-before after [] h = refl
has_single-before after (c ∷ s) h = ground arith

has_single-collapse :
    (s : Text) → all (λ c. is_word c) s ≡ true → has_single false (collapse s) ≡ true
unfolding has_single collapse all
has_single-collapse [] h = refl
has_single-collapse (c ∷ s) h = ground (arith, has_single-collapse s, has_single-after (collapse s))

has_single-lstrip : (s : Text) → has_single false s ≡ true → has_single true (lstrip s) ≡ true
unfolding has_single lstrip
has_single-lstrip [] h = refl
has_single-lstrip (c ∷ s) h = ground (arith, has_single-before (c == b'_') s, has_single-lstrip s)

is_slug-rstrip :
    (after : Bool) (s : Text)
    → has_single after s ≡ true
    → (is_nil (rstrip s) || is_slug after (rstrip s)) ≡ true
unfolding has_single rstrip is_slug
is_slug-rstrip after [] h = refl
is_slug-rstrip after (c ∷ s) h = ground (arith, is_slug-rstrip (c == b'_') s)

is_slug-has_single : (after : Bool) (s : Text) → is_slug after s ≡ true → has_single after s ≡ true
unfolding has_single is_slug
is_slug-has_single after [] h = refl
is_slug-has_single after (c ∷ s) h = ground (arith, is_slug-has_single (c == b'_') s)

-- The last steps make a slug of any text of word characters.
is_slug-or_unknown :
    (s : Text) → (is_nil s || is_slug true s) ≡ true → is_slug true (or_unknown s) ≡ true
unfolding is_slug
is_slug-or_unknown [] h = refl
is_slug-or_unknown (c ∷ s) h = h

-- Each step leaves a slug as it is.
lower-word : (after : Bool) (s : Text) → is_slug after s ≡ true → lower s ≡ s
unfolding is_slug lower
lower-word after [] h = refl
lower-word after (c ∷ s) h = ground (arith, lower-word (c == b'_') s)

keep-word : (after : Bool) (s : Text) → is_slug after s ≡ true → without_apostrophes s ≡ s
unfolding is_slug keep
keep-word after [] h = refl
keep-word after (c ∷ s) h = ground (arith, keep-word (c == b'_') s)

replace_hyphens-word : (after : Bool) (s : Text) → is_slug after s ≡ true → replace_hyphens s ≡ s
unfolding is_slug replace_hyphens
replace_hyphens-word after [] h = refl
replace_hyphens-word after (c ∷ s) h = ground (arith, replace_hyphens-word (c == b'_') s)

replace_others-word : (after : Bool) (s : Text) → is_slug after s ≡ true → replace_others s ≡ s
unfolding is_slug replace_others
replace_others-word after [] h = refl
replace_others-word after (c ∷ s) h = ground (arith, replace_others-word (c == b'_') s)

not_begins : (s : Text) → is_slug true s ≡ true → begins_with_underscore s ≡ false
unfolding is_slug
not_begins [] h = refl
not_begins (c ∷ s) h = ground arith

collapse-slug : (after : Bool) (s : Text) → is_slug after s ≡ true → collapse s ≡ s
unfolding is_slug collapse
collapse-slug after [] h = refl
collapse-slug after (c ∷ s) h = ground (arith, collapse-slug (c == b'_') s, not_begins s)

lstrip-slug : (s : Text) → is_slug true s ≡ true → lstrip s ≡ s
unfolding is_slug lstrip
lstrip-slug [] h = refl
lstrip-slug (c ∷ s) h = ground arith

rstrip-slug : (after : Bool) (s : Text) → is_slug after s ≡ true → rstrip s ≡ s
unfolding is_slug rstrip
rstrip-slug after [] h = refl
rstrip-slug after (c ∷ []) h = ground arith
rstrip-slug after (c ∷ d ∷ s) h = ground (arith, rstrip-slug (c == b'_') (d ∷ s))

sanitize-slug : (s : Text) → is_slug true s ≡ true → sanitize_entity_id s ≡ s
unfolding sanitize_entity_id is_slug
sanitize-slug [] h = cc
sanitize-slug (c ∷ s) h = rw (
  lower-word true (c ∷ s) h,
  keep-word true (c ∷ s) h,
  replace_hyphens-word true (c ∷ s) h,
  replace_others-word true (c ∷ s) h,
  collapse-slug true (c ∷ s) h,
  lstrip-slug (c ∷ s) h,
  rstrip-slug true (c ∷ s) h,
)

-- Whatever a text that is not empty holds, its sanitized form is an object id: not empty, made of
-- `a` to `z`, digits and underscores, with no underscore at its ends and no two in a row. A text
-- that is one already, and no other, stays as it is, so sanitizing twice is sanitizing once.
pub sanitize_entity_id_lem :
    (s : Text)
    → s ≢ []
    → (is_slug true (sanitize_entity_id s) ≡ true)
      × (sanitize_entity_id (sanitize_entity_id s) ≡ sanitize_entity_id s)
      × (is_slug true s ≡ true ↔ sanitize_entity_id s ≡ s)
unfolding sanitize_entity_id
sanitize_entity_id_lem [] n = absurd (n refl)
sanitize_entity_id_lem (c ∷ s) n =
    let w = replace_others (replace_hyphens (without_apostrophes (lower (c ∷ s)))) in
    let h : is_slug true (sanitize_entity_id (c ∷ s)) ≡ true = is_slug-or_unknown _ (
      is_slug-rstrip true _ (has_single-lstrip _ (has_single-collapse w (all-replace_others _)))) in
    (h, sanitize-slug _ h, (sanitize-slug (c ∷ s), λ same. ap (is_slug true) (sym same) ∙ h))
