-- ===== src/Examples/Titles.antt =====
-- Calls of the title score.
use imperecta.Base.{String, ◌≡◌, refl, List, [], ◌∷◌, keep, sorted}
use imperecta.Matching.Chars.{all_chars}
use imperecta.Matching.Titles.{
  normalize_title_tokens, title_similarity, raw_tokens, glue, distinct, is_number_token, strip_left,
  strip_right, any_char, unit_attr, number_prefix, number_rest, attrs_conflict, conflicts_with,
  any_conflict, shared, unshared, jaccard, no_score,
}
use imperecta.Matching.Titles.Score.{title_similarity_comm}

abbrev kettle : List String
kettle = "1.7l" ∷ "kettle" ∷ []

abbrev red_kettle : List String
red_kettle = "1.7l" ∷ "kettle" ∷ "red" ∷ []

abbrev small_kettle : List String
small_kettle = "1l" ∷ "kettle" ∷ []

-- a full stop is stripped, a number is glued to its unit, a stop word goes
tokens_test : normalize_title_tokens ("the" ∷ "kettle." ∷ "1.7" ∷ "l" ∷ "kettle" ∷ []) ≡ kettle
unfolding normalize_title_tokens raw_tokens glue distinct is_number_token strip_left strip_right
    any_char all_chars keep sorted
tokens_test = refl

score_test : title_similarity kettle red_kettle ≡ record { numerator = 2; denominator = 3 }
unfolding title_similarity any_conflict conflicts_with unit_attr number_prefix number_rest any_char
    attrs_conflict shared unshared jaccard distinct
score_test = refl

-- two values of one unit
conflict_test : title_similarity small_kettle red_kettle ≡ no_score
unfolding title_similarity any_conflict conflicts_with unit_attr number_prefix number_rest any_char
    attrs_conflict
conflict_test = refl

title_similarity_comm_example :
    title_similarity red_kettle kettle ≡ title_similarity kettle red_kettle
title_similarity_comm_example = title_similarity_comm red_kettle kettle
