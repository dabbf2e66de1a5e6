-- ===== src/Framework/Path/Tests.antt =====
-- Runs of the pattern matcher, and its theorems at concrete inputs.
use quicframe.Prelude.{◌≡◌, refl, ◌↔◌, List, [], ◌∷◌, none, some}
use quicframe.Prelude.Text.{
  Text, codes, text_eq, ne_of_text_eq, trim, trim_left, trim_right, split, join,
}
use quicframe.Prelude.Dict
use quicframe.Framework.Path.{
  Segment, static, param, wildcard, split_path, parse_pattern, parse_segment, match_segments,
}
use quicframe.Framework.Path.Matching.{Matches, match_segments_iff}
use quicframe.Framework.Path.Filling.{fill, fill-match_segments}

paths : Unit {0}
unfolding split_path trim trim_left trim_right split join parse_pattern parse_segment match_segments
    Dict.insert text_eq codes
paths = tt

split_test : split_path (codes "/a//b/") ≡ codes "a" ∷ [] ∷ codes "b" ∷ []
unfolding paths
split_test = refl

parse_test :
    parse_pattern (codes "/f/:id/*")
    ≡ static (codes "f") ∷ param (codes "id") ∷ wildcard (codes "wildcard") ∷ []
unfolding paths
parse_test = refl

abbrev files : List Segment
files = static (b'f' ∷ []) ∷ param (b'i' ∷ []) ∷ wildcard (b'p' ∷ []) ∷ []

abbrev asked : Text
asked = b'/' ∷ b'f' ∷ b'/' ∷ b'7' ∷ b'/' ∷ b'x' ∷ b'/' ∷ b'y' ∷ []

abbrev found : List (Text × Text)
found = (b'i' ∷ [], b'7' ∷ []) ∷ (b'p' ∷ [], b'x' ∷ b'/' ∷ b'y' ∷ []) ∷ []

match_test :
    (match_segments files (split_path asked) ≡ some found)
    × (match_segments files (split_path (codes "/f/7")) ≡ none)
    × (match_segments files (split_path (codes "/g/7/x")) ≡ none)
unfolding paths
match_test = (refl, refl, refl)

match_segments_iff_example :
    (match_segments files (split_path asked) ≡ some found)
    ↔ ((bs : List (Text × Text)) × Matches files (split_path asked) bs × (found ≡ Dict.merge [] bs))
match_segments_iff_example = match_segments_iff files (split_path asked) found

fill-match_segments_example : fill files found ≡ split_path asked
unfolding paths
fill-match_segments_example =
    fill-match_segments files asked found (ne_of_text_eq {a = b'p' ∷ []} {b = b'i' ∷ []} refl, tt)
      match_test.0
