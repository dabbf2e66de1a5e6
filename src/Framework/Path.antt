-- ===== src/Framework/Path.antt =====
-- framework/router.go: patterns, request paths, and the match of one against the other.
pub mod Splitting
pub mod Matching
pub mod Filling
mod Tests
use quicframe.Prelude.{
  ℕ, Bool, true, false, List, [], ◌∷◌, ◌++◌, Option, none, some, if◌then◌else◌, ◌==◌,
}
use quicframe.Prelude.Text.{Text, codes, text_eq, trim, split, join}
use quicframe.Prelude.Dict

-- `segment`: its kind with its value.
pub data Segment : Type 0 where
  static : Text → Segment
  param : Text → Segment
  wildcard : Text → Segment

abbrev split_trimmed : Text → List Text
split_trimmed [] = []
split_trimmed (a ∷ s) = split b'/' (a ∷ s)

unfoldable pub split_path : Text → List Text
split_path path = split_trimmed (trim b'/' path)

abbrev wildcard_name : Text → Text
wildcard_name [] = codes "wildcard"
wildcard_name (a ∷ s) = a ∷ s

-- One round of the loop of `parsePattern`; `HasPrefix(p, ":")` and `p[1:]` look at the first byte.
unfoldable pub parse_segment : Text → Segment
parse_segment [] = static []
parse_segment (a ∷ s) =
    if a == b':' then param s else if a == b'*' then wildcard (wildcard_name s) else static (a ∷ s)

abbrev parse_segments : List Text → List Segment
parse_segments [] = []
parse_segments (p ∷ ps) = parse_segment p ∷ parse_segments ps

unfoldable pub parse_pattern : Text → List Segment
parse_pattern pattern = parse_segments (split_path pattern)

-- The loop of `matchSegments`; the indices are the rests of the two lists.
unfoldable pub match_from :
    List Segment → List Text → List (Text × Text) → Option (List (Text × Text))
match_from (static value ∷ rs) (a ∷ rest) params =
    if text_eq value a then match_from rs rest params else none
match_from (param name ∷ rs) (a ∷ rest) params = match_from rs rest (Dict.insert name a params)
match_from (wildcard name ∷ rs) (a ∷ rest) params =
    some (Dict.insert name (join b'/' (a ∷ rest)) params)
match_from [] [] params = some params
match_from _ _ params = none

unfoldable pub match_segments : List Segment → List Text → Option (List (Text × Text))
unfolding match_from
match_segments route_segs actual_segs = match_from route_segs actual_segs []
