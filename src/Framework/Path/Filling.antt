-- ===== src/Framework/Path/Filling.antt =====
-- The parameters of a match determine the path.
use quicframe.Prelude.{
  ◌≡◌, ◌≢◌, refl, List, [], ◌∷◌, Option, none, some, All, ap, ap₂, sym, ◌∙◌, subst,
}
use quicframe.Prelude.Text.{Text, split}
use quicframe.Prelude.Text.Splitting.{Lacks, split-join}
use quicframe.Prelude.Dict
use quicframe.Framework.Path.{Segment, static, param, wildcard, match_segments, split_path}
use quicframe.Framework.Path.Splitting.{split_path_lem}
use quicframe.Framework.Path.Matching.{Matches, end, literal, bind, tail, match_segments_iff}

-- The segments that a pattern stands for under given parameters.
abbrev value_of : Option Text → Text
value_of none = []
value_of (some v) = v

abbrev pub fill : List Segment → List (Text × Text) → List Text
fill [] params = []
fill (static value ∷ rs) params = value ∷ fill rs params
fill (param name ∷ rs) params = value_of (Dict.lookup name params) ∷ fill rs params
fill (wildcard name ∷ rs) params = split b'/' (value_of (Dict.lookup name params))

-- The names of a pattern, up to a wildcard.
abbrev Unused : Text → List Segment → Type 0
Unused name [] = Unit
Unused name (static value ∷ rs) = Unused name rs
Unused name (param other ∷ rs) = (other ≢ name) × Unused name rs
Unused name (wildcard other ∷ rs) = other ≢ name

abbrev pub HasDistinctNames : List Segment → Type 0
HasDistinctNames [] = Unit
HasDistinctNames (static value ∷ rs) = HasDistinctNames rs
HasDistinctNames (param name ∷ rs) = Unused name rs × HasDistinctNames rs
HasDistinctNames (wildcard name ∷ rs) = Unit

Matches-Misses :
    {segs : List Segment} {parts : List Text} {bs : List (Text × Text)} (name : Text)
    → Matches segs parts bs
    → Unused name segs
    → Dict.Misses name bs
Matches-Misses name end h = tt
Matches-Misses name (literal e m) h = Matches-Misses name m h
Matches-Misses name (bind m) (ne, h) = (ne, Matches-Misses name m h)
Matches-Misses name tail ne = (ne, tt)

Matches-HasDistinctKeys :
    {segs : List Segment} {parts : List Text} {bs : List (Text × Text)}
    → Matches segs parts bs
    → HasDistinctNames segs
    → Dict.HasDistinctKeys bs
Matches-HasDistinctKeys end h = tt
Matches-HasDistinctKeys (literal e m) h = Matches-HasDistinctKeys m h
Matches-HasDistinctKeys (bind {name} m) (unused, h) =
    (Matches-Misses name m unused, Matches-HasDistinctKeys m h)
Matches-HasDistinctKeys tail h = (tt, tt)

fill_of_Matches :
    {segs : List Segment} {parts : List Text} {bs : List (Text × Text)}
    (params : List (Text × Text))
    → Matches segs parts bs
    → All (Lacks b'/') parts
    → Dict.Holds params bs
    → fill segs params ≡ parts
fill_of_Matches params end all h = refl
fill_of_Matches params (literal e m) (_, all) h =
    ap₂ (λ a r. a ∷ r) e (fill_of_Matches params m all h)
fill_of_Matches params (bind m) (_, all) (found, h) =
    ap₂ (λ a r. a ∷ r) (ap value_of found) (fill_of_Matches params m all h)
fill_of_Matches params (tail {a} {rest}) all (found, _) =
    ap (λ o. split b'/' (value_of o)) found ∙ split-join b'/' a rest all

-- When a pattern with distinct names matches the segments of a path, putting the parameters back
-- in the place of the names, with the wildcard's value split at its slashes, gives those segments.
pub fill-match_segments :
    (segs : List Segment) (path : Text) (params : List (Text × Text))
    → HasDistinctNames segs
    → match_segments segs (split_path path) ≡ some params
    → fill segs params ≡ split_path path
fill-match_segments segs path params distinct h =
    let (bs, m, same) = (match_segments_iff segs (split_path path) params).0 h in
    fill_of_Matches params m (split_path_lem path).0 (
      subst (λ p. Dict.Holds p bs) (sym same)
        (Dict.merge-Holds [] bs (Matches-HasDistinctKeys m distinct)))
