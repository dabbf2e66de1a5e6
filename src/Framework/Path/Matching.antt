-- ===== src/Framework/Path/Matching.antt =====
-- When a pattern matches, as a relation, and that `matchSegments` decides it.
use quicframe.Prelude.{
  ◌≡◌, refl, ◌↔◌, List, [], ◌∷◌, none, some, Bool-cases, inl, inr, ap, sym, ◌∙◌,
}
use quicframe.Prelude.Text.{Text, text_eq, text_eq_iff, join}
use quicframe.Prelude.Dict
use quicframe.Framework.Path.{Segment, static, param, wildcard, match_from, match_segments}

-- A pattern matches the segments of a path, with the values of its names in order. A wildcard
-- takes all that is left, at least one segment, and what the pattern has behind it is not read.
pub data Matches : List Segment → List Text → List (Text × Text) → Type 0 where
  end : Matches [] [] []
  literal :
      {value a : Text} {rs : List Segment} {rest : List Text} {bs : List (Text × Text)}
      → value ≡ a
      → Matches rs rest bs
      → Matches (static value ∷ rs) (a ∷ rest) bs
  bind :
      {name a : Text} {rs : List Segment} {rest : List Text} {bs : List (Text × Text)}
      → Matches rs rest bs
      → Matches (param name ∷ rs) (a ∷ rest) ((name, a) ∷ bs)
  tail :
      {name a : Text} {rs : List Segment} {rest : List Text}
      → Matches (wildcard name ∷ rs) (a ∷ rest) ((name, join b'/' (a ∷ rest)) ∷ [])

match_from_sound :
    (segs : List Segment) (actual : List Text) (params found : List (Text × Text))
    → match_from segs actual params ≡ some found
    → (bs : List (Text × Text)) × Matches segs actual bs × (found ≡ Dict.merge params bs)
unfolding match_from Dict.merge
match_from_sound (static value ∷ rs) (a ∷ rest) params found h =
    elim (Bool-cases (text_eq value a)) [
      | inl e ↦
          let (bs, m, same) = match_from_sound rs rest params found (rw e at h) in
          (bs, literal ((text_eq_iff value a).0 e) m, same)
      | inr e ↦ let bad : none ≡ some found = rw e at h in cc
    ]
match_from_sound (param name ∷ rs) (a ∷ rest) params found h =
    let (bs, m, same) = match_from_sound rs rest (Dict.insert name a params) found h in
    ((name, a) ∷ bs, bind m, same)
match_from_sound (wildcard name ∷ rs) (a ∷ rest) params found h =
    ((name, join b'/' (a ∷ rest)) ∷ [], tail, cc)
match_from_sound [] [] params found h = ([], end, cc)
match_from_sound [] (a ∷ rest) params found h = cc
match_from_sound (static value ∷ rs) [] params found h = cc
match_from_sound (param name ∷ rs) [] params found h = cc
match_from_sound (wildcard name ∷ rs) [] params found h = cc

match_from_complete :
    {segs : List Segment} {actual : List Text} {bs : List (Text × Text)}
    (params : List (Text × Text))
    → Matches segs actual bs
    → match_from segs actual params ≡ some (Dict.merge params bs)
unfolding match_from Dict.merge
match_from_complete params end = refl
match_from_complete params (literal {value} {a} e m) =
    rw ((text_eq_iff value a).1 e) (match_from_complete params m)
match_from_complete params (bind {name} {a} m) = match_from_complete (Dict.insert name a params) m
match_from_complete params tail = refl

-- `matchSegments` answers with parameters exactly when the pattern matches: each literal is equal
-- to its segment, a name takes one segment and a wildcard all that are left, at least one. The
-- map then holds the values of the names, a later one of the same name in the place of an earlier.
pub match_segments_iff :
    (segs : List Segment) (actual : List Text) (params : List (Text × Text))
    → (match_segments segs actual ≡ some params)
      ↔ ((bs : List (Text × Text)) × Matches segs actual bs × (params ≡ Dict.merge [] bs))
unfolding match_segments
match_segments_iff segs actual params = (
  match_from_sound segs actual [] params,
  λ (bs, m, same). match_from_complete [] m ∙ ap some (sym same),
)
