-- ===== src/Framework/Path/Splitting.antt =====
-- What the segments of a path are.
use quicframe.Prelude.{◌≡◌, refl, [], ◌∷◌, ◌++◌, All, ap}
use quicframe.Prelude.Text.{Text, trim, join}
use quicframe.Prelude.Text.Splitting.{Lacks, join-split, split-Lacks, trim_first, trim_last}
use quicframe.Framework.Path.{split_path, split_trimmed}

split_trimmed-join : (s : Text) → join b'/' (split_trimmed s) ≡ s
split_trimmed-join [] = unfold join in refl
split_trimmed-join (a ∷ s) = join-split b'/' (a ∷ s)

split_trimmed-Lacks : (s : Text) → All (Lacks b'/') (split_trimmed s)
split_trimmed-Lacks [] = tt
split_trimmed-Lacks (a ∷ s) = split-Lacks b'/' (a ∷ s)

-- The segments of a path hold no slash, joined by slashes they are the path without the slashes at
-- its ends, and a slash more in front of the path or behind it makes no difference.
pub split_path_lem :
    (path : Text)
    → All (Lacks b'/') (split_path path)
      × (join b'/' (split_path path) ≡ trim b'/' path)
      × (split_path (b'/' ∷ path) ≡ split_path path)
      × (split_path (path ++ b'/' ∷ []) ≡ split_path path)
unfolding split_path
split_path_lem path = (
  split_trimmed-Lacks (trim b'/' path),
  split_trimmed-join (trim b'/' path),
  ap split_trimmed (trim_first b'/' path),
  ap split_trimmed (trim_last b'/' path),
)
