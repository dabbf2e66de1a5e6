-- ===== src/Cli/Tests.antt =====
-- The command line's theorems at concrete inputs.
use quicframe.Prelude.{List, [], ◌∷◌, Option, none, some, ok}
use quicframe.Prelude.Text.{Text, codes}
use quicframe.Prelude.Dict
use quicframe.Cli.{Os, Stat, found, missing, main}
use quicframe.Cli.Creating.{Grows, main-Grows}

-- A file system that is a table of contents, where nothing fails.
abbrev Files : Type 0
Files = List (Text × Text)

abbrev stat_of : Option Text → Stat
stat_of none = missing
stat_of (some content) = found

abbrev first_of : List Text → Text
first_of [] = []
first_of (t ∷ ts) = t

abbrev os : Os Files
os = record {
  stat = λ path w. stat_of (Dict.lookup path w);
  mkdir_all = λ path w. (w, ok tt);
  write_file = λ path content w. (Dict.insert path content w, ok tt);
  println = λ line w. w;
  clean = λ p. p;
  base = λ p. p;
  join = first_of;
  quote = λ p. p;
}

main-Grows_example : Grows os [] (main os (λ t. t) (codes "new" ∷ codes "app" ∷ []) []).0
main-Grows_example = main-Grows os (λ t. t) (codes "new" ∷ codes "app" ∷ []) []
