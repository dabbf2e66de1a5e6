-- ===== src/Cli.antt =====
-- internal/cli/cli.go. The operating system is a parameter: its state is of any type, and each
-- call takes and returns it. Standard output is a part of that state.
-- The path separator is Unix's.
pub mod Naming
pub mod Creating
pub mod Starter
mod Tests
use quicframe.Prelude.{
  ℕ, Bool, true, false, List, [], ◌∷◌, ◌++◌, ◌&&◌, ◌||◌, Result, ok, err, GoError, new, leb, ◌==◌,
  if◌then◌else◌,
}
use quicframe.Prelude.Text.{Text, codes, text_eq, is_empty, trim}
use quicframe.Cli.Starter.{
  lines, starter_go_mod, starter_main_go, starter_git_ignore, starter_readme,
}

abbrev pub version : Text
version = codes "dev"

-- What os.Stat says of a path: it is there, os.ErrNotExist, or another error.
pub data Stat : Type 0 where
  found : Stat
  missing : Stat
  unknown : GoError → Stat

-- The calls of os, fmt and filepath; `quote` is the verb %q.
pub record Os (W : Type 0) : Type 0 where
  pub stat : Text → W → Stat
  pub mkdir_all : Text → W → W × Result (Unit {0})
  pub write_file : Text → Text → W → W × Result (Unit {0})
  pub println : Text → W → W
  pub clean : Text → Text
  pub base : Text → Text
  pub join : List Text → Text
  pub quote : Text → Text

-- A letter from a to z or a digit.
abbrev pub is_word : ℕ → Bool
is_word r = (leb b'a' r && leb r b'z') || (leb b'0' r && leb r b'9')

-- What has been built, and whether a dash was the last to be added.
abbrev pub Building : Type 0
Building = Text × Bool

-- One rune of the loop of `sanitizeModuleName`. Runes that are not ASCII are left out, and so are
-- their bytes.
unfoldable pub sanitize_step : Building → ℕ → Building
sanitize_step (b, prev_dash) r =
    if is_word r
    then (b ++ r ∷ [], false)
    else if r == b'-' || r == b'_'
    then (if prev_dash || is_empty b then (b, prev_dash) else (b ++ b'-' ∷ [], true))
    else (b, prev_dash)

unfoldable pub sanitize_loop : Building → Text → Building
sanitize_loop x [] = x
sanitize_loop x (r ∷ rs) = sanitize_loop (sanitize_step x r) rs

sanitize_lowered : Text → Text
sanitize_lowered name =
    if text_eq name (codes ".") || text_eq name (codes "/")
    then []
    else trim b'-' (sanitize_loop ([], false) name).0

-- `lower` is `strings.ToLower(strings.TrimSpace(name))`.
unfoldable pub sanitize_module_name : (Text → Text) → Text → Text
unfolding sanitize_lowered
sanitize_module_name lower name = sanitize_lowered (lower name)

abbrev pub is_one_of : Text → List Text → Bool
is_one_of s [] = false
is_one_of s (t ∷ ts) = text_eq s t || is_one_of s ts

abbrev pub help : Text
help =
    lines (
      codes "QuicFrame CLI"
      ∷ []
      ∷ codes "Usage:"
      ∷ codes "  quicframe <command>"
      ∷ []
      ∷ codes "Commands:"
      ∷ codes "  new <dir>   Create a starter QuicFrame app"
      ∷ codes "  version     Print CLI version"
      ∷ codes "  help        Show this help"
      ∷ []
      ∷ codes "Install:"
      ∷ [])
    ++ codes "  go install github.com/msmecodex/quicframe@latest"

module _ {W : Type 0} (os : Os W) where
  abbrev pub Step : Type 0
  Step = W → W × Result (Unit {0})

  -- `if err := ...; err != nil { return err }`, and what follows.
  and_then : W × Result (Unit {0}) → Step → W × Result (Unit {0})
  and_then (w, ok u) next = next w
  and_then (w, err e) next = (w, err e)

  -- A sequence of such steps.
  run_steps : List Step → Step
  run_steps [] w = (w, ok tt)
  run_steps (step ∷ steps) w = and_then (step w) (run_steps steps)

  write_unless : Stat → Text → Text → Step
  write_unless found path content w = (w, err (new (path ++ codes " already exists")))
  write_unless missing path content w = os.write_file path content w
  write_unless (unknown e) path content w = (w, err e)

  unfoldable pub write_new_file : Text → Text → Step
  unfolding write_unless
  write_new_file path content w = write_unless (os.stat path w) path content w

  next_steps : Text → Step
  next_steps dest w =
      let w = os.println (codes "Created QuicFrame app in " ++ dest) w in
      let w = os.println [] w in
      let w = os.println (codes "Next steps:") w in
      let w = os.println (codes "  cd " ++ dest) w in
      let w = os.println (codes "  go mod tidy") w in (os.println (codes "  go run .") w, ok tt)

  -- The part of `runNew` that changes the file system.
  abbrev create_steps : Text → Text → List Step
  create_steps dest module_name =
      os.mkdir_all dest
      ∷ write_new_file (os.join (dest ∷ codes "go.mod" ∷ [])) (starter_go_mod module_name)
      ∷ write_new_file (os.join (dest ∷ codes "main.go" ∷ [])) starter_main_go
      ∷ os.mkdir_all (os.join (dest ∷ codes ".local" ∷ codes "certs" ∷ []))
      ∷ write_new_file (os.join (dest ∷ codes ".gitignore" ∷ [])) starter_git_ignore
      ∷ write_new_file (os.join (dest ∷ codes "README.md" ∷ [])) (starter_readme module_name)
      ∷ next_steps dest
      ∷ []

  pub create : Text → Text → Step
  unfolding and_then run_steps next_steps write_new_file
  create dest module_name = run_steps (create_steps dest module_name)

  pub run_new : (Text → Text) → List Text → Step
  unfolding create
  run_new lower [] w = (w, err (new (codes "missing destination directory: quicframe new <dir>")))
  run_new lower (arg ∷ []) w =
      let module_name = sanitize_module_name lower (os.base (os.clean arg)) in
      if is_empty module_name
      then (w, err (new (codes "could not derive a module name from " ++ os.quote arg)))
      else create (os.clean arg) module_name w
  run_new lower (_ ∷ _ ∷ _) w = (w, err (new (codes "too many arguments: quicframe new <dir>")))

  pub main : (Text → Text) → List Text → Step
  unfolding run_new
  main lower [] w = (os.println help w, ok tt)
  main lower (command ∷ args) w =
      if is_one_of command (codes "help" ∷ codes "-h" ∷ codes "--help" ∷ [])
      then (os.println help w, ok tt)
      else if is_one_of command (codes "version" ∷ codes "-v" ∷ codes "--version" ∷ [])
      then (os.println version w, ok tt)
      else if text_eq command (codes "new")
      then run_new lower args w
      else (w, err (new (codes "unknown command " ++ os.quote command)))
