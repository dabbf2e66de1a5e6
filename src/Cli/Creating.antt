-- ===== src/Cli/Creating.antt =====
-- What `quicframe new` does to the file system.
use quicframe.Prelude.{◌≡◌, refl, List, [], ◌∷◌, inl, inr, Result, ok, err, Bool-cases, All}
use quicframe.Prelude.Text.{Text, codes, is_empty, text_eq}
use quicframe.Cli.{
  Os, Stat, found, missing, unknown, Step, and_then, write_new_file, next_steps, create, run_new,
  main, create_steps, sanitize_module_name, run_steps, write_unless, is_one_of,
}

module _ {W : Type 0} (os : Os W) where
  -- From the first state to the second only directories were made, lines printed, and files written
  -- whose paths did not exist at that moment.
  pub data Grows (first : W) : W → Type 0 where
    stay : Grows first first
    make : {w : W} (path : Text) → Grows first w → Grows first (os.mkdir_all path w).0
    write :
        {w : W} (path content : Text)
        → os.stat path w ≡ missing
        → Grows first w
        → Grows first (os.write_file path content w).0
    say : {w : W} (line : Text) → Grows first w → Grows first (os.println line w)

  write_unless-Grows :
      {first w : W} (path content : Text) (s : Stat)
      → os.stat path w ≡ s
      → Grows first w
      → Grows first (write_unless os s path content w).0
  unfolding write_unless
  write_unless-Grows path content found e h = h
  write_unless-Grows path content missing e h = Grows.write path content e h
  write_unless-Grows path content (unknown why) e h = h

  abbrev IsCareful : Step os → Type 0
  IsCareful step = (first w : W) → Grows first w → Grows first (step w).0

  write_new_file-IsCareful : (path content : Text) → IsCareful (write_new_file os path content)
  unfolding write_new_file
  write_new_file-IsCareful path content first w h =
      write_unless-Grows path content (os.stat path w) refl h

  and_then-Grows :
      {first : W} (x : W × Result (Unit {0})) (next : Step os)
      → IsCareful next
      → Grows first x.0
      → Grows first (and_then os x next).0
  unfolding and_then
  and_then-Grows {first} (w, ok u) next careful h = careful first w h
  and_then-Grows (w, err e) next careful h = h

  run_steps-IsCareful :
      (steps : List (Step os)) → All IsCareful steps → IsCareful (run_steps os steps)
  unfolding run_steps
  run_steps-IsCareful [] all first w h = h
  run_steps-IsCareful (step ∷ steps) (careful, all) first w h =
      and_then-Grows (step w) (run_steps os steps) (run_steps-IsCareful steps all)
        (careful first w h)

  next_steps-IsCareful : (dest : Text) → IsCareful (next_steps os dest)
  unfolding next_steps
  next_steps-IsCareful dest first w h = say _ (say _ (say _ (say _ (say _ (say _ h)))))

  create-IsCareful : (dest name : Text) → IsCareful (create os dest name)
  unfolding create
  create-IsCareful dest name = run_steps-IsCareful (create_steps os dest name) (
    (λ first w h. make dest h),
    (
      write_new_file-IsCareful _ _,
      (
        write_new_file-IsCareful _ _,
        (
          (λ first w h. make _ h),
          (
            write_new_file-IsCareful _ _,
            (write_new_file-IsCareful _ _, (next_steps-IsCareful dest, tt)),
          ),
        ),
      ),
    ),
  )

  run_new-IsCareful : (lower : Text → Text) (args : List Text) → IsCareful (run_new os lower args)
  unfolding run_new
  run_new-IsCareful lower [] first w h = h
  run_new-IsCareful lower (arg ∷ []) first w h =
      let name = sanitize_module_name lower (os.base (os.clean arg)) in
      elim (Bool-cases (is_empty name)) [
        | inl e ↦ rw e h
        | inr e ↦ rw e (create-IsCareful (os.clean arg) name first w h)
      ]
  run_new-IsCareful lower (_ ∷ _ ∷ _) first w h = h

  -- Whatever the arguments are and whatever calls fail, the tool only makes directories, prints
  -- lines, and writes files whose paths do not exist at the moment of the write.
  pub main-Grows :
      (lower : Text → Text) (args : List Text) (w : W) → Grows w (main os lower args w).0
  unfolding main
  main-Grows lower [] w = say _ stay
  main-Grows lower (command ∷ args) w =
      elim (Bool-cases (is_one_of command (codes "help" ∷ codes "-h" ∷ codes "--help" ∷ []))) [
        | inl e ↦ rw e (say _ stay)
        | inr e ↦
            elim (Bool-cases
              (is_one_of command (codes "version" ∷ codes "-v" ∷ codes "--version" ∷ []))) [
                | inl f ↦ rw (e, f) (say _ stay)
                | inr f ↦ elim (Bool-cases (text_eq command (codes "new"))) [
                  | inl g ↦ rw (e, f, g) (run_new-IsCareful lower args w w stay)
                  | inr g ↦ rw (e, f, g) stay
                ]
              ]
      ]
