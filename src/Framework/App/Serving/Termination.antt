-- ===== src/Framework/App/Serving/Termination.antt =====
-- A server to which nothing new comes.
use quicframe.Prelude.{
  Bool, ◌⊎◌, inl, inr, true, false, Bool-cases, unless_false, ◌==◌, ◌∙◌, some_injective, unless_inv,
  ℕ, suc, ◌+◌, ◌*◌, ◌≡◌, refl, List, [], ◌∷◌, All, Option, none, some, length, ap, sym, subst,
  arith,
}
use quicframe.Protocol.Stream.{Stream}
use quicframe.Framework.Context.{Peer}
use quicframe.Framework.App.{App, Deps}
use quicframe.Framework.App.Serving.{
  Server, Event, accept, enter, upgrade, open_native, open_session, serve, block, end_native,
  end_session, idle, take_at, serve_stream, block_stream, move, step, run,
}
use quicframe.Framework.App.Serving.Shutdown.{
  take_at-length, and_run_inv, opened, run-Counted, run-idle-Counted,
}

-- No connection, session or stream arrives.
abbrev pub IsFinishing : Event → Type 0
IsFinishing accept = ⊥
IsFinishing upgrade = ⊥
IsFinishing (open_native peer stream) = ⊥
IsFinishing (open_session peer stream) = ⊥
IsFinishing _ = Unit {0}

-- What the goroutines that are not stuck have still to do.
abbrev pub pending : {H : Type 0} → Server H → ℕ
pending s = 2 * s.starting + s.native + s.sessions + length s.in_flight

module _ {H : Type 0} (deps : Deps) (app : App H) where
  serve_stream-pending :
      (o : Option ((Peer × Stream) × List (Peer × Stream))) (s s' : Server H)
      → serve_stream deps app o s ≡ some s'
      → ((x : Peer × Stream) (others : List (Peer × Stream))
          → o ≡ some (x, others)
          → length s.in_flight ≡ suc (length others))
      → suc (pending s') ≡ pending s
  unfolding serve_stream
  serve_stream-pending none s s' h shorter = cc
  serve_stream-pending (some ((peer, stream), others)) s s' h shorter =
      subst (λ (t : Server H). suc (pending t) ≡ pending s) (some_injective h)
        (omega (arith, shorter (peer, stream) others refl))

  block_stream-pending :
      (late : Bool) (o : Option ((Peer × Stream) × List (Peer × Stream))) (s s' : Server H)
      → block_stream deps app late o s ≡ some s'
      → ((x : Peer × Stream) (others : List (Peer × Stream))
          → o ≡ some (x, others)
          → length s.in_flight ≡ suc (length others))
      → suc (pending s') ≡ pending s
  unfolding block_stream
  block_stream-pending late none s s' h shorter = cc
  block_stream-pending late (some ((peer, stream), others)) s s' h shorter =
      subst (λ (t : Server H). suc (pending t) ≡ pending s) (some_injective h)
        (omega (arith, shorter (peer, stream) others refl))

  move-pending :
      (e : Event) (s s' : Server H)
      → move deps app e s ≡ some s'
      → IsFinishing e
      → suc (pending s') ≡ pending s
  unfolding move
  move-pending accept s s' h f = absurd f
  move-pending enter s s' h f = ground arith
  move-pending upgrade s s' h f = absurd f
  move-pending (open_native peer stream) s s' h f = absurd f
  move-pending (open_session peer stream) s s' h f = absurd f
  move-pending (serve n) s s' h f =
      serve_stream-pending (take_at n s.in_flight) s s' h (λ x others. take_at-length n s.in_flight)
  move-pending (block n late) s s' h f =
      block_stream-pending late (take_at n s.in_flight) s s' h
        (λ x others. take_at-length n s.in_flight)
  move-pending end_native s s' h f = ground arith
  move-pending end_session s s' h f = ground arith

  -- Some goroutine can make a step to its end.
  abbrev pub CanFinish : Server H → Type 0
  CanFinish s = (e : Event) × IsFinishing e × ((t : Server H) × (step deps app e s ≡ some t))

  serve-CanFinish :
      (q : List (Peer × Stream)) (s : Server H)
      → s.crashed ≡ false
      → s.in_flight ≡ q
      → (length q ≡ 0) ⊎ CanFinish s
  unfolding step move serve_stream take_at
  serve-CanFinish [] s alive e = inl refl
  serve-CanFinish (x ∷ q) s alive e = inr (
    serve 0,
    tt,
    (_, unless_false s.crashed alive ∙ ap (λ q'. serve_stream deps app (take_at 0 q') s) e),
  )

  -- A server that has not crashed and has work to do can do some of it.
  pending-CanFinish : (s : Server H) → s.crashed ≡ false → (pending s ≡ 0) ⊎ CanFinish s
  unfolding step move
  pending-CanFinish s alive = elim (Bool-cases (s.starting == 0)) [
    | inr starts ↦
        inr (enter, tt, (_, unless_false s.crashed alive ∙ unless_false (s.starting == 0) starts))
    | inl no_start ↦ elim (Bool-cases (s.native == 0)) [
      | inr natives ↦
          inr (
            end_native,
            tt,
            (_, unless_false s.crashed alive ∙ unless_false (s.native == 0) natives),
          )
      | inl no_native ↦ elim (Bool-cases (s.sessions == 0)) [
        | inr sessions ↦ inr (
          end_session,
          tt,
          (_, unless_false s.crashed alive ∙ unless_false (s.sessions == 0) sessions),
        )
        | inl no_session ↦ elim (serve-CanFinish s.in_flight s alive refl) [
          | inr can ↦ inr can
          | inl empty ↦ inl (ground arith)
        ]
      ]
    ]
  ]

  run-shorter :
      (es : List Event) (s s' : Server H)
      → All IsFinishing es
      → run deps app es s ≡ some s'
      → length es + pending s' ≡ pending s
  unfolding run step
  run-shorter [] s s' f h = omega (arith, ap pending (sym (some_injective h)))
  run-shorter (e ∷ es) s s' (f, fs) h =
      let (t, stepped, rest) = and_run_inv (step deps app e s) (run deps app es) h in
      omega
        (arith, run-shorter es t s' fs rest, move-pending e s t (unless_inv s.crashed stepped) f)

  -- When no connection, session or stream arrives any more, a server has only so many events left,
  -- in whatever order they come: each finishes one piece of the work that is pending, or leaves a
  -- goroutine stuck for ever. Where such a run has led, from any state of a run that starts at rest,
  -- the server has crashed; or nothing is pending, and the wait group counts the stuck goroutines
  -- alone, so that Shutdown returns exactly if there are none; or a goroutine can take its next event.
  pub run-pending :
      (before es : List Event) (host : H) (s s' : Server H)
      → All IsFinishing es
      → run deps app before (idle host) ≡ some s
      → run deps app es s ≡ some s'
      → (length es + pending s' ≡ pending s)
        × ((s'.crashed ≡ true) ⊎ (((pending s' ≡ 0) × (s'.wg ≡ length s'.stuck)) ⊎ CanFinish s'))
  run-pending before es host s s' f came h =
      let counted =
        run-Counted deps app (opened before) es s s' h
          (run-idle-Counted deps app before host s came) in
      (
        run-shorter es s s' f h,
        elim (Bool-cases s'.crashed) [
          | inl crashed ↦ inl crashed
          | inr alive ↦ inr (at_rest (pending-CanFinish s' alive) counted.wg)
        ],
      )
    where
      at_rest :
          (pending s' ≡ 0) ⊎ CanFinish s'
          → s'.wg ≡ s'.native + s'.sessions + length s'.in_flight + length s'.stuck
          → ((pending s' ≡ 0) × (s'.wg ≡ length s'.stuck)) ⊎ CanFinish s'
      at_rest (inl nothing) counts = inl (nothing, omega (arith, nothing, counts))
      at_rest (inr can) counts = inr can
