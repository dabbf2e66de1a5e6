-- ===== src/Framework/App/Serving/Draining.antt =====
-- Runs that end: all goroutines can finish, and one that Shutdown does not wait for.
use quicframe.Prelude.{
  Bool, some_injective, ℕ, zero, suc, ◌+◌, ◌-◌, ◌≡◌, refl, true, false, List, [], ◌∷◌, ◌++◌, Option,
  none, some, length, if◌then◌else◌, ◌==◌, ap, sym, ◌∙◌, subst, arith,
}
use quicframe.Protocol.Stream.{Stream}
use quicframe.Framework.Context.{Peer}
use quicframe.Framework.App.{App, Deps, dispatch_stream}
use quicframe.Framework.App.Serving.{
  Server, Event, accept, enter, upgrade, open_native, open_session, serve, block, end_native,
  end_session, take_at, idle, is_panic, finish_stream, serve_stream, block_stream, move, step,
  and_run, run, shutdown_returns,
}
use quicframe.Framework.App.Serving.Shutdown.{
  opens, opened, run-Counted, run-idle-Counted, and_run_inv,
}

-- The events by which what is there comes to its end: the streams first, then the loops.
abbrev repeat : ℕ → Event → List Event
repeat zero e = []
repeat (suc n) e = e ∷ repeat n e

opened-repeat : (n : ℕ) (e : Event) → opens e ≡ 0 → opened (repeat n e) ≡ 0
opened-repeat zero e h = refl
opened-repeat (suc n) e h = omega (arith, h, opened-repeat n e h)

opened-append : (es fs : List Event) → opened (es ++ fs) ≡ opened es + opened fs
opened-append [] fs = omega arith
opened-append (e ∷ es) fs = omega (arith, opened-append es fs)

and_run_assoc :
    {H : Type 0} (o : Option (Server H)) (f g h : Server H → Option (Server H))
    → ((t : Server H) → f t ≡ and_run (g t) h)
    → and_run o f ≡ and_run (and_run o g) h
and_run_assoc none f g h e = refl
and_run_assoc (some t) f g h e = e t

module _ {H : Type 0} (deps : Deps) (app : App H) where
  run-append :
      (es fs : List Event) (s : Server H)
      → run deps app (es ++ fs) s ≡ and_run (run deps app es s) (run deps app fs)
  unfolding run
  run-append [] fs s = refl
  run-append (e ∷ es) fs s =
      and_run_assoc (step deps app e s) (run deps app (es ++ fs)) (run deps app es)
        (run deps app fs) (λ t. run-append es fs t)

  step_up : (e : Event) (s : Server H) → s.crashed ≡ false → step deps app e s ≡ move deps app e s
  unfolding step
  step_up e s up = ap (λ b. if b then none else move deps app e s) up

  -- The server after the loops of one kind are done.
  module _ (s : Server H) (n : ℕ) (up : s.crashed ≡ false) where
    step_end_native :
        s.native ≡ suc n
        → step deps app end_native s ≡ some (record s { native = s.native - 1; wg = s.wg - 1 })
    unfolding move
    step_end_native left =
        let more : (s.native == 0) ≡ false = ground (arith, left) in
        step_up end_native s up
        ∙ ap (λ b. if b then none else some (record s { native = s.native - 1; wg = s.wg - 1 }))
            more

    step_end_session :
        s.sessions ≡ suc n
        → step deps app end_session s ≡ some (record s { sessions = s.sessions - 1; wg = s.wg - 1 })
    unfolding move
    step_end_session left =
        let more : (s.sessions == 0) ≡ false = ground (arith, left) in
        step_up end_session s up
        ∙ ap (λ b. if b then none else some (record s { sessions = s.sessions - 1; wg = s.wg - 1 }))
            more

  drain_native :
      (n : ℕ) (s : Server H)
      → s.native ≡ n
      → s.crashed ≡ false
      → (s' : Server H) × (run deps app (repeat n end_native) s ≡ some s')
        × (s'.native ≡ 0)
        × (s'.sessions ≡ s.sessions)
        × (s'.in_flight ≡ s.in_flight)
        × (s'.stuck ≡ s.stuck)
        × (s'.crashed ≡ false)
  unfolding run
  drain_native zero s left up = (s, refl, left, refl, refl, refl, up)
  drain_native (suc n) s left up =
      let (s', ran, done, same, flying, held, up') =
        drain_native n (record s { native = s.native - 1; wg = s.wg - 1 }) (omega (arith, left))
          up in
      (
        s',
        ap (λ o. and_run o (run deps app (repeat n end_native))) (step_end_native s n up left)
            ∙ ran,
        done,
        same,
        flying,
        held,
        up',
      )

  drain_sessions :
      (n : ℕ) (s : Server H)
      → s.sessions ≡ n
      → s.crashed ≡ false
      → (s' : Server H) × (run deps app (repeat n end_session) s ≡ some s')
        × (s'.sessions ≡ 0)
        × (s'.native ≡ s.native)
        × (s'.in_flight ≡ s.in_flight)
        × (s'.stuck ≡ s.stuck)
  unfolding run
  drain_sessions zero s left up = (s, refl, left, refl, refl, refl)
  drain_sessions (suc n) s left up =
      let (s', ran, done, same, flying, held) =
        drain_sessions n (record s { sessions = s.sessions - 1; wg = s.wg - 1 })
          (omega (arith, left)) up in
      (
        s',
        ap (λ o. and_run o (run deps app (repeat n end_session))) (step_end_session s n up left)
            ∙ ran,
        done,
        same,
        flying,
        held,
      )

  -- A panic that no middleware catches ends the process; here none does.
  module _
      (survives : (peer : Peer) (stream : Stream) (host : H)
        → (dispatch_stream deps app peer stream host).crash ≡ none) where
    -- What stays between the events of a drain.
    record Drained (s s' : Server H) : Type 0 where
      streams : s'.in_flight ≡ []
      native : s'.native ≡ s.native
      sessions : s'.sessions ≡ s.sessions
      stuck : s'.stuck ≡ s.stuck
      up : s'.crashed ≡ false

    step_serve :
        (peer : Peer) (stream : Stream) (others : List (Peer × Stream)) (s : Server H)
        → s.in_flight ≡ (peer, stream) ∷ others
        → s.crashed ≡ false
        → step deps app (serve 0) s
          ≡ some (finish_stream deps app (dispatch_stream deps app peer stream s.host) others s)
    unfolding move take_at serve_stream
    step_serve peer stream others s flying up =
        step_up (serve 0) s up ∙ ap (λ l. serve_stream deps app (take_at 0 l) s) flying

    drain_streams :
        (xs : List (Peer × Stream)) (s : Server H)
        → s.in_flight ≡ xs
        → s.crashed ≡ false
        → (s' : Server H) × (run deps app (repeat (length xs) (serve 0)) s ≡ some s') × Drained s s'
    unfolding run
    drain_streams [] s flying up = (
      s,
      refl,
      record { streams = flying; native = refl; sessions = refl; stuck = refl; up = up },
    )
    drain_streams ((peer, stream) ∷ xs) s flying up =
        let x = dispatch_stream deps app peer stream s.host in
        let t = finish_stream deps app x xs s in
        let (s', ran, d) = drain_streams xs t refl (ap is_panic (survives peer stream s.host)) in
        (
          s',
          ap (λ o. and_run o (run deps app (repeat (length xs) (serve 0))))
                (step_serve peer stream xs s flying up)
              ∙ ran,
          record {
            streams = d.streams;
            native = d.native;
            sessions = d.sessions;
            stuck = d.stuck;
            up = d.up;
          },
        )

    serve_stream_up :
        (o : Option ((Peer × Stream) × List (Peer × Stream))) (s s' : Server H)
        → serve_stream deps app o s ≡ some s'
        → s'.crashed ≡ false
    unfolding serve_stream
    serve_stream_up none s s' h = cc
    serve_stream_up (some ((peer, stream), others)) s s' h =
        subst (λ (t : Server H). t.crashed ≡ false) (some_injective h)
          (ap is_panic (survives peer stream s.host))

    block_stream_up :
        (late : Bool) (o : Option ((Peer × Stream) × List (Peer × Stream))) (s s' : Server H)
        → block_stream deps app late o s ≡ some s'
        → s.crashed ≡ false
        → s'.crashed ≡ false
    unfolding block_stream
    block_stream_up late none s s' h up = cc
    block_stream_up late (some ((peer, stream), others)) s s' h up =
        subst (λ (t : Server H). t.crashed ≡ false) (some_injective h) up

    move_up :
        (e : Event) (s s' : Server H)
        → move deps app e s ≡ some s'
        → s.crashed ≡ false
        → s'.crashed ≡ false
    unfolding move
    move_up (serve n) s s' h up = serve_stream_up (take_at n s.in_flight) s s' h
    move_up (block n late) s s' h up = block_stream_up late (take_at n s.in_flight) s s' h up
    move_up accept s s' h up = ground arith
    move_up enter s s' h up = ground arith
    move_up upgrade s s' h up = ground arith
    move_up (open_native peer stream) s s' h up = ground arith
    move_up (open_session peer stream) s s' h up = ground arith
    move_up end_native s s' h up = ground arith
    move_up end_session s s' h up = ground arith

    run_up :
        (es : List Event) (s s' : Server H)
        → run deps app es s ≡ some s'
        → s.crashed ≡ false
        → s'.crashed ≡ false
    unfolding run
    run_up [] s s' h up = subst (λ (t : Server H). t.crashed ≡ false) (some_injective h) up
    run_up (e ∷ es) s s' h up =
        let (t, stepped, rest) = and_run_inv (step deps app e s) (run deps app es) h in
        run_up es t s' rest (move_up e s t (sym (step_up e s up) ∙ stepped) up)

    -- In an app whose streams never crash, only the goroutines that are stuck keep Shutdown from
    -- returning: from every state of a run that starts at rest, with no further connection or stream,
    -- the others can finish one after the other until the wait group counts the stuck ones alone.
    pub run-drains :
        (es : List Event) (host : H) (s : Server H)
        → run deps app es (idle host) ≡ some s
        → (fs : List Event) × (s' : Server H) × (opened fs ≡ 0)
          × (run deps app fs s ≡ some s')
          × (s'.stuck ≡ s.stuck)
          × (s'.wg ≡ length s.stuck)
    run-drains es host s h =
        let (s1, ran1, d1) = drain_streams s.in_flight s refl (run_up es (idle host) s h refl) in
        let (s2, ran2, native, kept2, flying2, held2, up2) = drain_native s1.native s1 refl d1.up in
        let (s3, ran3, sessions, kept3, flying3, held3) = drain_sessions s2.sessions s2 refl up2 in
        let es1 = repeat (length s.in_flight) (serve 0) in
        let es2 = repeat s1.native end_native in
        let es3 = repeat s2.sessions end_session in
        let ran : run deps app (es1 ++ (es2 ++ es3)) s ≡ some s3 =
          run-append es1 (es2 ++ es3) s
          ∙ (ap (λ o. and_run o (run deps app (es2 ++ es3))) ran1
              ∙ (run-append es2 es3 s1 ∙ (ap (λ o. and_run o (run deps app es3)) ran2 ∙ ran3))) in
        let none_opened : opened (es1 ++ (es2 ++ es3)) ≡ 0 = omega (
          arith,
          opened-append es1 (es2 ++ es3),
          opened-append es2 es3,
          opened-repeat (length s.in_flight) (serve 0) refl,
          opened-repeat s1.native end_native refl,
          opened-repeat s2.sessions end_session refl,
        ) in
        let counted =
          run-Counted deps app (opened es) (es1 ++ (es2 ++ es3)) s s3 ran
            (run-idle-Counted deps app es host s h) in
        let empty : length s3.in_flight ≡ 0 = ap length (flying3 ∙ (flying2 ∙ d1.streams)) in
        let held : s3.stuck ≡ s.stuck = held3 ∙ (held2 ∙ d1.stuck) in
        let rest : s3.wg ≡ length s.stuck =
          omega (arith, counted.wg, empty, sessions, kept3, native, ap length held) in
        (es1 ++ (es2 ++ es3), s3, none_opened, ran, held, rest)

  -- A connection that was accepted is not waited for until its goroutine runs: with one whose
  -- goroutine has not begun, Shutdown returns at once, and after that a stream of the connection is
  -- still dispatched, for every stream and every peer.
  pub shutdown_returns_early :
      (peer : Peer) (stream : Stream) (host : H)
      → (s s' : Server H) × (run deps app (accept ∷ []) (idle host) ≡ some s)
        × (shutdown_returns s ≡ true)
        × (run deps app (enter ∷ open_native peer stream ∷ serve 0 ∷ []) s ≡ some s')
        × (s'.answered ≡ dispatch_stream deps app peer stream host ∷ [])
  unfolding run step move take_at serve_stream
  shutdown_returns_early peer stream host = (_, _, refl, refl, refl, refl)
