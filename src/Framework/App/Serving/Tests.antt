-- ===== src/Framework/App/Serving/Tests.antt =====
-- Runs of a small server.
use quicframe.Prelude.{◌⊎◌, ℕ, ◌≡◌, refl, true, false, List, [], ◌∷◌, some, length}
use quicframe.Prelude.{wrap, ◌+◌}
use quicframe.Prelude.Text.{codes}
use quicframe.Protocol.Stream.{eof, read_full}
use quicframe.Protocol.Codec.{read_frame}
use quicframe.Framework.App.{Served, done, read_failed, dispatch_stream}
use quicframe.Framework.App.Serving.{
  Server, Event, accept, enter, upgrade, open_native, open_session, serve, block, end_native,
  end_session, take_at, idle, serve_stream, block_stream, move, step, run, shutdown_returns,
}
use quicframe.Framework.App.Serving.Shutdown.{opened, shutdown_returns-answered}
use quicframe.Framework.App.Serving.Draining.{shutdown_returns_early}
use quicframe.Framework.App.Serving.Termination.{CanFinish, pending, run-pending}
use quicframe.Samples.{receiving}
use quicframe.Samples.Apps.{deps, peer, hello, serving}

-- A connection with one stream and a session with another; the later one is served first.
abbrev events : List Event
events =
    accept
    ∷ upgrade
    ∷ enter
    ∷ open_native peer (receiving [])
    ∷ open_session peer (receiving [])
    ∷ serve 1
    ∷ end_native
    ∷ serve 0
    ∷ end_session
    ∷ []

-- What becomes of a stream that the peer closed without a request.
abbrev unread : Served ℕ
unread =
    done (receiving []) 0 (read_failed (wrap (codes "quicframe/protocol: read header: ") eof) ∷ [])

abbrev rested : Server ℕ
rested = record (idle 0) { answered = unread ∷ unread ∷ [] }

shutdown_returns-answered_example :
    (rested.native ≡ 0)
    × (rested.sessions ≡ 0)
    × (rested.in_flight ≡ [])
    × (rested.stuck ≡ [])
    × (length rested.answered ≡ opened events)
unfolding run step move take_at serve_stream dispatch_stream read_frame read_full codes
shutdown_returns-answered_example =
    shutdown_returns-answered deps (serving hello) events 0 rested refl refl

shutdown_returns_early_example :
    (s s' : Server ℕ) × (run deps (serving hello) (accept ∷ []) (idle 0) ≡ some s)
    × (shutdown_returns s ≡ true)
    × (run deps (serving hello) (enter ∷ open_native peer (receiving []) ∷ serve 0 ∷ []) s
        ≡ some s')
    × (s'.answered ≡ dispatch_stream deps (serving hello) peer (receiving []) 0 ∷ [])
shutdown_returns_early_example = shutdown_returns_early deps (serving hello) peer (receiving []) 0

-- An accepted connection, a session, and two streams of it; one of them gets stuck.
abbrev first_events : List Event
first_events =
    accept ∷ upgrade ∷ open_session peer (receiving []) ∷ open_session peer (receiving []) ∷ []

abbrev busy : Server ℕ
busy = record (idle 0) {
  starting = 1;
  sessions = 1;
  in_flight = (peer, receiving []) ∷ (peer, receiving []) ∷ [];
  wg = 3;
}

abbrev last_events : List Event
last_events = enter ∷ block 1 false ∷ serve 0 ∷ end_session ∷ end_native ∷ []

abbrev at_end : Server ℕ
at_end = record (idle 0) { stuck = (peer, receiving []) ∷ []; answered = unread ∷ []; wg = 1 }

run-pending_example :
    (length last_events + pending at_end ≡ pending busy)
    × ((at_end.crashed ≡ true)
        ⊎ (((pending at_end ≡ 0) × (at_end.wg ≡ length at_end.stuck))
            ⊎ CanFinish deps (serving hello) at_end))
unfolding run step move take_at serve_stream block_stream dispatch_stream read_frame read_full codes
run-pending_example =
    run-pending deps (serving hello) first_events last_events 0 busy at_end
      (tt, (tt, (tt, (tt, (tt, tt))))) refl refl
