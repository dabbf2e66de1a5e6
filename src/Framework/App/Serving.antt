-- ===== src/Framework/App/Serving.antt =====
-- framework/app.go: the goroutines of a running server and their wait group. The listeners, the
-- sessions and the streams come from quic-go and webtransport-go; what these report is an event. An
-- interleaving of the goroutines is a list of events.
pub mod Shutdown
pub mod Draining
pub mod Termination
pub mod Hosts
mod Tests
use quicframe.Prelude.{
  ℕ, zero, suc, ◌+◌, ◌-◌, Bool, true, false, List, [], ◌∷◌, ◌++◌, Option, none, some, length,
  if◌then◌else◌, ◌==◌,
}
use quicframe.Prelude.Text.{Text}
use quicframe.Protocol.Stream.{Stream}
use quicframe.Framework.Context.{Peer}
use quicframe.Framework.App.{App, Deps, Served, dispatch_stream}

-- `starting` counts the goroutines of HandleNativeConn that have not reached `wg.Add(1)`, `native`
-- and `sessions` those in their accept loops, `in_flight` holds the streams with a goroutine of
-- their own, `stuck` those whose goroutine waits for ever, and `answered` what became of those that
-- are done. A panic in any of them ends the process: `crashed`.
pub record Server (H : Type 0) : Type 0 where
  pub starting : ℕ
  pub native : ℕ
  pub sessions : ℕ
  pub in_flight : List (Peer × Stream)
  pub stuck : List (Peer × Stream)
  pub answered : List (Served H)
  pub host : H
  pub wg : ℕ
  pub crashed : Bool

pub data Event : Type 0 where
  -- ListenNative: Accept returned, `go a.HandleNativeConn(conn)`.
  accept : Event
  -- HandleNativeConn: the goroutine gets to its first line.
  enter : Event
  -- The handler of /wt: Upgrade returned, `a.wg.Add(1)`, `go ...`.
  upgrade : Event
  -- AcceptStream returned in a loop of HandleNativeConn, and of handleWebTransportSession.
  open_native : Peer → Stream → Event
  open_session : Peer → Stream → Event
  -- The goroutine of a stream runs to its end, its deferred calls included.
  serve : ℕ → Event
  -- It waits for ever: for the rest of the request, or later, in the handler or in a write to a peer
  -- that reads no more, with the application's state as the handler leaves it.
  block : ℕ → Bool → Event
  -- AcceptStream failed in one of the loops, and the deferred calls ran.
  end_native : Event
  end_session : Event

keep_front {ℓ} : {A : Type ℓ} → A → Option (A × List A) → Option (A × List A)
keep_front x none = none
keep_front x (some (y, ys)) = some (y, x ∷ ys)

-- The item at a place, and the others.
unfoldable pub take_at {ℓ} : {A : Type ℓ} → ℕ → List A → Option (A × List A)
unfolding keep_front
take_at n [] = none
take_at zero (x ∷ xs) = some (x, xs)
take_at (suc n) (x ∷ xs) = keep_front x (take_at n xs)

abbrev is_panic : Option Text → Bool
is_panic none = false
is_panic (some m) = true

abbrev pub idle : {H : Type 0} → H → Server H
idle host = record {
  starting = 0;
  native = 0;
  sessions = 0;
  in_flight = [];
  stuck = [];
  answered = [];
  host = host;
  wg = 0;
  crashed = false;
}

-- `Shutdown` returns in this state.
abbrev pub shutdown_returns : {H : Type 0} → Server H → Bool
shutdown_returns s = s.wg == 0

abbrev pub and_run :
    {H : Type 0} → Option (Server H) → (Server H → Option (Server H)) → Option (Server H)
and_run none f = none
and_run (some s) f = f s

module _ {H : Type 0} (deps : Deps) (app : App H) where
  -- The goroutine of a stream, to its end.
  abbrev pub finish_stream : Served H → List (Peer × Stream) → Server H → Server H
  finish_stream x others s = record s {
    in_flight = others;
    answered = s.answered ++ x ∷ [];
    host = x.host;
    wg = s.wg - 1;
    crashed = is_panic x.crash;
  }

  serve_stream : Option ((Peer × Stream) × List (Peer × Stream)) → Server H → Option (Server H)
  serve_stream none s = none
  serve_stream (some ((peer, stream), others)) s =
      some (finish_stream (dispatch_stream deps app peer stream s.host) others s)

  abbrev pub host_when : Bool → H → Served H → H
  host_when late host x = if late then x.host else host

  -- The goroutine of a stream, to where it waits; the deferred calls do not run.
  block_stream :
      Bool → Option ((Peer × Stream) × List (Peer × Stream)) → Server H → Option (Server H)
  block_stream late none s = none
  block_stream late (some ((peer, stream), others)) s = some (record s {
    in_flight = others;
    stuck = s.stuck ++ (peer, stream) ∷ [];
    host = host_when late s.host (dispatch_stream deps app peer stream s.host);
  })

  -- What the event makes of the server; `none` if it cannot occur there.
  pub move : Event → Server H → Option (Server H)
  unfolding serve_stream block_stream
  move accept s = some (record s { starting = s.starting + 1 })
  move enter s =
      if s.starting == 0
      then none
      else some (record s { starting = s.starting - 1; native = s.native + 1; wg = s.wg + 1 })
  move upgrade s = some (record s { sessions = s.sessions + 1; wg = s.wg + 1 })
  move (open_native peer stream) s =
      if s.native == 0
      then none
      else some (record s { in_flight = s.in_flight ++ (peer, stream) ∷ []; wg = s.wg + 1 })
  move (open_session peer stream) s =
      if s.sessions == 0
      then none
      else some (record s { in_flight = s.in_flight ++ (peer, stream) ∷ []; wg = s.wg + 1 })
  move (serve n) s = serve_stream (take_at n s.in_flight) s
  move (block n late) s = block_stream late (take_at n s.in_flight) s
  move end_native s =
      if s.native == 0 then none else some (record s { native = s.native - 1; wg = s.wg - 1 })
  move end_session s =
      if s.sessions == 0 then none else some (record s { sessions = s.sessions - 1; wg = s.wg - 1 })

  pub step : Event → Server H → Option (Server H)
  unfolding move
  step e s = if s.crashed then none else move e s

  unfoldable pub run : List Event → Server H → Option (Server H)
  unfolding step
  run [] s = some s
  run (e ∷ es) s = and_run (step e s) (run es)
