-- ===== src/Framework/App/Serving/Hosts.antt =====
-- A property of the application's own state that every handler keeps holds throughout a server's run.
use quicframe.Prelude.{
  Bool, true, false, some_injective, unless_inv, ◌≡◌, refl, List, [], ◌∷◌, Option, none, some, ◌==◌,
  sym, subst,
}
use quicframe.Protocol.Stream.{Stream}
use quicframe.Framework.Context.{Peer}
use quicframe.Framework.App.{App, Deps}
use quicframe.Framework.App.Hosts.{IsKept, dispatch_stream-keeps}
use quicframe.Framework.App.Serving.{
  Server, Event, accept, enter, upgrade, open_native, open_session, serve, block, end_native,
  end_session, take_at, serve_stream, block_stream, move, step, run,
}
use quicframe.Framework.App.Serving.Shutdown.{and_run_inv}

module _ {H : Type 0} (P : H → Type 0) (deps : Deps) (app : App H) (kept : IsKept P app) where
  serve_stream-keeps :
      (o : Option ((Peer × Stream) × List (Peer × Stream))) (s s' : Server H)
      → serve_stream deps app o s ≡ some s'
      → P s.host
      → P s'.host
  unfolding serve_stream
  serve_stream-keeps none s s' h p = cc
  serve_stream-keeps (some ((peer, stream), others)) s s' h p =
      subst (λ (t : Server H). P t.host) (some_injective h)
        (dispatch_stream-keeps P deps app kept peer stream s.host p)

  block_stream-keeps :
      (late : Bool) (o : Option ((Peer × Stream) × List (Peer × Stream))) (s s' : Server H)
      → block_stream deps app late o s ≡ some s'
      → P s.host
      → P s'.host
  unfolding block_stream
  block_stream-keeps late none s s' h p = cc
  block_stream-keeps true (some ((peer, stream), others)) s s' h p =
      subst (λ (t : Server H). P t.host) (some_injective h)
        (dispatch_stream-keeps P deps app kept peer stream s.host p)
  block_stream-keeps false (some ((peer, stream), others)) s s' h p =
      subst (λ (t : Server H). P t.host) (some_injective h) p

  -- The events that leave the application's state alone.
  same-keeps :
      (s : Server H) {t s' : Server H} → some t ≡ some s' → t.host ≡ s.host → P s.host → P s'.host
  same-keeps s h e p = subst (λ (u : Server H). P u.host) (some_injective h) (subst P (sym e) p)

  move-keeps : (e : Event) (s s' : Server H) → move deps app e s ≡ some s' → P s.host → P s'.host
  unfolding move
  move-keeps accept s s' h p = same-keeps s h refl p
  move-keeps enter s s' h p = same-keeps s (unless_inv (s.starting == 0) h) refl p
  move-keeps upgrade s s' h p = same-keeps s h refl p
  move-keeps (open_native peer stream) s s' h p = same-keeps s (unless_inv (s.native == 0) h) refl p
  move-keeps (open_session peer stream) s s' h p =
      same-keeps s (unless_inv (s.sessions == 0) h) refl p
  move-keeps (serve n) s s' h p = serve_stream-keeps (take_at n s.in_flight) s s' h p
  move-keeps (block n late) s s' h p = block_stream-keeps late (take_at n s.in_flight) s s' h p
  move-keeps end_native s s' h p = same-keeps s (unless_inv (s.native == 0) h) refl p
  move-keeps end_session s s' h p = same-keeps s (unless_inv (s.sessions == 0) h) refl p

  pub run-keeps :
      (es : List Event) (s s' : Server H) → run deps app es s ≡ some s' → P s.host → P s'.host
  unfolding run step
  run-keeps [] s s' h p = subst (λ (t : Server H). P t.host) (some_injective h) p
  run-keeps (e ∷ es) s s' h p =
      let (t, stepped, rest) = and_run_inv (step deps app e s) (run deps app es) h in
      run-keeps es t s' rest (move-keeps e s t (unless_inv s.crashed stepped) p)
