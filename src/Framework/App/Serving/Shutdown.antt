-- ===== src/Framework/App/Serving/Shutdown.antt =====
-- What the wait group counts, and what Shutdown waits for.
use quicframe.Prelude.{
  Bool, All, some_injective, unless_inv, ℕ, zero, suc, ◌+◌, ◌≡◌, refl, true, List, [], ◌∷◌, Option,
  none, some, length, length-append, ==_iff, ap, sym, ◌∙◌, subst, arith,
}
use quicframe.Protocol.Stream.{Stream}
use quicframe.Framework.Context.{Peer}
use quicframe.Framework.App.{App, Deps, dispatch_stream}
use quicframe.Framework.App.Serving.{
  Server, Event, accept, enter, upgrade, open_native, open_session, serve, block, end_native,
  end_session, keep_front, take_at, idle, serve_stream, block_stream, move, step, and_run, run,
  shutdown_returns,
}

-- The streams that an event opens.
abbrev pub opens : Event → ℕ
opens (open_native peer stream) = 1
opens (open_session peer stream) = 1
opens _ = 0

abbrev pub opened : List Event → ℕ
opened [] = 0
opened (e ∷ es) = opens e + opened es

-- The wait group counts the loops and the streams in flight or stuck, and every stream that was
-- opened, `n` of them, is in flight, stuck or answered.
pub record Counted {H : Type 0} (n : ℕ) (s : Server H) : Type 0 where
  pub wg : s.wg ≡ s.native + s.sessions + length s.in_flight + length s.stuck
  pub streams : n ≡ length s.answered + length s.in_flight + length s.stuck

length_zero : {A : Type 0} (xs : List A) → length xs ≡ 0 → xs ≡ []
length_zero [] h = refl
length_zero (x ∷ xs) h = absurd (omega (arith, h))

pub and_run_inv :
    {H : Type 0} (o : Option (Server H)) (f : Server H → Option (Server H)) {s' : Server H}
    → and_run o f ≡ some s'
    → (s : Server H) × (o ≡ some s) × (f s ≡ some s')
and_run_inv none f h = cc
and_run_inv (some s) f h = (s, refl, h)

keep_front_inv :
    {A : Type 0} (x : A) (o : Option (A × List A)) {y : A} {ys : List A}
    → keep_front x o ≡ some (y, ys)
    → (zs : List A) × (o ≡ some (y, zs)) × (ys ≡ x ∷ zs)
unfolding keep_front
keep_front_inv x none h = cc
keep_front_inv x (some (z, zs)) h = (zs, cc, cc)

pub take_at-length :
    {A : Type 0} (n : ℕ) (xs : List A) {y : A} {ys : List A}
    → take_at n xs ≡ some (y, ys)
    → length xs ≡ suc (length ys)
unfolding take_at
take_at-length n [] h = cc
take_at-length zero (x ∷ xs) h = let same : xs ≡ _ = cc in ap (λ l. suc (length l)) same
take_at-length (suc n) (x ∷ xs) h =
    let (zs, e, same) = keep_front_inv x (take_at n xs) h in
    ap suc (take_at-length n xs e) ∙ ap (λ l. suc (length l)) (sym same)

pub take_at-All :
    {A : Type 0} (P : A → Type 0) (n : ℕ) (xs : List A) {y : A} {ys : List A}
    → take_at n xs ≡ some (y, ys)
    → All P xs
    → P y × All P ys
unfolding take_at
take_at-All P n [] h all = cc
take_at-All P zero (x ∷ xs) {y} {ys} h (p, all) =
    let e = some_injective h in (subst P (ap (λ z. z.0) e) p, subst (All P) (ap (λ z. z.1) e) all)
take_at-All P (suc n) (x ∷ xs) {y} {ys} h (p, all) =
    let (zs, e, same) = keep_front_inv x (take_at n xs) h in
    let (found, others) = take_at-All P n xs e all in (found, subst (All P) (sym same) (p, others))

module _ {H : Type 0} (deps : Deps) (app : App H) where
  serve_stream-Counted :
      (n : ℕ) (o : Option ((Peer × Stream) × List (Peer × Stream))) (s s' : Server H)
      → serve_stream deps app o s ≡ some s'
      → ((x : Peer × Stream) (others : List (Peer × Stream))
          → o ≡ some (x, others)
          → length s.in_flight ≡ suc (length others))
      → Counted n s
      → Counted n s'
  unfolding serve_stream
  serve_stream-Counted n none s s' h shorter c = cc
  serve_stream-Counted n (some ((peer, stream), others)) s s' h shorter c =
      let x = dispatch_stream deps app peer stream s.host in
      let one_less = shorter (peer, stream) others refl in
      subst (Counted n) (some_injective h) (record {
        wg = omega (arith, c.wg, one_less);
        streams = omega (arith, c.streams, one_less, length-append s.answered (x ∷ []));
      })

  block_stream-Counted :
      (n : ℕ) (late : Bool) (o : Option ((Peer × Stream) × List (Peer × Stream))) (s s' : Server H)
      → block_stream deps app late o s ≡ some s'
      → ((x : Peer × Stream) (others : List (Peer × Stream))
          → o ≡ some (x, others)
          → length s.in_flight ≡ suc (length others))
      → Counted n s
      → Counted n s'
  unfolding block_stream
  block_stream-Counted n late none s s' h shorter c = cc
  block_stream-Counted n late (some ((peer, stream), others)) s s' h shorter c =
      let one_less = shorter (peer, stream) others refl in
      let one_more = length-append s.stuck ((peer, stream) ∷ []) in
      subst (Counted n) (some_injective h) (record {
        wg = omega (arith, c.wg, one_less, one_more);
        streams = omega (arith, c.streams, one_less, one_more);
      })

  move-Counted :
      (n : ℕ) (e : Event) (s s' : Server H)
      → move deps app e s ≡ some s'
      → Counted n s
      → Counted (n + opens e) s'
  unfolding move
  move-Counted n accept s s' h c = ground arith
  move-Counted n enter s s' h c = ground arith
  move-Counted n upgrade s s' h c = ground arith
  move-Counted n (open_native peer stream) s s' h c =
      ground (arith, length-append s.in_flight ((peer, stream) ∷ []))
  move-Counted n (open_session peer stream) s s' h c =
      ground (arith, length-append s.in_flight ((peer, stream) ∷ []))
  move-Counted n (serve i) s s' h c =
      subst (λ k. Counted k s') (omega arith)
        (serve_stream-Counted n (take_at i s.in_flight) s s' h
          (λ x others. take_at-length i s.in_flight) c)
  move-Counted n (block i late) s s' h c =
      subst (λ k. Counted k s') (omega arith)
        (block_stream-Counted n late (take_at i s.in_flight) s s' h
          (λ x others. take_at-length i s.in_flight) c)
  move-Counted n end_native s s' h c = ground arith
  move-Counted n end_session s s' h c = ground arith

  step-Counted :
      (n : ℕ) (e : Event) (s s' : Server H)
      → step deps app e s ≡ some s'
      → Counted n s
      → Counted (n + opens e) s'
  unfolding step
  step-Counted n e s s' h c = move-Counted n e s s' (unless_inv s.crashed h) c

  pub run-Counted :
      (n : ℕ) (es : List Event) (s s' : Server H)
      → run deps app es s ≡ some s'
      → Counted n s
      → Counted (n + opened es) s'
  unfolding run
  run-Counted n [] s s' h c =
      subst (Counted (n + 0)) (some_injective h)
        (record { wg = c.wg; streams = omega (arith, c.streams) })
  run-Counted n (e ∷ es) s s' h c =
      let (t, stepped, rest) = and_run_inv (step deps app e s) (run deps app es) h in
      subst (λ k. Counted k s') (omega arith)
        (run-Counted (n + opens e) es t s' rest (step-Counted n e s t stepped c))

  -- In every interleaving that starts at rest, the wait group counts the accept loops that are past
  -- their first line and the streams in flight or stuck, and each stream that was opened is in
  -- flight, stuck, or was dispatched to its end.
  pub run-idle-Counted :
      (es : List Event) (host : H) (s : Server H)
      → run deps app es (idle host) ≡ some s
      → Counted (opened es) s
  run-idle-Counted es host s h =
      subst (λ n. Counted n s) (omega arith)
        (run-Counted 0 es (idle host) s h (record { wg = refl; streams = refl }))

  -- Where Shutdown returns, in every interleaving that starts at rest, no stream is in flight or stuck, no accept loop past its first line is left, and
  -- every stream that was opened has been dispatched to its end.
  pub shutdown_returns-answered :
      (es : List Event) (host : H) (s : Server H)
      → run deps app es (idle host) ≡ some s
      → shutdown_returns s ≡ true
      → (s.native ≡ 0)
        × (s.sessions ≡ 0)
        × (s.in_flight ≡ [])
        × (s.stuck ≡ [])
        × (length s.answered ≡ opened es)
  shutdown_returns-answered es host s h returns =
      let c = run-idle-Counted es host s h in
      let none_left : s.wg ≡ 0 = (==_iff s.wg 0).0 returns in
      let empty : length s.in_flight ≡ 0 = omega (arith, c.wg, none_left) in
      let none_stuck : length s.stuck ≡ 0 = omega (arith, c.wg, none_left) in
      (
        omega (arith, c.wg, none_left),
        omega (arith, c.wg, none_left),
        length_zero s.in_flight empty,
        length_zero s.stuck none_stuck,
        omega (arith, c.streams, empty, none_stuck),
      )
