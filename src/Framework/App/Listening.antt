-- ===== src/Framework/App/Listening.antt =====
-- framework/app.go: the listeners. `quic.ListenAddr` is a parameter, and what Accept returns is a list
-- of outcomes: a connection, or an error, with whether the context was cancelled by then.
use quicframe.Prelude.{
  ◌≡◌, ◌≢◌, refl, Bool, true, false, List, [], ◌∷◌, ◌++◌, Option, none, some, Result, ok, err,
  GoError, wrap, All, Bool-cases, inl, inr, ap, sym, ◌∙◌, append-nil, append_assoc, if◌then◌else◌,
}
use quicframe.Prelude.Text.{Text, codes, text_eq, is_empty, ne_of_text_eq}
use quicframe.Framework.App.{prepend, drop_all}

pub data Accepted (C : Type 0) : Type 0 where
  conn : C → Accepted C
  failed : GoError → Bool → Accepted C

-- The listener's connections, in order, and how ListenNative returns; `none` while it runs.
pub record Listening (C : Type 0) : Type 0 where
  pub handled : List C
  pub result : Option (Result (Unit {0}))

abbrev accept_failure : GoError → Bool → Result (Unit {0})
accept_failure e true = ok tt
accept_failure e false = err (wrap (codes "quicframe: accept: ") e)

-- The loop of ListenNative; each connection goes to `go a.HandleNativeConn(conn)`.
accept_loop : {C : Type 0} → List C → List (Accepted C) → Listening C
accept_loop seen [] = record { handled = seen; result = none }
accept_loop seen (conn c ∷ rest) = accept_loop (seen ++ c ∷ []) rest
accept_loop seen (failed e cancelled ∷ rest) = record {
  handled = seen;
  result = some (accept_failure e cancelled);
}

listen_result : {C : Type 0} → Result (List (Accepted C)) → Listening C
unfolding accept_loop
listen_result (err e) = record {
  handled = [];
  result = some (err (wrap (codes "quicframe: ListenNative: ") e));
}
listen_result (ok outcomes) = accept_loop [] outcomes

-- `ListenNative`: `listen` opens a listener at an address for the protocols.
unfoldable pub listen_native :
    {C : Type 0} → (Text → List Text → Result (List (Accepted C))) → Text → List Text → Listening C
unfolding listen_result
listen_native listen addr next_protos =
    listen_result (listen addr (prepend (codes "qf/1") next_protos))

-- A listener that returned, as it arrives on `errCh`.
pub data Listener : Type 0 where
  native : Listener
  web_transport : Listener

-- `ListenAddr`: the first result on the channel. `returns` is the order in which the listeners that
-- run return; the one for WebTransport runs only if it has an address. `none` while it waits.
unfoldable pub listen_addr : Text → List (Listener × Result (Unit {0})) → Option (Result (Unit {0}))
listen_addr wt_addr [] = none
listen_addr wt_addr ((native, r) ∷ rest) = some r
listen_addr wt_addr ((web_transport, r) ∷ rest) =
    let later = listen_addr wt_addr rest in if is_empty wt_addr then later else some r

-- `ListenWithPKI`
unfoldable pub listen_with_pki : Text → Text → Text → List Text → Result (Unit {0})
listen_with_pki native_addr wt_addr node_id hosts = ok tt

-- The connections before the first failure, and that failure.
pub data Ends {C : Type 0} : List (Accepted C) → List C → Option (GoError × Bool) → Type 0 where
  running : Ends [] [] none
  more :
      {c : C} {rest : List (Accepted C)} {cs : List C} {last : Option (GoError × Bool)}
      → Ends rest cs last
      → Ends (conn c ∷ rest) (c ∷ cs) last
  stopped :
      {e : GoError} {cancelled : Bool} {rest : List (Accepted C)}
      → Ends (failed e cancelled ∷ rest) [] (some (e, cancelled))

-- How the loop returns for that.
abbrev pub result_of : Option (GoError × Bool) → Option (Result (Unit {0}))
result_of none = none
result_of (some (e, cancelled)) = some (accept_failure e cancelled)

accept_loop-Ends :
    {C : Type 0} {outcomes : List (Accepted C)} {cs : List C} {last : Option (GoError × Bool)}
    → Ends outcomes cs last
    → (seen : List C)
    → accept_loop seen outcomes ≡ record { handled = seen ++ cs; result = result_of last }
unfolding accept_loop
accept_loop-Ends running seen =
    ap (λ l. record { handled = l; result = none }) (sym (append-nil seen))
accept_loop-Ends (more {c} {rest} {cs} {last} ends) seen =
    accept_loop-Ends ends (seen ++ c ∷ [])
    ∙ ap (λ l. record { handled = l; result = result_of last }) (append_assoc seen (c ∷ []) cs)
accept_loop-Ends (stopped {e} {cancelled}) seen =
    ap (λ l. record { handled = l; result = some (accept_failure e cancelled) })
      (sym (append-nil seen))

drop_all-Ne : (elem : Text) (ps : List Text) → All (λ p. p ≢ elem) (drop_all elem ps)
unfolding drop_all
drop_all-Ne elem [] = tt
drop_all-Ne elem (p ∷ ps) = elim (Bool-cases (text_eq p elem)) [
  | inl e ↦ rw e (drop_all-Ne elem ps)
  | inr e ↦ rw e (ne_of_text_eq e, drop_all-Ne elem ps)
]

-- ListenNative offers "qf/1" as the first protocol and only once, hands over every connection up to
-- the first failure of Accept, in order, and returns at that failure: nil when the context was
-- cancelled, and the wrapped error otherwise. The listener opens.
pub listen_native_lem :
    {C : Type 0} (listen : Text → List Text → Result (List (Accepted C))) (addr : Text)
    (next_protos : List Text) (outcomes : List (Accepted C)) (cs : List C)
    (last : Option (GoError × Bool))
    → listen addr (prepend (codes "qf/1") next_protos) ≡ ok outcomes
    → Ends outcomes cs last
    → (others : List Text) × (prepend (codes "qf/1") next_protos ≡ codes "qf/1" ∷ others)
      × All (λ p. p ≢ codes "qf/1") others
      × (listen_native listen addr next_protos ≡ record { handled = cs; result = result_of last })
unfolding listen_native listen_result prepend
listen_native_lem listen addr next_protos outcomes cs last opens ends = (
  drop_all (codes "qf/1") next_protos,
  refl,
  drop_all-Ne (codes "qf/1") next_protos,
  ap listen_result opens ∙ accept_loop-Ends ends [],
)
