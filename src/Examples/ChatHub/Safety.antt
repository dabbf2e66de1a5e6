-- ===== src/Examples/ChatHub/Safety.antt =====
-- Publishers that are not overtaken.
use quicframe.Prelude.{
  some_injective, ℕ, ◌≤◌, ◌≡◌, refl, List, [], ◌∷◌, All, All-append, All-imp, Option, none, some,
  ap, sym, ◌∙◌, subst, arith,
}
use quicframe.Prelude.Text.{Text}
use quicframe.Prelude.Dict
use quicframe.Framework.App.Serving.{take_at}
use quicframe.Framework.App.Serving.Shutdown.{take_at-All}
use quicframe.Examples.ChatHub.{ChatEvent, Channel, unsubscribe, subscribe, publish_locked, receive}
use quicframe.Examples.ChatHub.Channels.{open_at, open_at_le, send-open, receive-open}
use quicframe.Examples.ChatHub.Runs.{
  System, Step, subscribing, unsubscribing, publishing, sending, receiving, at_rest, with_hub,
  with_channels, send_next, and_steps, step, run,
}
use quicframe.Examples.ChatHub.Counting.{
  IsCounted, AreOpen, subscribe-IsCounted, publish_locked-IsCounted, publish_locked-AreOpen,
  subscribe-open, publish_locked-open, unsubscribe_in-IsCounted,
}

abbrev pub Pends : List Channel → ChatEvent × List ℕ → Type 0
Pends cs p = AreOpen cs p.1

-- And the channels that a publisher still has to send to are open.
pub record IsSafe (s : System) : Type 0 where
  pub counted : IsCounted s.hub
  pub pending : All (Pends s.hub.channels) s.publishers

-- A publisher has nothing left to send.
abbrev pub IsDone : ChatEvent × List ℕ → Type 0
IsDone p = p.1 ≡ []

-- Channels stay open.
AreOpen-later :
    (cs cs' : List Channel) (chs : List ℕ)
    → ((n : ℕ) → open_at n cs ≤ open_at n cs')
    → AreOpen cs chs
    → AreOpen cs' chs
AreOpen-later cs cs' chs later open_chs =
    All-imp (λ ch. open_at ch cs ≡ 1) (λ ch. open_at ch cs' ≡ 1) chs
      (λ ch e. omega (arith, later ch, open_at_le ch cs', e)) open_chs

Pending-later :
    (cs cs' : List Channel) (ps : List (ChatEvent × List ℕ))
    → ((n : ℕ) → open_at n cs ≤ open_at n cs')
    → All (Pends cs) ps
    → All (Pends cs') ps
Pending-later cs cs' ps later open_chs =
    All-imp (Pends cs) (Pends cs') ps (λ p h. AreOpen-later cs cs' p.1 later h) open_chs

-- One send of a publisher.
send_next-IsSafe :
    (o : Option ((ChatEvent × List ℕ) × List (ChatEvent × List ℕ))) (s : System)
    → IsSafe s
    → ((p : ChatEvent × List ℕ) (others : List (ChatEvent × List ℕ))
        → o ≡ some (p, others)
        → Pends s.hub.channels p × All (Pends s.hub.channels) others)
    → (t : System) × (send_next o s ≡ some t) × IsSafe t
send_next-IsSafe none s safe h = (s, refl, safe)
send_next-IsSafe (some ((event, []), others)) s safe h = (
  record s { publishers = others },
  refl,
  record { counted = safe.counted; pending = (h (event, []) others refl).1 },
)
send_next-IsSafe (some ((event, ch ∷ chs), others)) s safe h =
    let ((is_open, more), rest) = h (event, ch ∷ chs) others refl in
    let (cs, sent, same) = send-open event ch s.hub.channels is_open in
    let after = record s { publishers = (event, chs) ∷ others } in
    (
      record after { hub = record s.hub { channels = cs } },
      ap (with_channels after) sent,
      record {
        counted = λ n. omega (arith, safe.counted n, same n);
        pending = (
          AreOpen-later s.hub.channels cs chs (λ n. omega (arith, same n)) more,
          Pending-later s.hub.channels cs others (λ n. omega (arith, same n)) rest,
        );
      },
    )

-- No publisher has a send left when one unsubscribes.
abbrev pub Guard : Step → System → Type 0
Guard (unsubscribing room id) s = All IsDone s.publishers
Guard _ s = Unit {0}

module _ (to_lower trim_space : Text → Text) where
  step-IsSafe :
      (e : Step) (s : System)
      → Guard e s
      → IsSafe s
      → (t : System) × (step to_lower trim_space e s ≡ some t) × IsSafe t
  unfolding unsubscribe
  step-IsSafe (subscribing now room) s calm safe = (
    record s { hub = subscribe to_lower trim_space now room s.hub },
    refl,
    record {
      counted = subscribe-IsCounted to_lower trim_space now room s.hub safe.counted;
      pending =
          Pending-later s.hub.channels (subscribe to_lower trim_space now room s.hub).channels
            s.publishers (subscribe-open to_lower trim_space now room s.hub) safe.pending;
    },
  )
  step-IsSafe (unsubscribing room id) s calm safe =
      let (hub, left, counted) =
        unsubscribe_in-IsCounted room id (Dict.lookup room s.hub.rooms) s.hub refl safe.counted in
      (
        record s { hub = hub },
        ap (with_hub s) left,
        record {
          counted = counted;
          pending =
              All-imp IsDone (Pends hub.channels) s.publishers
                (λ p none_left. subst (AreOpen hub.channels) (sym none_left) tt) calm;
        },
      )
  step-IsSafe (publishing room event) s calm safe =
      let published = publish_locked to_lower trim_space room event s.hub in
      (
        _,
        refl,
        record {
          counted = publish_locked-IsCounted to_lower trim_space room event s.hub safe.counted;
          pending =
              All-append (Pends published.1.channels) s.publishers _
                (Pending-later s.hub.channels published.1.channels s.publishers
                  (publish_locked-open to_lower trim_space room event s.hub) safe.pending)
                (publish_locked-AreOpen to_lower trim_space room event s.hub safe.counted, tt);
        },
      )
  step-IsSafe (sending n) s calm safe =
      send_next-IsSafe (take_at n s.publishers) s safe
        (λ p others e. take_at-All (Pends s.hub.channels) n s.publishers e safe.pending)
  step-IsSafe (receiving ch) s calm safe =
      let same = receive-open ch s.hub.channels in
      (
        _,
        refl,
        record {
          counted = λ n. omega (arith, safe.counted n, same n);
          pending =
              Pending-later s.hub.channels (receive ch s.hub.channels) s.publishers
                (λ n. omega (arith, same n)) safe.pending;
        },
      )

  -- Along the steps that are taken, no publisher has a send left when one unsubscribes.
  abbrev pub IsCalm : List Step → System → Type 0
  IsCalm [] s = Unit {0}
  IsCalm (e ∷ es) s =
      Guard e s × ((t : System) → step to_lower trim_space e s ≡ some t → IsCalm es t)

  pub IsCalm-cons :
      (e : Step) (es : List Step) (s u : System)
      → Guard e s
      → step to_lower trim_space e s ≡ some u
      → IsCalm es u
      → IsCalm (e ∷ es) s
  IsCalm-cons e es s u calm stepped later =
      (calm, λ t h. subst (IsCalm es) (some_injective (sym stepped ∙ h)) later)

  run-IsSafe_from :
      (es : List Step) (s : System)
      → IsCalm es s
      → IsSafe s
      → (t : System) × (run to_lower trim_space es s ≡ some t) × IsSafe t
  unfolding run
  run-IsSafe_from [] s calm safe = (s, refl, safe)
  run-IsSafe_from (e ∷ es) s (calm, later) safe =
      let (u, stepped, safe_u) = step-IsSafe e s calm safe in
      let (t, ran, safe_t) = run-IsSafe_from es u (later u stepped) safe_u in
      (t, ap (λ o. and_steps o (run to_lower trim_space es)) stepped ∙ ran, safe_t)

  -- Steps in which nobody unsubscribes between a publisher's lock and its last send never panic,
  -- from the empty hub, and leave a hub in which each channel has at most one subscription, and only
  -- while it is open, and in which all publishers' channels are open.
  pub run-IsSafe :
      (es : List Step)
      → IsCalm es at_rest
      → (t : System) × (run to_lower trim_space es at_rest ≡ some t) × IsSafe t
  run-IsSafe es calm =
      run-IsSafe_from es at_rest calm (record { counted = λ n. omega arith; pending = tt })
