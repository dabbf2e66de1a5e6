-- ===== src/Pki/Rotation.antt =====
-- How long the identities live that are returned and that the watcher keeps.
use quicframe.Prelude.{
  ℕ, suc, ◌+◌, ◌*◌, ◌<◌, ◌≤◌, ◌≡◌, ◌≢◌, refl, Bool, true, false, List, Option, none, some, Result,
  ok, err, ok_injective, ap, sym, subst, ◌∙◌, ◌⊎◌, inl, inr, Bool-cases, if◌then◌else◌, arith,
}
use quicframe.Prelude.Text.{Text, Bytes}
use quicframe.Prelude.Effects.{Eff}
use quicframe.Certificates.{hour, X509, Crypto, Disk}
use quicframe.Certificates.Laws.{issued, IsSound, IsLawful}
use quicframe.Pki.{
  Identity, Manager, Generation, template, or_nil, lives_over_a_day, lives_under_a_day, holds_of,
  cert_file, key_file, load_identity, generate_identity, keep_if_fresh, stored, return_or,
  load_or_create_identity, rotate, watch_tick,
}
use quicframe.Pki.Storage.{generate_identity_inv, load_identity-generate_identity}

-- The identity has a certificate, which does not expire within the day after that time.
pub record LivesFrom {K : Type 0} (id : Identity K) (t : ℕ) : Type 0 where
  pub x : X509
  pub cert : id.cert ≡ some x
  pub lives : t + 24 * hour ≤ x.not_after

LivesFrom-weaken : {K : Type 0} {id : Identity K} {t : ℕ} → LivesFrom id (suc t) → LivesFrom id t
LivesFrom-weaken l = record { x = l.x; cert = l.cert; lives = omega (arith, l.lives) }

holds_of_inv :
    (p : X509 → Bool) (o : Option X509)
    → holds_of p o ≡ true
    → (x : X509) × (o ≡ some x) × (p x ≡ true)
holds_of_inv p none h = cc
holds_of_inv p (some x) h = (x, refl, h)

if_some_inv :
    {A : Type 0} (b : Bool) {a a' : A}
    → (if b then some a else none) ≡ some a'
    → (b ≡ true) × (a ≡ a')
if_some_inv true h = (refl, cc)
if_some_inv false h = cc

then_inv :
    {A : Type 0} (b : Bool) {o : Option A} {a : A} → (if b then o else none) ≡ some a → o ≡ some a
then_inv true h = h
then_inv false h = cc

module _ {K W : Type 0} (c : Crypto K) (d : Disk W) (m : Manager) (node_id : Text)
    (sound : IsSound c) (lawful : IsLawful d)
    (apart : key_file c d m node_id ≢ cert_file c d m node_id) where
  generated-LivesFrom :
      (g : Generation K) (hosts : List Text) (w w' : W) (id : Identity K) (now : ℕ)
      → now ≤ g.now
      → generate_identity c d m node_id g hosts w ≡ (w', ok id)
      → LivesFrom id (suc now)
  generated-LivesFrom g hosts w w' id now later h =
      let made = generate_identity_inv c d m node_id g hosts w w' id lawful apart h in
      let parsed =
        sound.parse-create (template made.serial g node_id hosts) made.priv made.cert_der
          made.created in
      record {
        x = issued (template made.serial g node_id hosts);
        cert = ap (λ i. i.cert) made.result ∙ ap or_nil parsed;
        lives = omega (arith, later);
      }

  return_or_inv :
      (o : Option (Identity K)) (next : Eff W (Identity K)) (w : W) {w' : W} {id : Identity K}
      → return_or c d m node_id o next w ≡ (w', ok id)
      → (o ≡ some id) ⊎ (next w ≡ (w', ok id))
  unfolding return_or
  return_or_inv (some old) next w h = inl (ap some (ok_injective (ap (λ x. x.1) h)))
  return_or_inv none next w h = inr h

  keep_if_fresh_inv :
      (now : ℕ) (r : Result (Identity K)) {id : Identity K}
      → keep_if_fresh c d m node_id now r ≡ some id
      → LivesFrom id (suc now)
  unfolding keep_if_fresh
  keep_if_fresh_inv now (err e) h = cc
  keep_if_fresh_inv now (ok id) h =
      let (fresh, same) = if_some_inv (holds_of (lives_over_a_day now) id.cert) h in
      let (x, has, over) = holds_of_inv (lives_over_a_day now) id.cert fresh in
      subst (λ i. LivesFrom i (suc now)) same
        (record { x = x; cert = has; lives = ground (arith, over) })

  stored_inv :
      (now : ℕ) (w : W) {id : Identity K}
      → stored c d m node_id now w ≡ some id
      → LivesFrom id (suc now)
  unfolding stored
  stored_inv now w h =
      let tests = then_inv (d.exists (cert_file c d m node_id) w) h in
      keep_if_fresh_inv now (load_identity c d m node_id w)
        (then_inv (d.exists (key_file c d m node_id) w) tests)

  -- Every identity that LoadOrCreateIdentity returns, loaded or new, has a certificate whose NotAfter
  -- lies more than a day ahead; its NotBefore is not looked at. The packages are sound, the disk is lawful, certificate and key
  -- are two files, and the clock does not go back between the test and the generation.
  pub load_or_create_identity-LivesFrom :
      (now : ℕ) (g : Generation K) (hosts : List Text) (w w' : W) (id : Identity K)
      → now ≤ g.now
      → load_or_create_identity c d m node_id now g hosts w ≡ (w', ok id)
      → LivesFrom id (suc now)
  unfolding load_or_create_identity return_or
  load_or_create_identity-LivesFrom now g hosts w w' id later h =
      elim (return_or_inv (stored c d m node_id now w) (generate_identity c d m node_id g hosts) w
        h) [ inl e ↦ stored_inv now w e | inr e ↦ generated-LivesFrom g hosts w w' id now later e ]

  -- What the watcher does between its start and a moment: `last` is the time of the last tick, and
  -- each tick comes at most `interval` after the one before. Each generation would succeed.
  module _ (interval : ℕ) where
    pub data Watched : ℕ → W → Type 0 where
      start :
          {last : ℕ} {w : W} (id : Identity K)
          → load_identity c d m node_id w ≡ ok id
          → LivesFrom id last
          → Watched last w
      tick :
          {last : ℕ} {w : W} (now : ℕ) (g : Generation K) (hosts : List Text) (w' : W)
          (id : Identity K) (key_der : Bytes)
          → last ≤ now
          → now ≤ last + interval
          → now ≤ g.now
          → generate_identity c d m node_id g hosts w ≡ (w', ok id)
          → c.marshal_key id.private_key ≡ ok key_der
          → Watched last w
          → Watched now (watch_tick c d m node_id now g hosts w)

    -- The identity on disk, with a day to live.
    pub record Kept (last : ℕ) (w : W) : Type 0 where
      pub id : Identity K
      pub loads : load_identity c d m node_id w ≡ ok id
      pub lives : LivesFrom id last

    rotate-Kept :
        (now : ℕ) (g : Generation K) (hosts : List Text) (w w' : W) (old id : Identity K)
        (key_der : Bytes)
        → now ≤ g.now
        → load_identity c d m node_id w ≡ ok old
        → (x : X509) × (old.cert ≡ some x)
        → generate_identity c d m node_id g hosts w ≡ (w', ok id)
        → c.marshal_key id.private_key ≡ ok key_der
        → Kept now (rotate c d m node_id now g hosts (ok old) w)
    unfolding rotate
    rotate-Kept now g hosts w w' old id key_der later loaded (x, cert) h marshalled =
        elim (Bool-cases (holds_of (lives_under_a_day now) old.cert)) [
          | inl short ↦
              rw (short, h)
                (record {
                  id = id;
                  loads =
                      load_identity-generate_identity c d m node_id g hosts w w' id key_der sound
                        lawful apart marshalled h;
                  lives = LivesFrom-weaken (generated-LivesFrom g hosts w w' id now later h);
                })
          | inr long ↦
              let enough : lives_under_a_day now x ≡ false =
                ap (holds_of (lives_under_a_day now)) (sym cert) ∙ long in
              rw long (record {
                id = old;
                loads = loaded;
                lives = record { x = x; cert = cert; lives = ground (arith, enough) };
              })
        ]

    Watched-Kept : {last : ℕ} {w : W} → Watched last w → Kept last w
    unfolding watch_tick
    Watched-Kept (start id loads lives) = record { id = id; loads = loads; lives = lives }
    Watched-Kept (tick {w = w} now g hosts w' id key_der _ _ later generates marshalled watched) =
        let kept = Watched-Kept watched in
        subst (λ r. Kept now (rotate c d m node_id now g hosts r w)) (sym kept.loads)
          (rotate-Kept now g hosts w w' kept.id id key_der later kept.loads
            (kept.lives.x, kept.lives.cert) generates marshalled)

    -- With an interval of less than a day between ticks, the identity on disk loads at every moment
    -- and its certificate has not expired: at any time from the last tick to the next. The identity
    -- had a day to live when the watcher started, each generation would succeed, and the clock does
    -- not go back between a tick's test and its generation. The packages are sound, the disk is
    -- lawful, and certificate and key are two files.
    pub Watched-unexpired :
        {last : ℕ} {w : W} (now : ℕ)
        → interval < 24 * hour
        → Watched last w
        → now ≤ last + interval
        → (id : Identity K) × (x : X509) × (load_identity c d m node_id w ≡ ok id)
          × (id.cert ≡ some x)
          × (now < x.not_after)
    Watched-unexpired now short watched soon =
        let kept = Watched-Kept watched in
        let lives = kept.lives in
        (kept.id, lives.x, kept.loads, lives.cert, omega (arith, lives.lives, soon, short))
