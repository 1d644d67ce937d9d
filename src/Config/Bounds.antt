-- ===== src/Config/Bounds.antt =====
-- What a loaded configuration guarantees to the parts that run with it.
use jungle_wager_engine.Base.{
  Bool, true, false, ◌≡◌, refl, sym, arith, int_laws, add64_lem, pos, ◌+ℤ◌, ◌≤ℤ◌, ◌<ℤ◌,
}
use jungle_wager_engine.Config.{
  Config, ConfigError, Loaded, loaded, refused, Surroundings, check_config, workers_are_bad,
  deadlines_are_bad, seconds, load, max_outbox_batch, ◌>>=◌, unless,
}

-- The bounds that the workers and the store rely on.
pub record IsRunnable (c : Config) : Type 0 where
  pub receives : (pos 1 ≤ℤ c.concurrency) × (c.concurrency ≤ℤ pos 10)
  pub claims : (pos 1 ≤ℤ c.publish_batch) × (c.publish_batch ≤ℤ pos max_outbox_batch)
  pub connects : (pos 2 ≤ℤ c.max_conns) × (c.max_conns ≤ℤ pos 50)
  pub tries : pos 1 ≤ℤ c.reference_max_attempts
  pub waits : (pos 0 <ℤ c.poll_interval) × (pos 0 <ℤ c.reference_ttl)
  -- A message is visible again, and a claim lost, only after its work has been cut off.
  pub works : (pos 0 <ℤ c.process_timeout) × (c.process_timeout <ℤ c.shutdown_timeout)
  pub hides : c.process_timeout +ℤ seconds 10 <ℤ c.visibility_timeout
  pub drains : c.shutdown_timeout <ℤ c.visibility_timeout
  pub leases : c.process_timeout +ℤ seconds 10 ≤ℤ c.lease
  pub in_hours : c.visibility_timeout ≤ℤ seconds 43200

bind-loaded :
    {A B : Type 0} {m : Loaded A} {f : A → Loaded B} {b : B}
    → (m >>= f) ≡ loaded b
    → (a : A) × (m ≡ loaded a) × (f a ≡ loaded b)
unfolding ◌>>=◌
bind-loaded {m = refused e} h = absurd (ground arith)
bind-loaded {m = loaded a} h = (a, refl, h)

unless-loaded :
    (bad : Bool) (e : ConfigError) (u : Unit {0}) → unless bad e ≡ loaded u → bad ≡ false
unfolding unless
unless-loaded true e u h = absurd (ground arith)
unless-loaded false e u h = refl

loaded_injective : {a b : Config} → loaded a ≡ loaded b → a ≡ b
loaded_injective h = ground arith

module _ (c : Config) where
  workers_bounds :
      workers_are_bad c ≡ false
      → (pos 1 ≤ℤ c.concurrency)
        × (c.concurrency ≤ℤ pos 10)
        × (pos 1 ≤ℤ c.reference_max_attempts)
        × (pos 0 <ℤ c.process_timeout)
        × (pos 0 <ℤ c.poll_interval)
        × (pos 0 <ℤ c.reference_ttl)
  unfolding workers_are_bad
  workers_bounds h = ground arith

  -- In an accepted configuration the sum does not wrap: the other bounds keep it small.
  deadlines_bounds :
      deadlines_are_bad c ≡ false
      → pos 0 <ℤ c.process_timeout
      → c.visibility_timeout ≤ℤ seconds 43200
      → (c.process_timeout +ℤ seconds 10 <ℤ c.visibility_timeout)
        × (c.shutdown_timeout <ℤ c.visibility_timeout)
        × (c.process_timeout <ℤ c.shutdown_timeout)
        × (c.process_timeout +ℤ seconds 10 ≤ℤ c.lease)
  unfolding deadlines_are_bad
  deadlines_bounds h works hours =
      let drains : c.shutdown_timeout <ℤ c.visibility_timeout = grind int_laws in
      let shuts : c.process_timeout <ℤ c.shutdown_timeout = grind int_laws in
      let exact = add64_lem c.process_timeout (seconds 10) (omega int_laws, omega int_laws) in
      (grind (int_laws, exact), drains, shuts, grind (int_laws, exact))

  check-IsRunnable : (d : Config) → check_config c ≡ loaded d → (d ≡ c) × IsRunnable c
  unfolding check_config
  check-IsRunnable d h =
      let (u1, k1, h1) = bind-loaded h in
      let (u2, k2, h2) = bind-loaded h1 in
      let (u3, k3, h3) = bind-loaded h2 in
      let (u4, k4, h4) = bind-loaded h3 in
      let (u5, k5, h5) = bind-loaded h4 in
      let (u6, k6, h6) = bind-loaded h5 in
      let (u7, k7, h7) = bind-loaded h6 in
      let (c1, c10, tries, works, polls, ttl) = workers_bounds (unless-loaded _ _ u2 k2) in
      let v = unless-loaded _ _ u6 k6 in
      let in_hours : c.visibility_timeout ≤ℤ seconds 43200 = ground arith in
      let (hides, drains, shuts, leases) =
        deadlines_bounds (unless-loaded _ _ u5 k5) works in_hours in
      let b = unless-loaded _ _ u3 k3 in
      let n = unless-loaded _ _ u4 k4 in
      (
        sym (loaded_injective h7),
        record {
          receives = (c1, c10);
          claims = ground arith;
          connects = ground arith;
          tries = tries;
          waits = (polls, ttl);
          works = (works, shuts);
          hides = hides;
          drains = drains;
          leases = leases;
          in_hours = in_hours;
        },
      )

-- Whatever the environment holds, a configuration that `Load` returns has its numbers within the
-- bounds that the workers, the pool and the store rely on: 1 to 10 messages at a time, 1 to 100
-- events a claim, 2 to 50 connections, and the deadlines in their order (processing ends before the
-- shutdown does, and ten seconds before the message shows again or the claim is lost; the shutdown
-- ends before the message shows again).
pub load-IsRunnable : (sur : Surroundings) (c : Config) → load sur ≡ loaded c → IsRunnable c
unfolding load
load-IsRunnable sur c h =
    let (name, _, h0) = bind-loaded h in
    let (allow, _, h1) = bind-loaded h0 in
    let (concurrency, _, h2) = bind-loaded h1 in
    let (batch, _, h3) = bind-loaded h2 in
    let (conns, _, h4) = bind-loaded h3 in
    let (attempts, _, h5) = bind-loaded h4 in
    let (process, _, h6) = bind-loaded h5 in
    let (visible, _, h7) = bind-loaded h6 in
    let (shutdown, _, h8) = bind-loaded h7 in
    let (lease, _, h9) = bind-loaded h8 in
    let (poll, _, h10) = bind-loaded h9 in
    let (ttl, _, h11) = bind-loaded h10 in
    let (same, good) = check-IsRunnable _ c h11 in rw same good
