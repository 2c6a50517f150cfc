-- ===== src/Lease/Laws.antt =====
-- app/src/lib/actionLease.ts: a lease that was granted keeps the other tabs off until it expires.
use circleup.Prelude.{
  ℕ, ◌+◌, ◌<◌, ◌≡◌, inl, inr, refl, ◌∙◌, ap, String, true, false, not, Option, none, some, List, [],
  ◌∷◌, str_eq, eq_iff, arith, Bool-cases, All,
}
use circleup.Lease.{
  LeaseValue, StoredText, lease, LeaseStore, live, LeaseStep, acquire, release, read_lease,
  unless_held, acquire_in, try_acquire_lease, release_in, other_than, is_lease_held_by_other,
  run_step, run_steps,
}

-- A step that neither releases the key nor asks for it at or after the time.
abbrev pub LeavesAlone : String → ℕ → LeaseStep → Type 0
LeavesAlone key until (acquire k tab now ttl_ms) = now < until
LeavesAlone key until (release k) = str_eq k key ≡ false

live-lease : (v : LeaseValue) (now : ℕ) → now < v.expires_at → live now (some (lease v)) ≡ some v
live-lease v now h = ground arith

module _ {S : Type 0} (store : LeaseStore S) where
  read_lease-lease :
      (s : S) (key : String) (v : LeaseValue) (now : ℕ)
      → store.get_item s key ≡ some (lease v)
      → now < v.expires_at
      → read_lease store s key now ≡ some v
  unfolding read_lease
  read_lease-lease s key v now g h = ap (live now) g ∙ live-lease v now h

  -- A tab that finds the lease does not get it, and writes nothing.
  acquire_in-held :
      (s : S) (key tab : String) (v : LeaseValue) (now ttl_ms : ℕ)
      → read_lease store s key now ≡ some v
      → acquire_in store s key tab now ttl_ms ≡ (false, s)
  unfolding acquire_in
  acquire_in-held s key tab v now ttl_ms g = rw g refl

  get_item-unless_held :
      (s : S) (k key : String) (t : StoredText) (r : Option LeaseValue) (w : Option S)
      → str_eq k key ≡ false
      → store.set_item s k t ≡ w
      → store.get_item ((unless_held s r w).1) key ≡ store.get_item s key
  get_item-unless_held s k key t (some v) w e h = refl
  get_item-unless_held s k key t none none e h = refl
  get_item-unless_held s k key t none (some s') e h = store.get-set_other s s' k key t e h

  run_step-Keeps :
      (s : S) (key : String) (v : LeaseValue) (e : LeaseStep)
      → store.get_item s key ≡ some (lease v)
      → LeavesAlone key v.expires_at e
      → store.get_item (run_step store s e) key ≡ some (lease v)
  unfolding acquire_in release_in
  run_step-Keeps s key v (acquire k tab now ttl_ms) g a = elim (Bool-cases (str_eq k key)) [
    | inl same ↦
        let at_key = (eq_iff k key).0 same in
        rw at_key (
          ap (λ p. store.get_item p.1 key)
            (acquire_in-held s key tab v now ttl_ms (read_lease-lease s key v now g a))
          ∙ g)
    | inr other ↦ get_item-unless_held s k key _ (read_lease store s k now) _ other refl ∙ g
  ]
  run_step-Keeps s key v (release k) g a = store.get-remove_other s k key a ∙ g

  run_steps-Keeps :
      (s : S) (key : String) (v : LeaseValue) (es : List LeaseStep)
      → store.get_item s key ≡ some (lease v)
      → All (LeavesAlone key v.expires_at) es
      → store.get_item (run_steps store s es) key ≡ some (lease v)
  unfolding run_steps
  run_steps-Keeps s key v [] g a = g
  run_steps-Keeps s key v (e ∷ es) g (a, rest) =
      run_steps-Keeps (run_step store s e) key v es (run_step-Keeps s key v e g a) rest

  -- Where no lease is live and the storage takes the write, a tab is granted the lease; whatever the
  -- tabs do then, if nobody releases the key and every request is made before the lease expires, no
  -- tab is granted it before it expires, nothing is written by such a request, and the lease is held
  -- by another exactly for the tabs that are not the first one.
  pub try_acquire_lease_excludes :
      (s s' : S) (key tab other : String) (now ttl_ms later other_ttl_ms : ℕ) (es : List LeaseStep)
      → read_lease store s key now ≡ none
      → store.set_item s key (lease (record { tab = tab; expires_at = now + ttl_ms })) ≡ some s'
      → All (LeavesAlone key (now + ttl_ms)) es
      → later < now + ttl_ms
      → (try_acquire_lease store (some s) key tab now ttl_ms ≡ (true, some s'))
        × (try_acquire_lease store (some (run_steps store s' es)) key other later other_ttl_ms
            ≡ (false, some (run_steps store s' es)))
        × (is_lease_held_by_other store (some (run_steps store s' es)) key other later
            ≡ not (str_eq tab other))
  unfolding try_acquire_lease acquire_in is_lease_held_by_other
  try_acquire_lease_excludes s s' key tab other now ttl_ms later other_ttl_ms es free write alone
        soon =
      let kept = run_steps-Keeps s' key _ es (store.get-set_same s s' key _ write) alone in
      let seen = read_lease-lease (run_steps store s' es) key _ later kept soon in
      (rw (free, write) refl, rw seen refl, ap (other_than other) seen)
