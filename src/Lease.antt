-- ===== src/Lease.antt =====
-- app/src/lib/actionLease.ts: the leases by which the tabs of a browser keep off the same action.
-- The storage of the browser is a parameter. What it holds at a key is what `JSON.parse` makes of the
-- text: a lease, or something else. Times are in milliseconds; the clock and `tabId` are arguments.
pub mod Laws
mod Tests
use circleup.Prelude.{
  ℕ, ◌+◌, ◌≡◌, String, Bool, true, false, not, Option, none, some, List, [], ◌∷◌, leb,
  if◌then◌else◌, str_eq,
}

pub record LeaseValue : Type 0 where
  pub tab : String
  pub expires_at : ℕ

pub data StoredText : Type 0 where
  lease : LeaseValue → StoredText
  malformed : StoredText

-- The storage `S`. `get_item` is `none` also where it throws, `set_item` is `none` where it throws.
-- A write is read back, and a write or a removal leaves the other keys.
pub record LeaseStore (S : Type 0) : Type 0 where
  pub get_item : S → String → Option StoredText
  pub set_item : S → String → StoredText → Option S
  pub remove_item : S → String → S
  pub get-set_same :
      (s s' : S) (k : String) (v : StoredText) → set_item s k v ≡ some s' → get_item s' k ≡ some v
  pub get-set_other :
      (s s' : S) (k j : String) (v : StoredText)
      → str_eq k j ≡ false
      → set_item s k v ≡ some s'
      → get_item s' j ≡ get_item s j
  pub get-remove_other :
      (s : S) (k j : String) → str_eq k j ≡ false → get_item (remove_item s k) j ≡ get_item s j

-- A stored lease, unless it has expired.
abbrev pub live : ℕ → Option StoredText → Option LeaseValue
live now none = none
live now (some malformed) = none
live now (some (lease v)) = if leb v.expires_at now then none else some v

abbrev pub other_than : String → Option LeaseValue → Bool
other_than tab none = false
other_than tab (some v) = not (str_eq v.tab tab)

-- LEASE_TTL_MS
abbrev pub lease_ttl_ms : ℕ
lease_ttl_ms = 60000

-- What a tab or the end of an action does to the storage.
pub data LeaseStep : Type 0 where
  acquire : (key tab : String) (now ttl_ms : ℕ) → LeaseStep
  release : (key : String) → LeaseStep

-- The write throws, or succeeds: the tab goes on in both cases.
abbrev pub written {ℓ} : {S : Type ℓ} → S → Option S → Bool × S
written s none = (true, s)
written s (some s') = (true, s')

abbrev pub unless_held {ℓ} : {S : Type ℓ} → S → Option LeaseValue → Option S → Bool × S
unless_held s (some v) w = (false, s)
unless_held s none w = written s w

module _ {S : Type 0} (store : LeaseStore S) where
  unfoldable pub read_lease : S → String → ℕ → Option LeaseValue
  read_lease s key now = live now (store.get_item s key)

  -- `tryAcquireLease` with a storage.
  unfoldable pub acquire_in : S → (key tab : String) (now ttl_ms : ℕ) → Bool × S
  unfolding read_lease
  acquire_in s key tab now ttl_ms =
      unless_held s (read_lease s key now)
        (store.set_item s key (lease (record { tab = tab; expires_at = now + ttl_ms })))

  -- Without a storage there is one tab, which goes on.
  unfoldable pub try_acquire_lease :
      Option S → (key tab : String) (now ttl_ms : ℕ) → Bool × Option S
  unfolding acquire_in
  try_acquire_lease none key tab now ttl_ms = (true, none)
  try_acquire_lease (some s) key tab now ttl_ms =
      let (granted, s') = acquire_in s key tab now ttl_ms in (granted, some s')

  -- `releaseLease` with a storage.
  unfoldable pub release_in : S → String → S
  release_in s key = store.remove_item s key

  unfoldable pub release_lease : Option S → String → Option S
  unfolding release_in
  release_lease none key = none
  release_lease (some s) key = some (release_in s key)

  unfoldable pub is_lease_held_by_other : Option S → (key tab : String) (now : ℕ) → Bool
  unfolding read_lease
  is_lease_held_by_other none key tab now = false
  is_lease_held_by_other (some s) key tab now = other_than tab (read_lease s key now)

  abbrev pub run_step : S → LeaseStep → S
  run_step s (acquire key tab now ttl_ms) =
      let (granted, s') = acquire_in s key tab now ttl_ms in s'
  run_step s (release key) = release_in s key

  unfoldable pub run_steps : S → List LeaseStep → S
  unfolding acquire_in release_in
  run_steps s [] = s
  run_steps s (e ∷ es) = run_steps (run_step s e) es
