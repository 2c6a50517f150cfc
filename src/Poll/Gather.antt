-- ===== src/Poll/Gather.antt =====
-- indexer/src/indexer.ts, `processEvents`, steps 1 to 6: the events of a window in canonical order.
pub mod Laws
use circleup.Prelude.{
  ℕ, ◌+◌, ◌-◌, max, String, Bool, true, false, Option, none, some, List, [], ◌∷◌, ◌++◌, map, any,
  length, ltb, leb, ◌==◌, if◌then◌else◌, str_eq, or_else,
}
use circleup.Rpc.{RpcEvent}
use circleup.Ingest.{EventHandler}
use circleup.Rpc.Contradiction.{LedgerContradictionEvidence, detect_event_range_contradiction}
use circleup.Rpc.Paging.{Fetched, fetched, fetch_error, FetchOptions, fetch_all_events}
use circleup.Poll.{
  PollConfig, PollError, fetch_failed, contradicted, combined_budget, Routed, Sources,
}

-- The events of a window, or the error that ended the gathering.
pub data Gathered : Type 0 where
  gathered : List RpcEvent → Gathered
  gather_failed : PollError → Gathered

-- `if (contradiction) throw new LedgerContradictionError(contradiction)`
abbrev pub unless_contradicted : Gathered → Option LedgerContradictionEvidence → Gathered
unless_contradicted rest none = rest
unless_contradicted rest (some evidence) = gather_failed (contradicted evidence)

-- `[...new Set(addresses)]`
pub unique : List String → List String → List String
unique seen [] = seen
unique seen (s ∷ ss) = unique (if any (λ t. str_eq t s) seen then seen else seen ++ s ∷ []) ss

-- `slice(offset, offset + 5)` for each offset
pub slices : List String → List (List String)
slices (a ∷ b ∷ c ∷ d ∷ e ∷ rest) = (a ∷ b ∷ c ∷ d ∷ e ∷ []) ∷ slices rest
slices [] = []
slices few = few ∷ []

pub found_circles : (RpcEvent → Option String) → List RpcEvent → List String
found_circles new_circle [] = []
found_circles new_circle (ev ∷ events) =
    let rest = found_circles new_circle events in
    elim (new_circle ev) [ none ↦ rest | some address ↦ address ∷ rest ]

module _ {T : Type 0} (config : PollConfig) (sources : Sources T) (from_ledger to_ledger : ℕ) where
  -- One paginated fetch.
  pub fetch_window : List String → ℕ → Fetched
  unfolding fetch_all_events
  fetch_window contract_ids max_events =
      fetch_all_events (sources.answer contract_ids) (sources.stop_fetch contract_ids) (record {
        from_ledger = from_ledger;
        to_ledger = to_ledger;
        limit = config.events_limit;
        max_pages = config.backfill_max_pages;
        max_events = max_events;
      })

  -- The answer to one slice of circles, after `factory_events` and `all`.
  pub add_slice : List RpcEvent → List RpcEvent → (List RpcEvent → Gathered) → Fetched → Gathered
  unfolding detect_event_range_contradiction
  add_slice factory_events all more (fetch_error e) = gather_failed (fetch_failed e)
  add_slice factory_events all more (fetched events) =
      let rest = more (all ++ events) in
      if ltb config.backfill_max_events (length factory_events + length (all ++ events))
      then gather_failed combined_budget
      else unless_contradicted rest (detect_event_range_contradiction events from_ledger to_ledger)

  pub fetch_slices : List RpcEvent → List (List String) → List RpcEvent → Gathered
  unfolding fetch_window add_slice
  fetch_slices factory_events [] all = gathered (factory_events ++ all)
  fetch_slices factory_events (ids ∷ more) all =
      add_slice factory_events all (fetch_slices factory_events more)
        (fetch_window ids (max 1 (config.backfill_max_events - length factory_events - length all)))

  -- Steps 2 to 4, after the fetch of the factory's and the reputation contract's events.
  pub gather_after : T → Fetched → Gathered
  unfolding fetch_slices detect_event_range_contradiction unique slices found_circles
  gather_after tables (fetch_error e) = gather_failed (fetch_failed e)
  gather_after tables (fetched factory_events) =
      unless_contradicted
        (fetch_slices factory_events
          (slices (
            unique []
              (sources.known_circles tables ++ found_circles sources.new_circle factory_events)))
          [])
        (detect_event_range_contradiction factory_events from_ledger to_ledger)

  unfoldable pub gather : T → Gathered
  unfolding gather_after fetch_window
  gather tables =
      gather_after tables
        (fetch_window (config.factory ∷ config.reputation ∷ []) config.backfill_max_events)

-- `if (item) items.push(item)`
abbrev pub push_item :
    {T : Type 0} → RpcEvent → List (Routed T) → Option (EventHandler T) → List (Routed T)
push_item ev rest none = rest
push_item ev rest (some item) = record { source = ev; item = item } ∷ rest

module _ {T : Type 0} (sources : Sources T) where
  unfoldable pub route_all : List RpcEvent → List (Routed T)
  route_all [] = []
  route_all (ev ∷ events) = push_item ev (route_all events) (sources.route ev)

  abbrev pub id_or_empty : Routed T → String
  id_or_empty r = or_else r.source.id ""

  -- The comparison of `items.sort`: by ledger, then by id.
  pub in_order : Routed T → Routed T → Bool
  in_order a b =
      if a.source.ledger == b.source.ledger
      then sources.id_before (id_or_empty a) (id_or_empty b)
      else ltb a.source.ledger b.source.ledger

  pub insert_routed : Routed T → List (Routed T) → List (Routed T)
  unfolding in_order
  insert_routed r [] = r ∷ []
  insert_routed r (s ∷ rest) = if in_order r s then r ∷ s ∷ rest else s ∷ insert_routed r rest

  unfoldable pub sort_routed : List (Routed T) → List (Routed T)
  unfolding insert_routed
  sort_routed [] = []
  sort_routed (r ∷ rest) = insert_routed r (sort_routed rest)
