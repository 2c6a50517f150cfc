-- ===== src/Poll/Gather/Laws.antt =====
-- indexer/src/indexer.ts, `processEvents`: what is gathered lies in the window, also once it is routed,
-- sorted and grouped.
use circleup.Prelude.{
  ℕ, ◌+◌, ◌-◌, max, String, Option, none, some, List, [], ◌∷◌, ◌++◌, length, ltb, All, inl, inr,
  Bool-cases, Option-cases,
}
use circleup.Rpc.{RpcEvent}
use circleup.Ingest.{EventHandler}
use circleup.Rpc.Contradiction.{detect_event_range_contradiction, InWindow, detect_event_range_iff}
use circleup.Rpc.Paging.{Fetched, fetched, fetch_error}
use circleup.Poll.{PollConfig, Routed, Sources}
use circleup.Poll.Gather.{
  Gathered, gathered, gather_failed, gather, gather_after, fetch_slices, add_slice, fetch_window,
  route_all, push_item, sort_routed, insert_routed, slices, unique, found_circles, in_order,
}

All-append : {A : Type 0} (P : A → Type 0) (xs ys : List A) → All P xs → All P ys → All P (xs ++ ys)
All-append P [] ys h k = k
All-append P (x ∷ xs) ys (h, hs) k = (h, All-append P xs ys hs k)

-- What holds of the routed events holds of them in order.
module _ {T : Type 0} (sources : Sources T) (P : Routed T → Type 0) where
  All-insert_routed :
      (r : Routed T) (rs : List (Routed T)) → P r → All P rs → All P (insert_routed sources r rs)
  unfolding insert_routed
  All-insert_routed r [] h k = (h, tt)
  All-insert_routed r (s ∷ rest) h (k, ks) = elim (Bool-cases (in_order sources r s)) [
    | inl e ↦ rw e (h, (k, ks))
    | inr e ↦ rw e (k, All-insert_routed r rest h ks)
  ]

  pub All-sort_routed : (rs : List (Routed T)) → All P rs → All P (sort_routed sources rs)
  unfolding sort_routed
  All-sort_routed [] h = tt
  All-sort_routed (r ∷ rest) (h, hs) =
      All-insert_routed r (sort_routed sources rest) h (All-sort_routed rest hs)

module _ {T : Type 0} (config : PollConfig) (sources : Sources T) (from_ledger to_ledger : ℕ) where
  abbrev pub Inside : List RpcEvent → Type 0
  Inside = All (InWindow from_ledger to_ledger)

  abbrev pub OnGathered : Gathered → Type 0
  OnGathered (gathered events) = Inside events
  OnGathered (gather_failed e) = Unit

  add_slice-OnGathered :
      (factory_events all : List RpcEvent) (more : List RpcEvent → Gathered) (answer : Fetched)
      → Inside all
      → ((more_events : List RpcEvent) → Inside more_events → OnGathered (more more_events))
      → OnGathered (add_slice config sources from_ledger to_ledger factory_events all more answer)
  unfolding add_slice
  add_slice-OnGathered factory_events all more (fetch_error e) h go_on = tt
  add_slice-OnGathered factory_events all more (fetched events) h go_on =
      elim (Bool-cases
        (ltb config.backfill_max_events (length factory_events + length (all ++ events)))) [
          | inl over ↦ rw over tt
          | inr within ↦
              elim (Option-cases (detect_event_range_contradiction events from_ledger to_ledger)) [
                | inl clean ↦
                    rw (within, clean)
                      (go_on (all ++ events) (
                        All-append (InWindow from_ledger to_ledger) all events h
                          ((detect_event_range_iff events from_ledger to_ledger).0 clean)))
                | inr (evidence, found) ↦ rw (within, found) tt
              ]
        ]

  fetch_slices-OnGathered :
      (factory_events : List RpcEvent) (ids : List (List String)) (all : List RpcEvent)
      → Inside factory_events
      → Inside all
      → OnGathered (fetch_slices config sources from_ledger to_ledger factory_events ids all)
  unfolding fetch_slices
  fetch_slices-OnGathered factory_events [] all k h =
      All-append (InWindow from_ledger to_ledger) factory_events all k h
  fetch_slices-OnGathered factory_events (ids ∷ more) all k h =
      add_slice-OnGathered factory_events all
        (fetch_slices config sources from_ledger to_ledger factory_events more)
        (fetch_window config sources from_ledger to_ledger ids
          (max 1 (config.backfill_max_events - length factory_events - length all)))
        h (λ all' h'. fetch_slices-OnGathered factory_events more all' k h')

  gather_after-OnGathered :
      (tables : T) (answer : Fetched)
      → OnGathered (gather_after config sources from_ledger to_ledger tables answer)
  unfolding gather_after
  gather_after-OnGathered tables (fetch_error e) = tt
  gather_after-OnGathered tables (fetched factory_events) =
      elim (Option-cases (detect_event_range_contradiction factory_events from_ledger to_ledger)) [
        | inr (evidence, found) ↦ rw found tt
        | inl clean ↦ rw clean (
            fetch_slices-OnGathered factory_events
              (slices (
                unique [] (
                  sources.known_circles tables ++ found_circles sources.new_circle factory_events)))
              [] ((detect_event_range_iff factory_events from_ledger to_ledger).0 clean) tt)
      ]

  pub gather-OnGathered :
      (tables : T) → OnGathered (gather config sources from_ledger to_ledger tables)
  unfolding gather
  gather-OnGathered tables = gather_after-OnGathered tables (
      fetch_window config sources from_ledger to_ledger (config.factory ∷ config.reputation ∷ [])
        config.backfill_max_events)

  abbrev pub InsideRouted : List (Routed T) → Type 0
  InsideRouted = All (λ r. InWindow from_ledger to_ledger r.source)

  push_item-InsideRouted :
      (ev : RpcEvent) (rest : List (Routed T)) (routed : Option (EventHandler T))
      → InWindow from_ledger to_ledger ev
      → InsideRouted rest
      → InsideRouted (push_item ev rest routed)
  push_item-InsideRouted ev rest none h k = k
  push_item-InsideRouted ev rest (some item) h k = (h, k)

  route_all-InsideRouted :
      (events : List RpcEvent) → Inside events → InsideRouted (route_all sources events)
  unfolding route_all
  route_all-InsideRouted [] h = tt
  route_all-InsideRouted (ev ∷ events) (h, hs) =
      push_item-InsideRouted ev (route_all sources events) (sources.route ev) h
        (route_all-InsideRouted events hs)

  pub sorted-InsideRouted :
      (events : List RpcEvent)
      → Inside events
      → InsideRouted (sort_routed sources (route_all sources events))
  sorted-InsideRouted events h =
      All-sort_routed sources (λ r. InWindow from_ledger to_ledger r.source)
        (route_all sources events) (route_all-InsideRouted events h)
