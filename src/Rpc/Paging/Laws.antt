-- ===== src/Rpc/Paging/Laws.antt =====
-- indexer/src/indexer.ts, `fetchAllEventsWithPagination`: what a fetch returns lies in its window and
-- its budget.
use circleup.Prelude.{
  ℕ, zero, suc, ◌+◌, ◌≤◌, ◌<◌, ◌≡◌, String, Bool, true, false, Option, none, some, List, [], ◌∷◌,
  ◌++◌, ltb, leb, if◌then◌else◌, arith, All, Bool-cases, inl, inr, length, length-append,
}
use circleup.Rpc.{RpcEvent}
use circleup.Rpc.Contradiction.{InWindow, detect_event_range_contradiction, detect_event_range_iff}
use mathlib.Core.Path.{subst}
use circleup.Rpc.Paging.{
  read_answer, Query, EventPage, PageAnswer, page_of, page_failed, Fetched, fetched, fetch_error,
  FetchOptions, ordered_from, take_window, Window, taken, over_budget, close_page, read_page,
  advance, fetch_pages, fetch_all_events, next_cursor, is_cursor, query_of, behind, cursor_stuck,
  interrupted, range_not_retained, last_event,
}

ordered_from-All :
    (at_least : ℕ) (events : List RpcEvent)
    → ordered_from at_least events ≡ true
    → All (λ ev. at_least ≤ ev.ledger) events
unfolding ordered_from
ordered_from-All at_least [] h = tt
ordered_from-All at_least (ev ∷ events) h =
    (ground arith, weaken events (ordered_from-All ev.ledger events (ground arith)))
  where
    weaken :
        (es : List RpcEvent)
        → All (λ e. ev.ledger ≤ e.ledger) es
        → All (λ e. at_least ≤ e.ledger) es
    weaken [] k = tt
    weaken (e ∷ es) (k, ks) = (ground arith, weaken es ks)

module _ (o : FetchOptions) where
  -- The events so far lie in the window and in the budget.
  abbrev IsBounded : List RpcEvent → Type 0
  IsBounded all = All (InWindow o.from_ledger o.to_ledger) all × (length all ≤ o.max_events)

  abbrev OnWindow : Window → Type 0
  OnWindow (taken all beyond) = IsBounded all
  OnWindow over_budget = Unit

  abbrev OnFetched : Fetched → Type 0
  OnFetched (fetched all) = IsBounded all
  OnFetched (fetch_error e) = Unit

  IsBounded-push :
      (all : List RpcEvent) (ev : RpcEvent)
      → IsBounded all
      → InWindow o.from_ledger o.to_ledger ev
      → length all < o.max_events
      → IsBounded (all ++ ev ∷ [])
  IsBounded-push all ev (h, k) w lt = (push all h, omega (arith, length-append {0} all (ev ∷ [])))
    where
      push :
          (xs : List RpcEvent)
          → All (InWindow o.from_ledger o.to_ledger) xs
          → All (InWindow o.from_ledger o.to_ledger) (xs ++ ev ∷ [])
      push [] g = (w, tt)
      push (x ∷ xs) (g, gs) = (g, push xs gs)

  take_window-OnWindow :
      (all : List RpcEvent) (beyond : Bool) (events : List RpcEvent)
      → IsBounded all
      → All (λ ev. o.from_ledger ≤ ev.ledger) events
      → OnWindow (take_window o all beyond events)
  unfolding take_window
  take_window-OnWindow all beyond [] h k = h
  take_window-OnWindow all beyond (ev ∷ events) h (k, ks) =
      elim (Bool-cases (leb ev.ledger o.to_ledger)) [
        | inl inside ↦ elim (Bool-cases (leb o.max_events (length all))) [
          | inl full ↦ rw (inside, full) tt
          | inr room ↦
              rw (inside, room)
                (take_window-OnWindow (all ++ ev ∷ []) beyond events
                  (IsBounded-push all ev h (ground arith) (ground arith)) ks)
        ]
        | inr outside ↦ rw outside (take_window-OnWindow all true events h ks)
      ]

  if-OnFetched :
      (b : Bool) (x y : Fetched) → OnFetched x → OnFetched y → OnFetched (if b then x else y)
  if-OnFetched true x y h k = h
  if-OnFetched false x y h k = k

  module _ (more : List RpcEvent → Option String → Fetched)
      (go_on : (all : List RpcEvent) (cursor : Option String)
        → IsBounded all
        → OnFetched (more all cursor)) where
    advance-OnFetched :
        (all : List RpcEvent) (cursor next : Option String)
        → IsBounded all
        → OnFetched (advance more all cursor next)
    unfolding advance
    advance-OnFetched all cursor none h = tt
    advance-OnFetched all cursor (some next) h =
        if-OnFetched (is_cursor next cursor) (fetch_error cursor_stuck) (more all (some next)) tt
          (go_on all (some next) h)

    close_page-OnFetched :
        (page : EventPage) (ev : RpcEvent) (size : ℕ) (cursor : Option String) (w : Window)
        → OnWindow w
        → OnFetched (close_page o page ev size cursor more w)
    unfolding close_page
    close_page-OnFetched page ev size cursor over_budget h = tt
    close_page-OnFetched page ev size cursor (taken all true) h = h
    close_page-OnFetched page ev size cursor (taken all false) h =
        if-OnFetched (ltb size o.limit) (fetched all)
          (advance more all cursor (next_cursor page ev)) h
          (advance-OnFetched all cursor (next_cursor page ev) h)

    read_page-OnFetched :
        (all : List RpcEvent) (cursor : Option String) (page : EventPage) (events : List RpcEvent)
        → IsBounded all
        → OnFetched (read_page o all cursor more page events)
    unfolding read_page
    read_page-OnFetched all cursor page [] h =
        if-OnFetched (behind page.latest_ledger o.to_ledger) (fetch_error range_not_retained)
          (fetched all) tt h
    read_page-OnFetched all cursor page (ev ∷ events) h =
        elim (Bool-cases (behind page.latest_ledger o.to_ledger)) [
          | inl gone ↦ rw gone tt
          | inr kept ↦ elim (Bool-cases (ordered_from o.from_ledger (ev ∷ events))) [
            | inl good ↦
                rw (kept, good)
                  (close_page-OnFetched page (last_event ev events) (length (ev ∷ events)) cursor
                    (take_window o all false (ev ∷ events))
                    (take_window-OnWindow all false (ev ∷ events) h
                      (ordered_from-All o.from_ledger (ev ∷ events) good)))
            | inr bad ↦ rw (kept, bad) tt
          ]
        ]

  module _ (answer : ℕ → Query → PageAnswer) (should_stop : ℕ → Bool) where
    answered-OnFetched :
        (all : List RpcEvent) (cursor : Option String)
        (more : List RpcEvent → Option String → Fetched)
        → ((a : List RpcEvent) (c : Option String) → IsBounded a → OnFetched (more a c))
        → IsBounded all
        → (page : PageAnswer) → OnFetched (read_answer o all cursor more page)
    unfolding read_answer
    answered-OnFetched all cursor more go_on h page_failed = tt
    answered-OnFetched all cursor more go_on h (page_of p) =
        read_page-OnFetched more go_on all cursor p p.events h

    fetch_pages-OnFetched :
        (pages page_count : ℕ) (all : List RpcEvent) (cursor : Option String)
        → IsBounded all
        → OnFetched (fetch_pages answer should_stop o pages page_count all cursor)
    unfolding fetch_pages
    fetch_pages-OnFetched zero page_count all cursor h = tt
    fetch_pages-OnFetched (suc pages) page_count all cursor h =
        if-OnFetched (should_stop page_count) (fetch_error interrupted)
          (read_answer o all cursor (fetch_pages answer should_stop o pages (page_count + 1))
            (answer (page_count + 1) (query_of o.from_ledger cursor)))
          tt
          (answered-OnFetched all cursor (fetch_pages answer should_stop o pages (page_count + 1))
            (fetch_pages-OnFetched pages (page_count + 1)) h
            (answer (page_count + 1) (query_of o.from_ledger cursor)))

-- What a fetch returns lies in the requested window and within the budget of events, whatever the
-- server answers. So the range check that the poller makes of it finds no contradiction.
pub fetch_all_events_bounded :
    (answer : ℕ → Query → PageAnswer) (should_stop : ℕ → Bool) (o : FetchOptions)
    (events : List RpcEvent)
    → fetch_all_events answer should_stop o ≡ fetched events
    → (detect_event_range_contradiction events o.from_ledger o.to_ledger ≡ none)
      × (length events ≤ o.max_events)
unfolding fetch_all_events
fetch_all_events_bounded answer should_stop o events e =
    let (inside, few) =
      subst (OnFetched o) e
        (fetch_pages-OnFetched o answer should_stop o.max_pages 0 [] none (tt, omega arith)) in
    ((detect_event_range_iff events o.from_ledger o.to_ledger).1 inside, few)
