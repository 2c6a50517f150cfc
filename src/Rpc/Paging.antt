-- ===== src/Rpc/Paging.antt =====
-- indexer/src/indexer.ts, `fetchAllEventsWithPagination`: all pages of a ledger window, or an error.
-- The RPC is a parameter: its answer to the query of each page, after the retries of that page. The
-- loop recurs on the pages that the budget leaves.
pub mod Laws
use circleup.Prelude.{
  ℕ, zero, suc, ◌+◌, ◌≤◌, ◌<◌, ◌≡◌, ◌↔◌, refl, String, Bool, true, false, not, ◌&&◌, ◌||◌, Option,
  none, some, List, [], ◌∷◌, ◌++◌, ltb, leb, if◌then◌else◌, arith, All, Bool-cases, inl, inr,
  length, any, keep, str_eq, length-append,
}
use circleup.Rpc.{RpcEvent}
use circleup.Rpc.Contradiction.{InWindow}

pub data Query : Type 0 where
  start_ledger : ℕ → Query
  after_cursor : String → Query

pub record EventPage : Type 0 where
  pub latest_ledger : Option ℕ
  pub events : List RpcEvent
  pub cursor : Option String

pub data PageAnswer : Type 0 where
  page_of : EventPage → PageAnswer
  page_failed : PageAnswer

pub data FetchError : Type 0 where
  interrupted rpc_failed range_not_retained unordered_range cursor_stuck : FetchError
  event_budget page_budget : FetchError

-- `BatchLimitError` is the class of the two budgets.
abbrev pub is_batch_limit : FetchError → Bool
is_batch_limit event_budget = true
is_batch_limit page_budget = true
is_batch_limit _ = false

pub data Fetched : Type 0 where
  fetched : List RpcEvent → Fetched
  fetch_error : FetchError → Fetched

pub record FetchOptions : Type 0 where
  pub from_ledger : ℕ
  pub to_ledger : ℕ
  pub limit : ℕ
  pub max_pages : ℕ
  pub max_events : ℕ

-- `Number.isSafeInteger(latestLedger) && latestLedger < toLedger`
abbrev pub behind : Option ℕ → ℕ → Bool
behind none to_ledger = false
behind (some latest) to_ledger = ltb latest to_ledger

-- The check of each page: from the window's start on, and not descending.
pub ordered_from : ℕ → List RpcEvent → Bool
ordered_from at_least [] = true
ordered_from at_least (ev ∷ events) = leb at_least ev.ledger && ordered_from ev.ledger events

-- The loop over a page's events: push those of the window while the budget lasts, and note whether
-- one lies beyond it.
pub data Window : Type 0 where
  taken : List RpcEvent → Bool → Window
  over_budget : Window

pub take_window : FetchOptions → List RpcEvent → Bool → List RpcEvent → Window
take_window o all beyond [] = taken all beyond
take_window o all beyond (ev ∷ events) =
    let push = take_window o (all ++ ev ∷ []) beyond events in
    let pass = take_window o all true events in
    if leb ev.ledger o.to_ledger
    then if leb o.max_events (length all) then over_budget else push
    else pass

pub last_event : RpcEvent → List RpcEvent → RpcEvent
last_event ev [] = ev
last_event ev (next ∷ events) = last_event next events

-- `a || b` on optional texts, where the empty text is falsy.
abbrev pub filled : Option String → Option String
filled none = none
filled (some s) = if str_eq s "" then none else some s

abbrev pub or_filled : Option String → Option String → Option String
or_filled a b = elim (filled a) [ none ↦ filled b | some s ↦ some s ]

pub next_cursor : EventPage → RpcEvent → Option String
next_cursor page ev = or_filled (or_filled page.cursor ev.paging_token) ev.id

abbrev pub query_of : ℕ → Option String → Query
query_of from_ledger none = start_ledger from_ledger
query_of from_ledger (some cursor) = after_cursor cursor

abbrev pub is_cursor : String → Option String → Bool
is_cursor s none = false
is_cursor s (some t) = str_eq s t

-- The next round, or the error of a cursor that is missing or is the one just used.
pub advance :
    (List RpcEvent → Option String → Fetched)
    → List RpcEvent
    → Option String
    → Option String
    → Fetched
advance more all cursor none = fetch_error cursor_stuck
advance more all cursor (some next) =
    let rest = more all (some next) in
    if is_cursor next cursor then fetch_error cursor_stuck else rest

-- The end of a round: the window is passed, the page is short, or the cursor goes on.
pub close_page :
    FetchOptions
    → EventPage
    → RpcEvent
    → ℕ
    → Option String
    → (List RpcEvent → Option String → Fetched)
    → Window
    → Fetched
unfolding next_cursor advance
close_page o page last_of_page size cursor more over_budget = fetch_error event_budget
close_page o page last_of_page size cursor more (taken all true) = fetched all
close_page o page last_of_page size cursor more (taken all false) =
    let rest = advance more all cursor (next_cursor page last_of_page) in
    if ltb size o.limit then fetched all else rest

pub read_page :
    FetchOptions
    → List RpcEvent
    → Option String
    → (List RpcEvent → Option String → Fetched)
    → EventPage
    → List RpcEvent
    → Fetched
unfolding close_page ordered_from take_window last_event
read_page o all cursor more page [] =
    if behind page.latest_ledger o.to_ledger then fetch_error range_not_retained else fetched all
read_page o all cursor more page (ev ∷ events) =
    let rest =
      close_page o page (last_event ev events) (length (ev ∷ events)) cursor more
        (take_window o all false (ev ∷ events)) in
    if behind page.latest_ledger o.to_ledger
    then fetch_error range_not_retained
    else if not (ordered_from o.from_ledger (ev ∷ events))
    then fetch_error unordered_range
    else rest

pub read_answer :
    FetchOptions
    → List RpcEvent
    → Option String
    → (List RpcEvent → Option String → Fetched)
    → PageAnswer
    → Fetched
unfolding read_page
read_answer o all cursor more page_failed = fetch_error rpc_failed
read_answer o all cursor more (page_of p) = read_page o all cursor more p p.events

module _ (answer : ℕ → Query → PageAnswer) (should_stop : ℕ → Bool) (o : FetchOptions) where
  -- `page_count` pages were read, and the budget leaves `pages`.
  pub fetch_pages : (pages page_count : ℕ) → List RpcEvent → Option String → Fetched
  unfolding read_answer
  fetch_pages zero page_count all cursor = fetch_error page_budget
  fetch_pages (suc pages) page_count all cursor =
      let read =
        read_answer o all cursor (fetch_pages pages (page_count + 1))
          (answer (page_count + 1) (query_of o.from_ledger cursor)) in
      if should_stop page_count then fetch_error interrupted else read

  unfoldable pub fetch_all_events : Fetched
  unfolding fetch_pages
  fetch_all_events = fetch_pages o.max_pages 0 [] none
