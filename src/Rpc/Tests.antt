-- ===== src/Rpc/Tests.antt =====
-- The RPC: a server with two pages, and a call that fails twice.
use circleup.Prelude.{
  Bool-cases, inl, inr, ℕ, String, ◌≤◌, ◌≡◌, ◌↔◌, refl, ◌==◌, if◌then◌else◌, true, false, none,
  some, List, [], ◌∷◌, length, All, max,
}
use circleup.Rpc.{RpcEvent}
use circleup.Rpc.Errors.{
  mentions, RpcError, text_code, no_code, is_transient_rpc_error, may_have_reached_server,
}
use circleup.Rpc.Contradiction.{InWindow, detect_event_range_contradiction, detect_event_range_iff}
use circleup.Rpc.Paging.{
  Query, start_ledger, after_cursor, EventPage, PageAnswer, page_of, fetched, FetchOptions,
  fetch_all_events,
}
use circleup.Rpc.Paging.Laws.{fetch_all_events_bounded}
use circleup.Rpc.Retry.{
  Answer, answered, failed, thrown, wrapped, with_rpc_retry, sdk_with_rpc_retry,
}
use circleup.Rpc.Retry.Laws.{IsRethrown, IsNotFetch, with_rpc_retry_lem, sdk_with_rpc_retry_agrees}

abbrev event_at : ℕ → String → RpcEvent
event_at ledger id = record { ledger = ledger; id = some id; paging_token = some id }

abbrev first_page : EventPage
first_page = record {
  latest_ledger = some 90;
  events = event_at 10 "a" ∷ event_at 11 "b" ∷ [];
  cursor = none;
}

abbrev second_page : EventPage
second_page = record { latest_ledger = some 90; events = event_at 12 "c" ∷ []; cursor = none }

abbrev server : ℕ → Query → PageAnswer
server n (start_ledger from_ledger) = page_of first_page
server n (after_cursor cursor) = page_of second_page

abbrev never : ℕ → ℕ → ℕ
never a b = 0

abbrev options : FetchOptions
options = record { from_ledger = 10; to_ledger = 20; limit = 2; max_pages = 5; max_events = 3 }

abbrev all_three : List RpcEvent
all_three = event_at 10 "a" ∷ event_at 11 "b" ∷ event_at 12 "c" ∷ []

both_pages : fetch_all_events server (λ n. false) options ≡ fetched all_three
unfolding fetch_all_events
both_pages = refl

fetch_all_events_bounded_example :
    (detect_event_range_contradiction all_three 10 20 ≡ none) × (length all_three ≤ 3)
fetch_all_events_bounded_example =
    fetch_all_events_bounded server (λ n. false) options all_three both_pages

detect_event_range_iff_example :
    (detect_event_range_contradiction all_three 10 11 ≡ none) ↔ All (InWindow 10 11) all_three
detect_event_range_iff_example = detect_event_range_iff all_three 10 11

abbrev reset : RpcError
reset = record {
  code = text_code "ECONNRESET";
  status = none;
  message = "read ECONNRESET";
  is_error = true;
}

abbrev gateway : RpcError
gateway = record { code = no_code; status = some 502; message = "Bad Gateway"; is_error = true }

may_resend : may_have_reached_server (some reset) ≡ true
unfolding may_have_reached_server
may_resend = refl

-- Two transient failures, then an answer.
abbrev third_time : ℕ → Answer ℕ
third_time n =
    if n == 1 then failed (some reset) else if n == 2 then failed (some gateway) else answered n

third_time_tried : (with_rpc_retry third_time never 400 "getLatestLedger" 5).tried ≡ 3
unfolding with_rpc_retry is_transient_rpc_error
third_time_tried = refl

no_gateway :
    wrapped "getLatestLedger" 1 (some reset)
    ≡ some (record {
      code = no_code;
      status = none;
      message =
          "[indexer] Soroban RPC getLatestLedger failed after 1 attempt(s): read ECONNRESET (ECONNRESET)";
      is_error = true;
    })
unfolding wrapped
no_gateway = refl

with_rpc_retry_lem_example :
    IsRethrown third_time is_transient_rpc_error
      (wrapped "getLatestLedger")
      (max 1 2)
      (with_rpc_retry third_time never 400 "getLatestLedger" 2)
with_rpc_retry_lem_example = with_rpc_retry_lem third_time never 400 "getLatestLedger" 2

third_time-IsNotFetch : (n : ℕ) → IsNotFetch (third_time n)
unfolding mentions
third_time-IsNotFetch n = elim (Bool-cases (n == 1)) [
  | inl one ↦ rw one refl
  | inr more ↦ elim (Bool-cases (n == 2)) [
    | inl two ↦ rw (more, two) refl
    | inr answers ↦ rw (more, answers) tt
  ]
]

sdk_with_rpc_retry_agrees_example :
    let sdk = sdk_with_rpc_retry third_time never 400 2 in
    with_rpc_retry third_time never 400 "getLatestLedger" 2
    ≡ record sdk { outcome = thrown (wrapped "getLatestLedger" sdk.tried) sdk.outcome }
sdk_with_rpc_retry_agrees_example =
    sdk_with_rpc_retry_agrees third_time never 400 "getLatestLedger" 2 third_time-IsNotFetch
