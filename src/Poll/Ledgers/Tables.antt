-- ===== src/Poll/Ledgers/Tables.antt =====
-- indexer/src/indexer.ts, `processEvents`: what every routed handler keeps of the tables, a window
-- keeps, whatever the RPC answers and wherever it stops.
use circleup.Prelude.{
  ℕ, ◌+◌, Bool, some, List, [], ◌∷◌, map, All, keep, keep-true, keep-false, ltb, ◌≡◌, inl, inr,
  Bool-cases, Option-cases,
}
use circleup.Rounds.{group_by_round_index, rows_at, keys, sort_by}
use circleup.Rounds.Index.{is_at, rows_at-group_by_round_index}
use circleup.Rpc.{RpcEvent}
use circleup.Ingest.{EventHandler, Db, Metrics, LedgerResult, returned, raised, process_ledger}
use circleup.Ingest.Tables.{Keeps, process_ledger-keeps}
use circleup.Poll.{PollConfig, polled, poll_failed, handler_failed, Routed, Sources}
use circleup.Poll.Gather.{Gathered, gathered, gather_failed, gather, route_all, sort_routed}
use circleup.Poll.Gather.Laws.{All-sort_routed}
use circleup.Poll.Ledgers.{
  ledger_of, Polled, trailing, after_ledger, run_ledgers, run_window, process_events,
}

All-keep : {A : Type 0} (P : A → Type 0) (p : A → Bool) (xs : List A) → All P xs → All P (keep p xs)
All-keep P p [] h = tt
All-keep P p (x ∷ xs) (h, hs) = elim (Bool-cases (p x)) [
  | inl e ↦ rw (keep-true p x xs e) (h, All-keep P p xs hs)
  | inr e ↦ rw (keep-false p x xs e) (All-keep P p xs hs)
]

module _ {T : Type 0} (P : T → Type 0) (sources : Sources T) where
  -- The tables that a poll leaves.
  abbrev Holds : Polled T → Type 0
  Holds r = P r.0.tables

  module _ (to_ledger : ℕ) where
    trailing-Holds :
        (last seen lost : ℕ) (db : Db T) (m : Metrics)
        → P db.tables
        → Holds (trailing sources to_ledger last seen lost db m)
    unfolding trailing
    trailing-Holds last seen lost db m p = elim (Bool-cases sources.stop_trailing) [
      | inl s ↦ rw s p
      | inr s ↦ elim (Bool-cases (ltb last to_ledger)) [
        | inr ge ↦ rw (s, ge) p
        | inl lt ↦
            rw (s, lt)
              (finished (process_ledger to_ledger [] db m)
                (process_ledger-keeps P to_ledger [] db m tt p))
      ]
    ]
      where
        finished :
            (ran : Db T × Metrics × LedgerResult)
            → P ran.0.tables
            → Holds (elim ran.2 [
              | returned p f ↦ (ran.0, ran.1, polled seen lost)
              | raised err ↦ (ran.0, ran.1, poll_failed (handler_failed err))
            ])
        finished (db', m', returned q f) k = k
        finished (db', m', raised err) k = k

    after_ledger-Holds :
        (rest : ℕ → ℕ → Db T → Metrics → Polled T) (seen lost : ℕ)
        → ((seen' lost' : ℕ) (db : Db T) (m : Metrics)
            → P db.tables
            → Holds (rest seen' lost' db m))
        → (ran : Db T × Metrics × LedgerResult) → P ran.0.tables
        → Holds (after_ledger sources to_ledger rest seen lost ran)
    unfolding after_ledger
    after_ledger-Holds rest seen lost k (db, m, returned q f) p = k (seen + q) (lost + f) db m p
    after_ledger-Holds rest seen lost k (db, m, raised err) p = p

    module _ (items_at : ℕ → List (EventHandler T))
        (safe : (l : ℕ) → All (Keeps P) (items_at l)) where
      run_ledgers-Holds :
          (last : ℕ) (ls : List ℕ) (seen lost : ℕ) (db : Db T) (m : Metrics)
          → P db.tables
          → Holds (run_ledgers sources to_ledger items_at last ls seen lost db m)
      unfolding run_ledgers
      run_ledgers-Holds last [] seen lost db m p = trailing-Holds last seen lost db m p
      run_ledgers-Holds last (l ∷ ls) seen lost db m p = elim (Bool-cases (sources.stop_ledger l)) [
        | inl s ↦ rw s p
        | inr s ↦ rw s (
            after_ledger-Holds (run_ledgers sources to_ledger items_at l ls) seen lost
              (run_ledgers-Holds l ls) (process_ledger l (items_at l) db m)
              (process_ledger-keeps P l (items_at l) db m (safe l) p))
      ]

  -- The routing gives only handlers that keep `P`.
  abbrev pub Routes : Type 0
  Routes = (ev : RpcEvent) (item : EventHandler T) → sources.route ev ≡ some item → Keeps P item

  module _ (routes : Routes) where
    route_all-Keeps :
        (events : List RpcEvent) → All (λ r. Keeps P r.item) (route_all sources events)
    unfolding route_all
    route_all-Keeps [] = tt
    route_all-Keeps (ev ∷ events) = elim (Option-cases (sources.route ev)) [
      | inl e ↦ rw e (route_all-Keeps events)
      | inr (item, e) ↦ rw e (routes ev item e, route_all-Keeps events)
    ]

    items-Keeps :
        (rs : List (Routed T)) → All (λ r. Keeps P r.item) rs → All (Keeps P) (map (λ r. r.item) rs)
    items-Keeps [] h = tt
    items-Keeps (r ∷ rs) (h, hs) = (h, items-Keeps rs hs)

    module _ (config : PollConfig) (from_ledger to_ledger : ℕ) where
      run_window-Holds :
          (db : Db T) (m : Metrics) (g : Gathered)
          → P db.tables
          → Holds (run_window config sources from_ledger to_ledger db m g)
      unfolding run_window
      run_window-Holds db m (gather_failed e) p = p
      run_window-Holds db m (gathered events) p =
          let routed = sort_routed sources (route_all sources events) in
          let by_ledger = group_by_round_index ledger_of routed in
          run_ledgers-Holds to_ledger (λ l. map (λ (r : Routed T). r.item) (rows_at l by_ledger))
            (λ l. items-Keeps (rows_at l by_ledger) (
              rw (rows_at-group_by_round_index ledger_of routed l) (
                All-keep (λ r. Keeps P r.item) (is_at ledger_of l) routed
                  (All-sort_routed sources (λ r. Keeps P r.item) (route_all sources events)
                    (route_all-Keeps events)))))
            0 (sort_by (λ l. l) (keys by_ledger)) 0 0 db m p

      pub process_events-Holds :
          (db : Db T) (m : Metrics)
          → P db.tables
          → P (process_events config sources from_ledger to_ledger db m).0.tables
      unfolding process_events
      process_events-Holds db m p =
          run_window-Holds db m (gather config sources from_ledger to_ledger db.tables) p
