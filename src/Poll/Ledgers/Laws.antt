-- ===== src/Poll/Ledgers/Laws.antt =====
-- indexer/src/indexer.ts, `processEvents`: where the durable cursor stands when a window has ended.
use circleup.Prelude.{
  ℕ, ◌+◌, ◌≤◌, Bool, true, false, List, [], ◌∷◌, map, ltb, if◌then◌else◌, All, ◌≡◌, refl, ◌⊎◌, inl,
  inr, Bool-cases, arith,
}
use circleup.Rounds.{group_by_round_index, rows_at, keys, sort_by}
use circleup.Rounds.Keys.{All-sorted_keys}
use circleup.Ingest.{EventHandler, Db, Metrics, LedgerResult, returned, raised, process_ledger}
use circleup.Ingest.Commit.{process_ledger-Settles, Settles}
use circleup.Poll.{PollConfig, polled, poll_failed, stopped, is_batch_error, Routed, Sources}
use circleup.Poll.Gather.{Gathered, gathered, gather_failed, gather, route_all, sort_routed}
use circleup.Poll.Gather.Laws.{OnGathered, gather-OnGathered, sorted-InsideRouted}
use circleup.Poll.Ledgers.{
  ledger_of, Polled, trailing, after_ledger, run_ledgers, run_window, process_events,
}

module _ {T : Type 0} (from_ledger to_ledger : ℕ) where
  -- A window that was polled ends with the cursor at its last ledger. One that failed has the
  -- database of before, or has the cursor in the window and is no failure of the budget.
  abbrev pub Advances : Db T → Polled T → Type 0
  Advances db (db', m', polled seen lost) = db'.last_ledger ≡ to_ledger
  Advances db (db', m', poll_failed e) =
      (db' ≡ db)
      ⊎ ((is_batch_error e ≡ false)
          × (from_ledger ≤ db'.last_ledger)
          × (db'.last_ledger ≤ to_ledger))

  abbrev Stays : Db T → Polled T → Type 0
  Stays db (db', m', polled seen lost) = db'.last_ledger ≡ to_ledger
  Stays db (db', m', poll_failed e) =
      (is_batch_error e ≡ false)
      × ((db' ≡ db) ⊎ ((from_ledger ≤ db'.last_ledger) × (db'.last_ledger ≤ to_ledger)))

  Stays-Advances : (db : Db T) (r : Polled T) → Stays db r → Advances db r
  Stays-Advances db (db', m', polled seen lost) h = h
  Stays-Advances db (db', m', poll_failed e) (h, inl same) = inl same
  Stays-Advances db (db', m', poll_failed e) (h, inr (low, high)) = inr (h, low, high)

  if-Stays :
      (db : Db T) (b : Bool) (x y : Polled T)
      → Stays db x
      → (b ≡ false → Stays db y)
      → Stays db (if b then x else y)
  if-Stays db true x y h k = h
  if-Stays db false x y h k = k refl

  module _ (sources : Sources T) where
    trailing-Stays :
        (last seen lost : ℕ) (db : Db T) (m : Metrics)
        → 1 ≤ to_ledger
        → last ≤ to_ledger
        → (last ≡ 0) ⊎ (db.last_ledger ≡ last)
        → Stays db (trailing sources to_ledger last seen lost db m)
    unfolding trailing
    trailing-Stays last seen lost db m h k e = elim (Bool-cases sources.stop_trailing) [
      | inl s ↦ rw s (refl, inl refl)
      | inr s ↦ elim (Bool-cases (ltb last to_ledger)) [
        | inl lt ↦ rw (s, lt) refl
        | inr ge ↦ rw (s, ge) (ground (arith, ge, e, k, h))
      ]
    ]

    -- From the database that a ledger of the window left.
    Stays-from :
        (db db1 : Db T) (r : Polled T)
        → (from_ledger ≤ db1.last_ledger) × (db1.last_ledger ≤ to_ledger)
        → Stays db1 r
        → Stays db r
    Stays-from db db1 (db', m', polled seen lost) w h = h
    Stays-from db db1 (db', m', poll_failed e) w (h, inr k) = (h, inr k)
    Stays-from db db1 (db', m', poll_failed e) w (h, inl same) = (h, inr (rw same w))

    after_ledger-Stays :
        (l : ℕ) (items : List (EventHandler T)) (db : Db T) (m : Metrics)
        (rest : ℕ → ℕ → Db T → Metrics → Polled T) (seen lost : ℕ)
        → (from_ledger ≤ l) × (l ≤ to_ledger)
        → ((seen' lost' : ℕ) (db1 : Db T) (m1 : Metrics)
            → db1.last_ledger ≡ l
            → Stays db1 (rest seen' lost' db1 m1))
        → (ran : Db T × Metrics × LedgerResult)
        → (let (db', m', r) = ran in Settles l items db m db' m' r)
        → Stays db (after_ledger sources to_ledger rest seen lost ran)
    unfolding after_ledger
    after_ledger-Stays l items db m rest seen lost w go_on (db1, m1, raised err) (same, _, _) =
        (refl, inl same)
    after_ledger-Stays l items db m rest seen lost w go_on (db1, m1, returned p f)
          (at, _, _, _, _, _, _) =
        Stays-from db db1 (rest (seen + p) (lost + f) db1 m1) (rw at w)
          (go_on (seen + p) (lost + f) db1 m1 at)

    module _ (items_at : ℕ → List (EventHandler T)) where
      run_ledgers-Stays :
          (last : ℕ) (ls : List ℕ) (seen lost : ℕ) (db : Db T) (m : Metrics)
          → 1 ≤ to_ledger
          → last ≤ to_ledger
          → (last ≡ 0) ⊎ (db.last_ledger ≡ last)
          → All (λ l. (from_ledger ≤ l) × (l ≤ to_ledger)) ls
          → Stays db (run_ledgers sources to_ledger items_at last ls seen lost db m)
      unfolding run_ledgers
      run_ledgers-Stays last [] seen lost db m h k e w = trailing-Stays last seen lost db m h k e
      run_ledgers-Stays last (l ∷ ls) seen lost db m h k e (w, ws) =
          if-Stays db (sources.stop_ledger l) (db, m, poll_failed stopped)
            (after_ledger sources to_ledger (run_ledgers sources to_ledger items_at l ls) seen lost
              (process_ledger l (items_at l) db m))
            (refl, inl refl)
            (λ _.
              after_ledger-Stays l (items_at l) db m (run_ledgers sources to_ledger items_at l ls)
                seen lost w
                (λ seen' lost' db1 m1 at.
                  run_ledgers-Stays l ls seen' lost' db1 m1 h w.1 (inr at) ws)
                (process_ledger l (items_at l) db m) (process_ledger-Settles l (items_at l) db m))

module _ {T : Type 0} (config : PollConfig) (sources : Sources T) (from_ledger to_ledger : ℕ) where
  run_window-Advances :
      (db : Db T) (m : Metrics) (g : Gathered)
      → 1 ≤ to_ledger
      → OnGathered config sources from_ledger to_ledger g
      → Advances from_ledger to_ledger db (run_window config sources from_ledger to_ledger db m g)
  unfolding run_window
  run_window-Advances db m (gather_failed e) h k = inl refl
  run_window-Advances db m (gathered events) h k =
      let routed = sort_routed sources (route_all sources events) in
      let by_ledger = group_by_round_index ledger_of routed in
      let items_at = λ (l : ℕ). map (λ (r : Routed T). r.item) (rows_at l by_ledger) in
      let ls = sort_by (λ l. l) (keys by_ledger) in
      Stays-Advances from_ledger to_ledger db (run_ledgers sources to_ledger items_at 0 ls 0 0 db m)
        (run_ledgers-Stays from_ledger to_ledger sources items_at 0 ls 0 0 db m h (omega arith)
          (inl refl)
          (All-sorted_keys (λ l. (from_ledger ≤ l) × (l ≤ to_ledger)) ledger_of routed
            (sorted-InsideRouted config sources from_ledger to_ledger events k)))

  -- Over a window that ends above 0, a poll that succeeds leaves the cursor at the window's end. One
  -- that fails leaves the database as it was, or the cursor within the window, and it is the former
  -- when the budget of the fetch ran out.
  pub process_events_cursor :
      (db : Db T) (m : Metrics)
      → 1 ≤ to_ledger
      → Advances from_ledger to_ledger db (process_events config sources from_ledger to_ledger db m)
  unfolding process_events
  process_events_cursor db m h =
      run_window-Advances db m (gather config sources from_ledger to_ledger db.tables) h
        (gather-OnGathered config sources from_ledger to_ledger db.tables)
