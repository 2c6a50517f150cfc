-- ===== src/Reconcile/Report/Match.antt =====
-- indexer/src/circleReconciliation.ts, `reconcileCircle`: when a report says match.
use circleup.Prelude.{
  ℕ, ◌≡◌, ◌↔◌, inl, inr, refl, String, Bool, false, ◌&&◌, Option, none, some, List, [], any,
  if◌then◌else◌, arith, Bool-cases,
}
use circleup.Reconcile.{
  ChainReadResult, ok, not_ok, rpc_failed, contract_error, ChainReader, IndexedCircle,
  IndexedCircleSource, match, UnavailableRead,
}
use circleup.Reconcile.Report.{
  ChainView, all_mismatches, has_round, round_unread, compared, interrupted, after_round,
  compare_with_round, chain_view, failed_reads, after_view, after_ledger, report_on, is_rpc,
}
use circleup.Reconcile.Report.Laws.{Agrees, outcome_of_iff, all_iff}

-- The round, as far as it was read.
abbrev round_read : ChainReadResult (Option ℕ) → Option ℕ
round_read (ok v) = v
round_read (not_ok f) = none

abbrev pub round_seen : String → ChainReadResult (Option ℕ) → Option ℕ
round_seen s read = if has_round s then round_read read else none

abbrev is_lost : ChainReadResult (Option ℕ) → Bool
is_lost (ok v) = false
is_lost (not_ok f) = is_rpc f

module _ (source : IndexedCircleSource) (chain_ledger : ℕ) (circle : IndexedCircle)
    (chain : ChainView) where
  compared_iff :
      (round : Option ℕ) (unavailable : List UnavailableRead)
      → ((compared source chain_ledger circle chain round unavailable).outcome ≡ match)
        ↔ Agrees circle chain source round
  unfolding compared
  compared_iff round unavailable =
      let (nil_to, nil_from) = outcome_of_iff (all_mismatches _ circle chain source round) in
      let (agree_to, agree_from) = all_iff _ circle chain source round in
      (λ h. agree_to (nil_to h), λ a. nil_from (agree_from a))

  after_round_iff :
      (read : ChainReadResult (Option ℕ))
      → ((after_round source chain_ledger circle chain read).outcome ≡ match)
        ↔ ((is_lost read ≡ false) × Agrees circle chain source (round_read read))
  unfolding after_round interrupted
  after_round_iff (not_ok rpc_failed) = (λ h. ground (arith, h), λ (l, a). ground (arith, l))
  after_round_iff (not_ok contract_error) =
      let (to, from) = compared_iff none (round_unread source chain_ledger circle chain) in
      (λ h. (refl, to h), λ (l, a). from a)
  after_round_iff (ok none) =
      let (to, from) = compared_iff none (round_unread source chain_ledger circle chain) in
      (λ h. (refl, to h), λ (l, a). from a)
  after_round_iff (ok (some n)) =
      let (to, from) = compared_iff (some n) [] in (λ h. (refl, to h), λ (l, a). from a)

  compare_with_round_iff :
      (read : ChainReadResult (Option ℕ))
      → ((compare_with_round source chain_ledger circle chain read).outcome ≡ match) ↔ (
          ((has_round chain.status && is_lost read) ≡ false)
          × Agrees circle chain source (round_seen chain.status read))
  unfolding compare_with_round
  compare_with_round_iff read = elim (Bool-cases (has_round chain.status)) [
    | inl e ↦ rw e (after_round_iff read)
    | inr e ↦ let (to, from) = compared_iff none [] in rw e (λ h. (refl, to h), λ (l, a). from a)
  ]

module _ (reader : ChainReader) (source : IndexedCircleSource) where
  -- The chain answered every read that the comparison needs, and the indexer agrees with it.
  abbrev pub IsConfirmed : Type 0
  IsConfirmed =
      (circle : IndexedCircle) × (chain_ledger : ℕ) × (chain : ChainView) × (source.circle
        ≡ some circle)
      × (reader.latest_ledger ≡ some chain_ledger)
      × (any (λ r. is_rpc r.failure) (failed_reads reader) ≡ false)
      × (chain_view reader ≡ some chain)
      × ((has_round chain.status && is_lost reader.get_current_round) ≡ false)
      × Agrees circle chain source (round_seen chain.status reader.get_current_round)

  view_confirms :
      (circle : IndexedCircle) (chain_ledger : ℕ) (v : Option ChainView)
      → source.circle ≡ some circle
      → reader.latest_ledger ≡ some chain_ledger
      → any (λ r. is_rpc r.failure) (failed_reads reader) ≡ false
      → chain_view reader ≡ v
      → (after_view source reader chain_ledger circle v).outcome ≡ match
      → IsConfirmed
  unfolding after_view
  view_confirms circle l none c e r v h = ground (arith, h)
  view_confirms circle l (some chain) c e r v h =
      let (to, from) = compare_with_round_iff source l circle chain reader.get_current_round in
      let (found, agrees) = to h in (circle, l, chain, c, e, r, v, found, agrees)

  ledger_confirms :
      (circle : IndexedCircle) (l : Option ℕ)
      → source.circle ≡ some circle
      → reader.latest_ledger ≡ l
      → (after_ledger source reader circle l).outcome ≡ match
      → IsConfirmed
  unfolding after_ledger
  ledger_confirms circle none c e h = ground (arith, h)
  ledger_confirms circle (some l) c e h =
      elim (Bool-cases (any (λ r. is_rpc r.failure) (failed_reads reader))) [
        | inl down ↦ absurd (ground (arith, h, down))
        | inr up ↦ view_confirms circle l (chain_view reader) c e up refl (ground (arith, h, up))
      ]

  report_confirms :
      (o : Option IndexedCircle)
      → source.circle ≡ o
      → (report_on source reader o).outcome ≡ match
      → IsConfirmed
  unfolding report_on
  report_confirms none c h = ground (arith, h)
  report_confirms (some circle) c h = ledger_confirms circle reader.latest_ledger c refl h

  -- A report says match exactly when the circle is indexed, the chain answered every read that the
  -- comparison needs, and the indexer agrees with it in the order and number of members, the amount,
  -- the status, the pause and every pay-out, and in the round and the number of pay-outs where the
  -- chain tells them; a failure of the RPC is never a match.
  pub report_on_match : ((report_on source reader source.circle).outcome ≡ match) ↔ IsConfirmed
  unfolding report_on after_ledger after_view
  report_on_match = (
    report_confirms source.circle refl,
    λ (circle, l, chain, c, e, r, v, found, agrees).
        let (to, from) = compare_with_round_iff source l circle chain reader.get_current_round in
        simp (c, e, r, v) (from (found, agrees)),
  )
