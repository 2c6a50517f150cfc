-- ===== src/Reconcile/Report/Laws.antt =====
-- indexer/src/circleReconciliation.ts, `reconcileCircle`: when a report is a match.
use circleup.Prelude.{
  ℕ, ◌*◌, max, ◌≡◌, ◌↔◌, ◌⊎◌, refl, sym, ◌∙◌, Bool, true, false, ◌&&◌, Option, none, some, List, [],
  ◌∷◌, ◌++◌, map, length, get_elem?, ◌==◌, ==_iff, All, arith,
}
use circleup.Reconcile.{
  IndexedCircle, IndexedPayout, IndexedCircleSource, ReconcileField, Classification, CircleMismatch,
  match,
}
use circleup.Reconcile.Compare.{
  same_amount, member_order_differs, status_matches, paused_matches, recipient_matches,
  amount_matches, expected_payouts,
}
use circleup.Reconcile.Compare.Laws.{
  is_nil, same_text_iff, same_amount_iff, SlotsAgree, member_order_iff, StatusAgrees,
  status_matches_iff, paused_matches_iff, PayoutAgrees, amount_matches_iff,
}
use circleup.Reconcile.Report.{
  ChainView, unless, unless_at, static_mismatches, payout_mismatches, count_mismatches,
  round_mismatches, all_mismatches, outcome_of,
}

is_nil-append : {A : Type 0} (xs ys : List A) → is_nil (xs ++ ys) ≡ (is_nil xs && is_nil ys)
is_nil-append [] ys = refl
is_nil-append (x ∷ xs) ys = refl

is_nil-map : {A B : Type 0} (f : A → B) (xs : List A) → is_nil (map f xs) ≡ is_nil xs
is_nil-map f [] = refl
is_nil-map f (x ∷ xs) = refl

is_nil-unless :
    (class : Classification) (b : Bool) (f : ReconcileField) → is_nil (unless class b f) ≡ b
is_nil-unless class true f = refl
is_nil-unless class false f = refl

is_nil-unless_at :
    (class : Classification) (b : Bool) (f : ReconcileField) (k : ℕ)
    → is_nil (unless_at class b f k) ≡ b
is_nil-unless_at class true f k = refl
is_nil-unless_at class false f k = refl

pub outcome_of_iff : (ms : List CircleMismatch) → (outcome_of ms ≡ match) ↔ (is_nil ms ≡ true)
outcome_of_iff [] = (λ h. refl, λ h. refl)
outcome_of_iff (m ∷ ms) = (λ h. ground (arith, h), λ h. ground (arith, h))

-- The members, the amount, the status and the pause of a circle are the chain's.
abbrev StaticAgrees : IndexedCircle → ChainView → IndexedCircleSource → Type 0
StaticAgrees circle chain source =
    SlotsAgree chain.rotation source.members (max (length chain.rotation) (length source.members))
    × (circle.member_count ≡ length chain.rotation)
    × (circle.round_amount ≡ some chain.round_amount)
    × StatusAgrees circle.status chain.closed chain.status
    × ((circle.paused ≡ none) ⊎ (circle.paused ≡ some chain.paused))

-- Where the chain has a number, the indexer has the same.
abbrev pub IfSome : Option ℕ → ℕ → Type 0
IfSome none n = Unit
IfSome (some m) n = n ≡ m

-- The indexer's circle and its pay-outs are what the chain says.
abbrev pub Agrees : IndexedCircle → ChainView → IndexedCircleSource → Option ℕ → Type 0
Agrees circle chain source round =
    StaticAgrees circle chain source
    × IfSome round circle.current_round
    × IfSome (expected_payouts chain.status (length chain.rotation) round) (length source.payouts)
    × All (PayoutAgrees chain.rotation (chain.round_amount * length chain.rotation)) source.payouts

five :
    (a b c d e : Bool)
    → (a && b && c && d && e) ≡ true
    → (a ≡ true) × (b ≡ true) × (c ≡ true) × (d ≡ true) × (e ≡ true)
five a b c d e h = ground (arith, h)

three : (a b c : Bool) → (a && b && c) ≡ true → (a ≡ true) × (b ≡ true) × (c ≡ true)
three a b c h = ground (arith, h)

three_true : {a b c : Bool} → a ≡ true → b ≡ true → c ≡ true → (a && b && c) ≡ true
three_true ha hb hc = ground (arith, ha, hb, hc)

four :
    (a b c d : Bool) → (a && b && c && d) ≡ true → (a ≡ true) × (b ≡ true) × (c ≡ true) × (d ≡ true)
four a b c d h = ground (arith, h)

four_true : {a b c d : Bool} → a ≡ true → b ≡ true → c ≡ true → d ≡ true → (a && b && c && d) ≡ true
four_true ha hb hc hd = ground (arith, ha, hb, hc, hd)

five_true :
    {a b c d e : Bool}
    → a ≡ true
    → b ≡ true
    → c ≡ true
    → d ≡ true
    → e ≡ true
    → (a && b && c && d && e) ≡ true
five_true ha hb hc hd he = ground (arith, ha, hb, hc, hd, he)

module _ (class : Classification) where
  static_nil :
      (circle : IndexedCircle) (chain : ChainView) (source : IndexedCircleSource)
      → is_nil (static_mismatches class circle chain source.members) ≡ (
          is_nil (member_order_differs chain.rotation source.members)
          && (circle.member_count == length chain.rotation)
          && same_amount circle.round_amount chain.round_amount
          && status_matches circle.status chain.closed chain.status
          && paused_matches circle.paused chain.paused)
  unfolding static_mismatches
  static_nil circle chain source = simp (is_nil-append, is_nil-map, is_nil-unless) refl

  static_iff :
      (circle : IndexedCircle) (chain : ChainView) (source : IndexedCircleSource)
      → (is_nil (static_mismatches class circle chain source.members) ≡ true)
        ↔ StaticAgrees circle chain source
  unfolding static_mismatches
  static_iff circle chain source =
      let (order_to, order_from) = member_order_iff chain.rotation source.members in
      let (count_to, count_from) = ==_iff circle.member_count (length chain.rotation) in
      let (amount_to, amount_from) = same_amount_iff circle.round_amount chain.round_amount in
      let (status_to, status_from) = status_matches_iff circle.status chain.closed chain.status in
      let (paused_to, paused_from) = paused_matches_iff circle.paused chain.paused in
      let all = static_nil circle chain source in
      (
        λ h.
            let (a, b, c, d, e) = five _ _ _ _ _ (sym all ∙ h) in
            (order_to a, count_to b, amount_to c, status_to d, paused_to e),
        λ (a, b, c, d, e).
            all
            ∙ five_true (order_from a) (count_from b) (amount_from c) (status_from d)
                (paused_from e),
      )

  round_iff :
      (circle : IndexedCircle) (round : Option ℕ)
      → (is_nil (round_mismatches class circle round) ≡ true) ↔ IfSome round circle.current_round
  round_iff circle none = (λ h. tt, λ h. refl)
  round_iff circle (some n) = ground arith

  count_iff :
      (expected : Option ℕ) (payouts : List IndexedPayout)
      → (is_nil (count_mismatches class expected payouts) ≡ true) ↔ IfSome expected (length payouts)
  count_iff none payouts = (λ h. tt, λ h. refl)
  count_iff (some n) payouts = ground arith

  payout_nil :
      (chain : ChainView) (p : IndexedPayout) (ps : List IndexedPayout)
      → is_nil (payout_mismatches class chain (p ∷ ps)) ≡ (
          recipient_matches chain.rotation p
          && amount_matches (chain.round_amount * length chain.rotation) p
          && is_nil (payout_mismatches class chain ps))
  unfolding payout_mismatches
  payout_nil chain p ps = simp (is_nil-append, is_nil-unless_at) refl

  payouts_iff :
      (chain : ChainView) (payouts : List IndexedPayout)
      → (is_nil (payout_mismatches class chain payouts) ≡ true)
        ↔ All (PayoutAgrees chain.rotation (chain.round_amount * length chain.rotation)) payouts
  unfolding payout_mismatches
  payouts_iff chain [] = (λ h. tt, λ h. refl)
  payouts_iff chain (p ∷ ps) =
      let pot = chain.round_amount * length chain.rotation in
      let (turn_to, turn_from) =
        same_text_iff (some p.recipient) (get_elem? chain.rotation p.round_index) in
      let (amount_to, amount_from) = amount_matches_iff pot p in
      let (rest_to, rest_from) = payouts_iff chain ps in
      let all = payout_nil chain p ps in
      (
        λ h.
            let (a, b, c) = three _ _ _ (sym all ∙ h) in
            ((sym (turn_to a), amount_to b), rest_to c),
        λ ((a, b), c). all ∙ three_true (turn_from (sym a)) (amount_from b) (rest_from c),
      )

  all_nil :
      (circle : IndexedCircle) (chain : ChainView) (source : IndexedCircleSource) (round : Option ℕ)
      → is_nil (all_mismatches class circle chain source round) ≡ (
          is_nil (static_mismatches class circle chain source.members)
          && is_nil (round_mismatches class circle round)
          && is_nil (
              count_mismatches class
                (expected_payouts chain.status (length chain.rotation) round)
                source.payouts)
          && is_nil (payout_mismatches class chain source.payouts))
  unfolding all_mismatches
  all_nil circle chain source round = simp is_nil-append refl

  pub all_iff :
      (circle : IndexedCircle) (chain : ChainView) (source : IndexedCircleSource) (round : Option ℕ)
      → (is_nil (all_mismatches class circle chain source round) ≡ true)
        ↔ Agrees circle chain source round
  unfolding all_mismatches
  all_iff circle chain source round =
      let (static_to, static_from) = static_iff circle chain source in
      let (round_to, round_from) = round_iff circle round in
      let (count_to, count_from) =
        count_iff (expected_payouts chain.status (length chain.rotation) round) source.payouts in
      let (payouts_to, payouts_from) = payouts_iff chain source.payouts in
      let all = all_nil circle chain source round in
      (
        λ h.
            let (a, b, c, d) = four _ _ _ _ (sym all ∙ h) in
            (static_to a, round_to b, count_to c, payouts_to d),
        λ (a, b, c, d).
            all ∙ four_true (static_from a) (round_from b) (count_from c) (payouts_from d),
      )
