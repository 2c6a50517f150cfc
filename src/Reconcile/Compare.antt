-- ===== src/Reconcile/Compare.antt =====
-- indexer/src/circleReconciliation.ts: the comparisons, each as the keys at which it finds a difference.
pub mod Laws
use circleup.Prelude.{
  ℕ, zero, suc, ◌+◌, ◌*◌, max, String, Bool, true, false, not, ◌&&◌, ◌||◌, Option, none, some, List,
  [], ◌∷◌, ◌++◌, length, get_elem?, is_some, ◌==◌, if◌then◌else◌, str_eq,
}
use circleup.Reconcile.{IndexedCircle, IndexedMember, IndexedPayout}

-- `a !== b` of two optional texts.
abbrev pub same_text : Option String → Option String → Bool
same_text none none = true
same_text (some s) (some t) = str_eq s t
same_text _ _ = false

abbrev pub same_amount : Option ℕ → ℕ → Bool
same_amount none n = false
same_amount (some m) n = m == n

abbrev pub same_bool : Bool → Bool → Bool
same_bool true b = b
same_bool false b = not b

-- `new Map(members.map(...)).get(i)`: the last row of that order.
unfoldable pub by_order : ℕ → List IndexedMember → Option String
by_order i [] = none
by_order i (m ∷ ms) =
    let later = by_order i ms in
    if is_some later then later else if m.payout_order == i then some m.member_address else none

-- The slots from `i` on, `count` of them, that differ.
unfoldable pub slots_that_differ : List String → List IndexedMember → ℕ → ℕ → List ℕ
unfolding by_order
slots_that_differ rotation members i zero = []
slots_that_differ rotation members i (suc count) =
    let rest = slots_that_differ rotation members (suc i) count in
    if same_text (by_order i members) (get_elem? rotation i) then rest else i ∷ rest

unfoldable pub member_order_differs : List String → List IndexedMember → List ℕ
unfolding slots_that_differ
member_order_differs rotation members =
    slots_that_differ rotation members 0 (max (length rotation) (length members))

-- The indexer's Closed stands for a closed contract in either final status.
unfoldable pub status_matches : String → Bool → String → Bool
status_matches indexed chain_closed chain_status =
    if str_eq indexed "Closed"
    then chain_closed && (str_eq chain_status "Completed" || str_eq chain_status "Cancelled")
    else not chain_closed && str_eq indexed chain_status

-- `circle.paused !== null && circle.paused !== chainPaused`, denied
abbrev pub paused_matches : Option Bool → Bool → Bool
paused_matches none chain = true
paused_matches (some b) chain = same_bool b chain

-- `!p.is_exceptional`
abbrev pub is_normal : Option Bool → Bool
is_normal none = true
is_normal (some b) = not b

abbrev pub recipient_matches : List String → IndexedPayout → Bool
recipient_matches rotation p = same_text (some p.recipient) (get_elem? rotation p.round_index)

abbrev pub amount_matches : ℕ → IndexedPayout → Bool
amount_matches full_pot p = not (is_normal p.is_exceptional) || same_amount p.amount full_pot

-- Rounds paid so far, as far as the status and the round tell.
unfoldable pub expected_payouts : String → ℕ → Option ℕ → Option ℕ
expected_payouts chain_status members round =
    if str_eq chain_status "Completed"
    then some members
    else if str_eq chain_status "Cancelled"
    then some 0
    else round
