-- ===== src/Reconcile/Compare/Laws.antt =====
-- indexer/src/circleReconciliation.ts: what it means that a comparison finds no difference.
use circleup.Prelude.{
  ℕ, zero, suc, ◌+◌, ◌≤◌, ◌<◌, max, ◌≡◌, ◌≢◌, ◌↔◌, ◌⊎◌, inl, inr, refl, ap, String, Bool, true,
  false, Option, none, some, List, [], ◌∷◌, length, get_elem?, ◌==◌, ==_iff, eq_iff, arith,
  Bool-cases,
}
use circleup.Reconcile.{IndexedMember, IndexedPayout}
use circleup.Reconcile.Compare.{
  same_text, same_amount, by_order, slots_that_differ, member_order_differs, status_matches,
  paused_matches, amount_matches,
}

abbrev pub is_nil {ℓ} : {A : Type ℓ} → List A → Bool
is_nil [] = true
is_nil (x ∷ xs) = false

pub same_text_iff : (a b : Option String) → (same_text a b ≡ true) ↔ (a ≡ b)
same_text_iff none none = (λ h. refl, λ h. refl)
same_text_iff none (some t) = (λ h. ground (arith, h), λ h. ground (arith, h))
same_text_iff (some s) none = (λ h. ground (arith, h), λ h. ground (arith, h))
same_text_iff (some s) (some t) =
    (λ h. ap some ((eq_iff s t).0 h), λ h. (eq_iff s t).1 (ground (arith, h)))

pub same_amount_iff : (a : Option ℕ) (n : ℕ) → (same_amount a n ≡ true) ↔ (a ≡ some n)
same_amount_iff none n = (λ h. ground (arith, h), λ h. ground (arith, h))
same_amount_iff (some m) n = (λ h. ground (arith, h), λ h. ground (arith, h))

-- The slots of a range agree.
abbrev pub SlotsAgree : List String → List IndexedMember → ℕ → Type 0
SlotsAgree rotation members n = (i : ℕ) → i < n → by_order i members ≡ get_elem? rotation i

pub slots_agree :
    (rotation : List String) (members : List IndexedMember) (i count : ℕ)
    → is_nil (slots_that_differ rotation members i count) ≡ true
    → (j : ℕ) → i ≤ j
    → j < i + count
    → by_order j members ≡ get_elem? rotation j
unfolding slots_that_differ
slots_agree rotation members i zero h j low high = absurd (omega (arith, low, high))
slots_agree rotation members i (suc count) h j low high =
    elim (Bool-cases (same_text (by_order i members) (get_elem? rotation i))) [
      | inr e ↦ absurd (ground (arith, h, e))
      | inl e ↦ elim (Bool-cases (j == i)) [
        | inl here ↦
            rw ((==_iff j i).0 here)
              ((same_text_iff (by_order i members) (get_elem? rotation i)).0 e)
        | inr later ↦
            slots_agree rotation members (suc i) count (ground (arith, h, e)) j
              (ground (arith, later, low)) (omega (arith, high))
      ]
    ]

pub agree_slots :
    (rotation : List String) (members : List IndexedMember) (i count : ℕ)
    → ((j : ℕ) → i ≤ j → j < i + count → by_order j members ≡ get_elem? rotation j)
    → is_nil (slots_that_differ rotation members i count) ≡ true
unfolding slots_that_differ
agree_slots rotation members i zero h = refl
agree_slots rotation members i (suc count) h =
    let here =
      (same_text_iff (by_order i members) (get_elem? rotation i)).1
        (h i (omega arith) (omega arith)) in
    rw here (
      agree_slots rotation members (suc i) count
        (λ j low high. h j (omega (arith, low)) (omega (arith, high))))

pub member_order_iff :
    (rotation : List String) (members : List IndexedMember)
    → (is_nil (member_order_differs rotation members) ≡ true)
      ↔ SlotsAgree rotation members (max (length rotation) (length members))
unfolding member_order_differs
member_order_iff rotation members =
    let n = max (length rotation) (length members) in
    (
      λ h i low. slots_agree rotation members 0 n h i (omega arith) (omega (arith, low)),
      λ h. agree_slots rotation members 0 n (λ j low high. h j (omega (arith, high))),
    )

-- The indexer's Closed is a closed contract in a final status; any other status is the chain's, of a
-- contract that is not closed.
abbrev pub StatusAgrees : String → Bool → String → Type 0
StatusAgrees indexed chain_closed chain_status =
    ((indexed ≡ "Closed")
      × (chain_closed ≡ true)
      × ((chain_status ≡ "Completed") ⊎ (chain_status ≡ "Cancelled")))
    ⊎ ((indexed ≢ "Closed") × (chain_closed ≡ false) × (indexed ≡ chain_status))

pub status_matches_iff :
    (indexed : String) (chain_closed : Bool) (chain_status : String)
    → (status_matches indexed chain_closed chain_status ≡ true)
      ↔ StatusAgrees indexed chain_closed chain_status
unfolding status_matches
status_matches_iff indexed closed status = ground (
  arith,
  eq_iff indexed "Closed",
  eq_iff status "Completed",
  eq_iff status "Cancelled",
  eq_iff indexed status,
)

pub paused_matches_iff :
    (indexed : Option Bool) (chain : Bool)
    → (paused_matches indexed chain ≡ true) ↔ ((indexed ≡ none) ⊎ (indexed ≡ some chain))
paused_matches_iff none chain = (λ h. inl refl, λ h. refl)
paused_matches_iff (some true) true = (λ h. inr refl, λ h. refl)
paused_matches_iff (some false) false = (λ h. inr refl, λ h. refl)
paused_matches_iff (some true) false = ground arith
paused_matches_iff (some false) true = ground arith

-- A pay-out goes to the member whose turn it is, and is the whole pot unless it is exceptional.
abbrev pub PayoutAgrees : List String → ℕ → IndexedPayout → Type 0
PayoutAgrees rotation full_pot p =
    (get_elem? rotation p.round_index ≡ some p.recipient)
    × ((p.is_exceptional ≡ some true) ⊎ (p.amount ≡ some full_pot))

pub amount_matches_iff :
    (full_pot : ℕ) (p : IndexedPayout)
    → (amount_matches full_pot p ≡ true)
      ↔ ((p.is_exceptional ≡ some true) ⊎ (p.amount ≡ some full_pot))
amount_matches_iff full_pot p = ground (arith, same_amount_iff p.amount full_pot)
