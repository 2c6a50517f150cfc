-- ===== src/Projection/View/Laws.antt =====
-- What the statements on circles do to the view of every circle.
pub mod Circles
pub mod Handlers
use circleup.Prelude.{
  ℕ, ◌+◌, ◌≡◌, refl, ◌∙◌, sym, ap, String, Bool, true, false, Option, none, some, List, [], ◌∷◌,
  ◌||◌, if◌then◌else◌, str_eq, eq_iff, arith, Bool-cases, inl, inr,
}
use circleup.Ingest.{Handled, done, threw}
use circleup.Projection.Sql.{◌then_do◌}
use circleup.Projection.Statements.{update_circle, upsert_circle}
use circleup.Projection.Outcome.{OnDone, OnDone-then_do}
use circleup.Projection.{CircleRow, Tables, same_circle}
use circleup.Projection.Sql.{upsert, update_where}
use circleup.Projection.View.{
  CircleView, Move, opens, stays, becomes, goes_to, pauses, move, moved, view_of, find_view, view,
}

str_eq_sym : (a b : String) → str_eq a b ≡ str_eq b a
str_eq_sym a b = elim (Bool-cases (str_eq a b)) [
  | inl e ↦ e ∙ sym ((eq_iff b a).1 (sym ((eq_iff a b).0 e)))
  | inr e ↦ elim (Bool-cases (str_eq b a)) [
    | inl f ↦ (eq_iff a b).1 (sym ((eq_iff b a).0 f)) ∙ sym f
    | inr f ↦ e ∙ sym f
  ]
]

module _ (target : String) (f : CircleRow → CircleRow) (m : Move)
    (keeps : (c : CircleRow) → (f c).address ≡ c.address)
    (moves : (c : CircleRow) → some (view_of (f c)) ≡ move m (some (view_of c))) where
  found :
      (c : CircleRow) (a : String)
      → str_eq c.address target ≡ false
      → str_eq c.address a ≡ true
      → str_eq target a ≡ false
  found c a e k = elim (Bool-cases (str_eq target a)) [
    | inr n ↦ n
    | inl y ↦ ground (
      arith,
      e,
      (eq_iff c.address target).1 ((eq_iff c.address a).0 k ∙ sym ((eq_iff target a).0 y)),
    )
  ]

  find_view-update_where :
      move m none ≡ none
      → (a : String) (cs : List CircleRow)
      → find_view a (update_where (λ c. str_eq c.address target) f cs)
        ≡ moved (some target) m a (find_view a cs)
  unfolding find_view update_where
  find_view-update_where h a [] = ground (arith, h)
  find_view-update_where h a (c ∷ cs) = elim (Bool-cases (str_eq c.address target)) [
    | inl e ↦
        let same : str_eq target a ≡ str_eq c.address a =
          ap (λ b. str_eq b a) (sym ((eq_iff c.address target).0 e)) in
        elim (Bool-cases (str_eq c.address a)) [
          | inl k ↦ rw (e, keeps c, k, same ∙ k) (moves c)
          | inr k ↦
              rw (e, keeps c, k, same ∙ k) (find_view-update_where h a cs ∙ rw (same ∙ k) refl)
        ]
    | inr e ↦ elim (Bool-cases (str_eq c.address a)) [
      | inl k ↦ rw (e, k, found c a e k) refl
      | inr k ↦ rw (e, k) (find_view-update_where h a cs)
    ]
  ]

  find_view-upsert :
      (row : CircleRow)
      → row.address ≡ target
      → some (view_of row) ≡ move m none
      → (a : String) (cs : List CircleRow)
      → find_view a (upsert same_circle f row cs) ≡ moved (some target) m a (find_view a cs)
  unfolding find_view upsert
  find_view-upsert row r new a [] = rw (r, new) refl
  find_view-upsert row r new a (c ∷ cs) = elim (Bool-cases (str_eq c.address target)) [
    | inl e ↦
        let same : str_eq target a ≡ str_eq c.address a =
          ap (λ b. str_eq b a) (sym ((eq_iff c.address target).0 e)) in
        elim (Bool-cases (str_eq c.address a)) [
          | inl k ↦ rw (r, e, keeps c, k, same ∙ k) (moves c)
          | inr k ↦ rw (r, e, keeps c, k, same ∙ k) refl
        ]
    | inr e ↦ elim (Bool-cases (str_eq c.address a)) [
      | inl k ↦ rw (r, e, k, found c a e k) refl
      | inr k ↦ rw (r, e, k) (find_view-upsert row r new a cs)
    ]
  ]

-- Every circle is afterwards what the move makes of it.
abbrev pub Refines : Option String → Move → (Tables → Handled Tables) → Type 0
Refines target m f =
    (t : Tables) → OnDone (λ t'. (a : String) → view t' a ≡ moved target m a (view t a)) (f t)

pub update_circle-Refines :
    (target : String) (f : CircleRow → CircleRow) (m : Move)
    → ((c : CircleRow) → (f c).address ≡ c.address)
    → ((c : CircleRow) → some (view_of (f c)) ≡ move m (some (view_of c)))
    → move m none ≡ none
    → Refines (some target) m (update_circle target f)
unfolding update_circle
update_circle-Refines target f m keeps moves h t a =
    find_view-update_where target f m keeps moves h a t.circles

pub upsert_circle-Refines :
    (f : CircleRow → CircleRow) (m : Move) (row : CircleRow)
    → ((c : CircleRow) → (f c).address ≡ c.address)
    → ((c : CircleRow) → some (view_of (f c)) ≡ move m (some (view_of c)))
    → some (view_of row) ≡ move m none
    → Refines (some row.address) m (upsert_circle f row)
unfolding upsert_circle
upsert_circle-Refines f m row keeps moves new t a =
    find_view-upsert row.address f m keeps moves row refl new a t.circles

move_stays : (v : Option CircleView) → v ≡ move stays v
move_stays none = refl
move_stays (some v) = refl

moved_stays :
    (target : Option String) (a : String) (v : Option CircleView) → v ≡ moved target stays a v
moved_stays none a v = refl
moved_stays (some target) a v = elim (Bool-cases (str_eq target a)) [
  | inl e ↦ rw e (move_stays v)
  | inr e ↦ rw e refl
]

-- What leaves the circles alone moves none.
abbrev pub LeavesCircles : (Tables → Handled Tables) → Type 1
LeavesCircles f =
    (Q : List CircleRow → Type 0) (t : Tables) → Q t.circles → OnDone (λ t'. Q t'.circles) (f t)

pub LeavesCircles-Refines :
    (target : Option String) (f : Tables → Handled Tables)
    → LeavesCircles f
    → Refines target stays f
LeavesCircles-Refines target f leaves t =
    leaves (λ cs. (a : String) → find_view a cs ≡ moved target stays a (view t a)) t
      (λ a. moved_stays target a (view t a))

pub then_do-Refines :
    (target : Option String) (m : Move) (first next : Tables → Handled Tables)
    → Refines target m first
    → LeavesCircles next
    → Refines target m (λ t. first t then_do next)
then_do-Refines target m first next h leaves t =
    let P : Tables → Type 0 = λ t'. (a : String) → view t' a ≡ moved target m a (view t a) in
    OnDone-then_do P P (first t) next (h t)
      (λ t' k. leaves (λ cs. (a : String) → find_view a cs ≡ moved target m a (view t a)) t' k)
