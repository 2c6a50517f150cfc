-- ===== src/Projection/Sql/Twice.antt =====
-- The three statements on a table that they have already changed.
use circleup.Prelude.{
  ◌≡◌, refl, ◌∙◌, ap, Bool, true, inl, inr, List, [], ◌∷◌, ◌++◌, any, arith, Bool-cases,
}
use circleup.Projection.Sql.{insert_unless, upsert, update_where}

module _ {A : Type 0} (same : A → A → Bool) where
  any-append_self :
      (row : A) (rows : List A)
      → same row row ≡ true
      → any (λ r. same r row) (rows ++ row ∷ []) ≡ true
  any-append_self row [] h = ground (arith, h)
  any-append_self row (r ∷ rs) h = ground (arith, any-append_self row rs h)

  pub any-insert_unless_self :
      (row : A) (rows : List A)
      → same row row ≡ true
      → any (λ r. same r row) (insert_unless same row rows) ≡ true
  unfolding insert_unless
  any-insert_unless_self row rows h = elim (Bool-cases (any (λ r. same r row) rows)) [
    | inl e ↦ rw (e, e) refl
    | inr e ↦ rw e (any-append_self row rows h)
  ]

  pub any-upsert_self :
      (f : A → A) (row : A)
      → same row row ≡ true
      → ((r : A) → same (f r) row ≡ same r row)
      → (rows : List A) → any (λ r. same r row) (upsert same f row rows) ≡ true
  unfolding upsert
  any-upsert_self f row own keeps [] = ground (arith, own)
  any-upsert_self f row own keeps (r ∷ rs) = elim (Bool-cases (same r row)) [
    | inl e ↦ rw (e, keeps r ∙ e) refl
    | inr e ↦ rw (e, e) (any-upsert_self f row own keeps rs)
  ]

  module _ (f : A → A) (row : A) (settled : f row ≡ row) (twice : (r : A) → f (f r) ≡ f r)
      (own : same row row ≡ true) (keeps : (r : A) → same (f r) row ≡ same r row) where
    pub upsert_twice :
        (rows : List A) → upsert same f row (upsert same f row rows) ≡ upsert same f row rows
    unfolding upsert
    upsert_twice [] = rw (own, settled) refl
    upsert_twice (r ∷ rs) = elim (Bool-cases (same r row)) [
      | inl e ↦ rw (e, keeps r ∙ e, twice r) refl
      | inr e ↦ rw (e, e) (ap (λ rest. r ∷ rest) (upsert_twice rs))
    ]

pub update_where_twice :
    {A : Type 0} (p : A → Bool) (f : A → A)
    → ((r : A) → f (f r) ≡ f r)
    → ((r : A) → p (f r) ≡ p r)
    → (rows : List A) → update_where p f (update_where p f rows) ≡ update_where p f rows
unfolding update_where
update_where_twice p f twice keeps [] = refl
update_where_twice p f twice keeps (r ∷ rs) = elim (Bool-cases (p r)) [
  | inl e ↦
      rw (e, keeps r ∙ e, twice r) (ap (λ rest. f r ∷ rest) (update_where_twice p f twice keeps rs))
  | inr e ↦ rw (e, e) (ap (λ rest. r ∷ rest) (update_where_twice p f twice keeps rs))
]

-- Another statement does the same as a third one, where they agree on the rows that were changed.
pub update_where_after :
    {A : Type 0} (p : A → Bool) (f g h : A → A)
    → ((r : A) → g (f r) ≡ h (f r))
    → ((r : A) → p (f r) ≡ p r)
    → (rows : List A)
    → update_where p g (update_where p f rows) ≡ update_where p h (update_where p f rows)
unfolding update_where
update_where_after p f g h same keeps [] = refl
update_where_after p f g h same keeps (r ∷ rs) = elim (Bool-cases (p r)) [
  | inl e ↦
      rw (e, keeps r ∙ e, same r)
        (ap (λ rest. h (f r) ∷ rest) (update_where_after p f g h same keeps rs))
  | inr e ↦ rw (e, e) (ap (λ rest. r ∷ rest) (update_where_after p f g h same keeps rs))
]
