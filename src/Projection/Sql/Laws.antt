-- ===== src/Projection/Sql/Laws.antt =====
-- Tables under the statements: rows that a test finds are still found.
use circleup.Prelude.{◌≡◌, refl, Bool, true, ◌||◌, List, [], ◌∷◌, ◌++◌, any, arith}
use circleup.Projection.Sql.{insert_unless, update_where}

module _ {A : Type 0} where
  any-append :
      (q : A → Bool) (rows more : List A) → any q (rows ++ more) ≡ (any q rows || any q more)
  any-append q [] more = refl
  any-append q (r ∷ rs) more = ground (arith, any-append q rs more)

  pub any-insert_unless :
      (same : A → A → Bool) (q : A → Bool) (row : A) (rows : List A)
      → any q rows ≡ true
      → any q (insert_unless same row rows) ≡ true
  unfolding insert_unless
  any-insert_unless same q row rows h = ground (arith, any-append q rows (row ∷ []), h)

  pub any-update_where :
      (p : A → Bool) (f : A → A) (q : A → Bool)
      → ((r : A) → q (f r) ≡ q r)
      → (rows : List A) → any q (update_where p f rows) ≡ any q rows
  unfolding update_where
  any-update_where p f q keeps [] = refl
  any-update_where p f q keeps (r ∷ rs) = ground (arith, keeps r, any-update_where p f q keeps rs)
