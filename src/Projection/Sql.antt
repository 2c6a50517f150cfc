-- ===== src/Projection/Sql.antt =====
-- The statements of Postgres on a table that is a list of rows.
pub mod Laws
pub mod Twice
use circleup.Prelude.{Bool, true, false, List, [], ◌∷◌, ◌++◌, map, any, if◌then◌else◌}
use circleup.Failures.{HandlerError}
use circleup.Ingest.{Handled, done, threw}

module _ {A : Type 0} where
  -- INSERT ... ON CONFLICT DO NOTHING
  unfoldable pub insert_unless : (A → A → Bool) → A → List A → List A
  insert_unless same row rows = if any (λ r. same r row) rows then rows else rows ++ row ∷ []

  -- INSERT ... ON CONFLICT DO UPDATE
  unfoldable pub upsert : (A → A → Bool) → (A → A) → A → List A → List A
  upsert same f row [] = row ∷ []
  upsert same f row (r ∷ rs) =
      let rest = upsert same f row rs in if same r row then f r ∷ rs else r ∷ rest

  -- UPDATE ... WHERE
  unfoldable pub update_where : (A → Bool) → (A → A) → List A → List A
  update_where p f rows = map (λ r. if p r then f r else r) rows

-- One statement after another.
module _ {T : Type 0} where
  infixl 5 ◌then_do◌
  abbrev pub ◌then_do◌ : Handled T → (T → Handled T) → Handled T
  (done t) then_do next = next t
  (threw e) then_do next = threw e
