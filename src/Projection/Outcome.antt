-- ===== src/Projection/Outcome.antt =====
-- What a handler leaves, over a chain of statements.
use circleup.Ingest.{Handled, done, threw}
use circleup.Projection.Sql.{◌then_do◌}

-- What holds of the tables that a handler leaves, if it does not throw.
abbrev pub OnDone : {T : Type 0} → (T → Type 0) → Handled T → Type 0
OnDone P (done t) = P t
OnDone P (threw e) = Unit

pub OnDone-then_do :
    {T : Type 0} (P Q : T → Type 0) (first : Handled T) (next : T → Handled T)
    → OnDone P first
    → ((t : T) → P t → OnDone Q (next t))
    → OnDone Q (first then_do next)
OnDone-then_do P Q (done t) next h k = k t h
OnDone-then_do P Q (threw e) next h k = tt
