-- ===== src/Export/Traces.antt =====
-- The encoders of src/export.rs as traces: the pieces handed to `write_all`, in their order, and
-- how the encoder ends when none of them fails.
use dbotter.Prelude.{◌≡◌, refl, List, [], ◌∷◌, ◌++◌, Result, ok, err}
use mathlib.Core.List.{append_assoc}
use dbotter.Text.{Text}

pub data ExportEncodeError : Type 0 where
  cancelled io tabular_result_required invalid_row_width invalid_completed_at : ExportEncodeError

pub record Trace {ℓ} (A : Type ℓ) : Type ℓ where
  pub pieces : List Text
  pub outcome : Result ExportEncodeError A

abbrev pub Done : Type 0
Done = Trace (Unit {0})

-- `writer.write_all(piece)?`.
abbrev pub write_all : Text → Done
write_all piece = record { pieces = piece ∷ []; outcome = ok tt }

abbrev pub write_pieces : List Text → Done
write_pieces ps = record { pieces = ps; outcome = ok tt }

abbrev pub fail {ℓ} : {A : Type ℓ} → ExportEncodeError → Trace A
fail e = record { pieces = []; outcome = err e }

abbrev pub give {ℓ} : {A : Type ℓ} → A → Trace A
give a = record { pieces = []; outcome = ok a }

-- What an encoder does after its first part: nothing once that has failed.
abbrev pub follow {ℓ κ} :
    {A : Type ℓ} {B : Type κ} → List Text → Result ExportEncodeError A → (A → Trace B) → Trace B
follow ps (ok a) f = record { pieces = ps ++ (f a).pieces; outcome = (f a).outcome }
follow ps (err e) f = record { pieces = ps; outcome = err e }

infixl 5 ◌>>=◌ ◌>>◌
abbrev pub ◌>>=◌ {ℓ κ} : {A : Type ℓ} {B : Type κ} → Trace A → (A → Trace B) → Trace B
t >>= f = follow t.pieces t.outcome f

abbrev pub ◌>>◌ {ℓ κ} : {A : Type ℓ} {B : Type κ} → Trace A → Trace B → Trace B
t >> u = t >>= λ _. u

-- The document that the pieces make up.
abbrev pub concat : List Text → Text
concat [] = []
concat (p ∷ ps) = p ++ concat ps

pub concat-append : (ps qs : List Text) → concat (ps ++ qs) ≡ concat ps ++ concat qs
concat-append [] qs = refl
concat-append (p ∷ ps) qs = rw (concat-append ps qs, append_assoc)
