-- ===== src/Main/Reports.antt =====
-- What `poll` has reported, as a condition on the inputs of a handler.
use ipk.Common.{ℕ, List, [], ◌∷◌, none, some, All, ◌≡◌, ◌⊎◌, inl, inr, refl, Bytes}
use ipk.Stream.{Events, failed, timeout, ready}
use ipk.Stream.Methods.{Reported}

-- What `poll` reports at some time.
abbrev pub Came : {I : Type 0} → List (List ℕ × Events I) → Events I → Type 0
Came [] e = ⊥
Came ((signals, x) ∷ more) e = (x ≡ e) ⊎ Came more e

-- A line that the user typed, and a result of the socket.
abbrev pub Typed : {I : Type 0} → List (List ℕ × Events I) → Bytes → Type 0
Typed reports m = Came reports (ready none (some (some m)))

abbrev pub Arrived : {I : Type 0} → List (List ℕ × Events I) → I → Type 0
Arrived reports d = (typed : _) × Came reports (ready (some d) typed)

report-Reported :
    {I : Type 0} (reports : List (List ℕ × Events I)) (e : Events I)
    → Came reports e
    → Reported (Typed reports) (Arrived reports) e
report-Reported reports failed h = tt
report-Reported reports timeout h = tt
report-Reported reports (ready (some d) typed) h = (typed, h)
report-Reported reports (ready none none) h = tt
report-Reported reports (ready none (some none)) h = tt
report-Reported reports (ready none (some (some m))) h = h

-- What is among the reports has been reported.
pub reports-Reported :
    {I : Type 0} (reports some_of : List (List ℕ × Events I))
    → ((e : Events I) → Came some_of e → Came reports e)
    → All (λ r. Reported (Typed reports) (Arrived reports) r.1) some_of
reports-Reported reports [] f = tt
reports-Reported reports ((signals, e) ∷ more) f =
    (report-Reported reports e (f e (inl refl)), reports-Reported reports more (λ x h. f x (inr h)))
