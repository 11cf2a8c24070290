-- ===== src/App/Reports.antt =====
-- The channel of errors of `Run`: what the end of a goroutine leaves in it.
use wb_trial_task.Common.{
  ◌+◌, ◌≤◌, ◌≡◌, refl, Bool, true, false, Option, none, some, List, [], ◌∷◌, ◌++◌, arith, length,
  All, ◌⊎◌, inl, inr, Bool-cases,
}
use wb_trial_task.App.{report}

-- There is an error in the channel.
abbrev pub IsHeld : {E : Type 0} → List E → Type 0
IsHeld {E} ch = (err : E) × (rest : List E) × (ch ≡ err ∷ rest)

pub length-append_one :
    {E : Type 0} → (x : E) (ch : List E) → length (ch ++ (x ∷ [])) ≡ length ch + 1
length-append_one x [] = refl
length-append_one x (y ∷ ch) = omega (arith, length-append_one x ch)

pub All-append_one :
    {E : Type 0} → (P : E → Type 0) (x : E) (ch : List E) → P x → All P ch → All P (ch ++ (x ∷ []))
All-append_one P x [] k h = (k, tt)
All-append_one P x (y ∷ ch) k h = (h.0, All-append_one P x ch k h.1)

pub append_one-IsHeld : {E : Type 0} → (x : E) (ch : List E) → IsHeld (ch ++ (x ∷ []))
append_one-IsHeld x [] = (x, [], refl)
append_one-IsHeld x (y ∷ ch) = (y, ch ++ (x ∷ []), refl)

pub length-report-le :
    {E : Type 0}
    → (ignored : E → Bool) (r : Option E) (ch : List E)
    → length (report ignored r ch) ≤ length ch + 1
length-report-le ignored none ch = omega arith
length-report-le ignored (some err) ch = elim (Bool-cases (ignored err)) [
  | inl skip ↦ rw (skip) (omega arith)
  | inr kept ↦ rw (kept) (omega (arith, length-append_one err ch))
]

-- A report keeps what held of the errors in the channel, if it holds of the new one.
pub All-report :
    {E : Type 0}
    → (P : E → Type 0) (ignored : E → Bool) (r : Option E) (ch : List E)
    → ((err : E) → r ≡ some err → ignored err ≡ false → P err)
    → All P ch
    → All P (report ignored r ch)
All-report P ignored none ch sound h = h
All-report P ignored (some err) ch sound h = elim (Bool-cases (ignored err)) [
  | inl skip ↦ rw (skip) h
  | inr kept ↦ rw (kept) (All-append_one P err ch (sound err refl kept) h)
]

pub report-IsHeld :
    {E : Type 0}
    → (ignored : E → Bool) (r : Option E) (ch : List E) → IsHeld ch
    → IsHeld (report ignored r ch)
report-IsHeld ignored none ch h = h
report-IsHeld ignored (some err) ch h = elim (Bool-cases (ignored err)) [
  | inl skip ↦ rw (skip) h
  | inr kept ↦ rw (kept) (append_one-IsHeld err ch)
]

-- An end leaves an error in the channel, or there is none and it is ignored.
pub report-cases :
    {E : Type 0}
    → (ignored : E → Bool) (Quiet : Type 0) (r : Option E) (ch : List E) → (r ≡ none → Quiet)
    → ((err : E) → r ≡ some err → ignored err ≡ true → Quiet)
    → IsHeld (report ignored r ch) ⊎ Quiet
report-cases ignored Quiet none ch no_error skipped = inr (no_error refl)
report-cases ignored Quiet (some err) ch no_error skipped = elim (Bool-cases (ignored err)) [
  | inl skip ↦ inr (skipped err refl skip)
  | inr kept ↦ inl (rw (kept) (append_one-IsHeld err ch))
]
