-- ===== src/Validation/Modes.antt =====
-- core/validation/validation_modes.py: which errors reject a command in which mode.
use demobot.Validation.Errors.{ErrorEnvelope}
use demobot.Base.{
  All, Bool, List, String, [], false, if◌then◌else◌, mem, refl, str_eq, true, ◌&&◌, ◌++◌, ◌↔◌, ◌∷◌,
  ◌≡◌, Bool-cases, append-nil, arith, inl, inr, ap,
}
use mathlib.Core.List.Permᴰ
use mathlib.Core.List.{Permᴰ}

pub data ValidationMode : Type 0 where
  strict lenient : ValidationMode

pub record ValidationDecision : Type 0 where
  pub accepted : Bool
  pub errors : List ErrorEnvelope
  pub warnings : List ErrorEnvelope

-- `is_semantic(err) and err.code in DOWNGRADEABLE_SEMANTIC_CODES`; the set is `codes`, since operators
-- add to it, and is empty in the source.
unfoldable pub is_downgraded : List String → ErrorEnvelope → Bool
is_downgraded codes e = str_eq e.category "SEMANTIC" && mem e.code codes

-- The loop that separates warnings from errors.
unfoldable pub separate : List String → List ErrorEnvelope → List ErrorEnvelope × List ErrorEnvelope
separate codes [] = ([], [])
separate codes (e ∷ es) =
    let (errors_out, warnings_out) = separate codes es in
    if is_downgraded codes e then (errors_out, e ∷ warnings_out) else (e ∷ errors_out, warnings_out)

abbrev pub rejected : List ErrorEnvelope → List ErrorEnvelope → ValidationDecision
rejected errors warnings = record { accepted = false; errors = errors; warnings = warnings }

-- What lenient mode answers to the separated errors and warnings.
abbrev pub decision_of : List ErrorEnvelope × List ErrorEnvelope → ValidationDecision
decision_of ([], warnings_out) = record { accepted = true; errors = []; warnings = warnings_out }
decision_of (e ∷ es, warnings_out) = rejected (e ∷ es) warnings_out

-- `apply_validation_mode`
unfoldable pub apply_validation_mode :
    List String → ValidationMode → List ErrorEnvelope → ValidationDecision
unfolding separate
apply_validation_mode codes mode [] = record { accepted = true; errors = []; warnings = [] }
apply_validation_mode codes strict (e ∷ es) = rejected (e ∷ es) []
apply_validation_mode codes lenient (e ∷ es) = decision_of (separate codes (e ∷ es))

perm_middle_of :
    (e : ErrorEnvelope) (xs ys : List ErrorEnvelope) → Permᴰ (e ∷ (xs ++ ys)) (xs ++ (e ∷ ys))
perm_middle_of e [] ys = Permᴰ.refl (e ∷ ys)
perm_middle_of e (x ∷ xs) ys =
    Permᴰ.trans (Permᴰ.swap refl refl) (Permᴰ.cons {a = x} refl (perm_middle_of e xs ys))

separate-warnings :
    (codes : List String) (es : List ErrorEnvelope)
    → All (λ e. is_downgraded codes e ≡ true) (separate codes es).1
unfolding separate
separate-warnings codes [] = tt
separate-warnings codes (e ∷ es) = elim (Bool-cases (is_downgraded codes e)) [
  | inl h ↦ rw h (h, separate-warnings codes es)
  | inr h ↦ rw h (separate-warnings codes es)
]

separate-perm :
    (codes : List String) (es : List ErrorEnvelope)
    → Permᴰ es ((separate codes es).0 ++ (separate codes es).1)
unfolding separate
separate-perm codes [] = Permᴰ.nil
separate-perm codes (e ∷ es) = elim (Bool-cases (is_downgraded codes e)) [
  | inl h ↦ rw h (
      Permᴰ.trans (Permᴰ.cons refl (separate-perm codes es))
        (perm_middle_of e (separate codes es).0 (separate codes es).1))
  | inr h ↦ rw h (Permᴰ.cons refl (separate-perm codes es))
]

separate_none : (es : List ErrorEnvelope) → separate [] es ≡ (es, [])
unfolding separate is_downgraded mem
separate_none [] = refl
separate_none (e ∷ es) =
    let h : is_downgraded [] e ≡ false = ground arith in rw (h, separate_none es) refl

-- With the source's empty set of codes, lenient mode decides every list of errors as strict mode does.
pub lenient-eq-strict :
    (es : List ErrorEnvelope)
    → apply_validation_mode [] lenient es ≡ apply_validation_mode [] strict es
unfolding apply_validation_mode
lenient-eq-strict [] = refl
lenient-eq-strict (e ∷ es) = ap decision_of (separate_none (e ∷ es))

decided :
    (codes : List String) (es : List ErrorEnvelope) (s : List ErrorEnvelope × List ErrorEnvelope)
    → Permᴰ es (s.0 ++ s.1)
    → All (λ e. is_downgraded codes e ≡ true) s.1
    → let d = decision_of s in
      Permᴰ es (d.errors ++ d.warnings)
      × ((d.accepted ≡ true) ↔ (d.errors ≡ []))
      × All (λ e. is_downgraded codes e ≡ true) d.warnings
decided codes es ([], ws) p a = (p, ((λ _. refl), (λ _. refl)), a)
decided codes es (x ∷ xs, ws) p a = (p, (ground arith, ground arith), a)

-- No error is lost or invented: the errors and warnings of a decision are those that came in, it accepts
-- exactly when no error is left, and each warning is a SEMANTIC error of the codes.
pub apply_validation_mode-perm :
    (codes : List String) (mode : ValidationMode) (es : List ErrorEnvelope)
    → let d = apply_validation_mode codes mode es in
      Permᴰ es (d.errors ++ d.warnings)
      × ((d.accepted ≡ true) ↔ (d.errors ≡ []))
      × All (λ e. is_downgraded codes e ≡ true) d.warnings
unfolding apply_validation_mode
apply_validation_mode-perm codes mode [] = (Permᴰ.nil, ((λ _. refl), (λ _. refl)), tt)
apply_validation_mode-perm codes strict (e ∷ es) =
    (rw (append-nil es) (Permᴰ.refl (e ∷ es)), (ground arith, ground arith), tt)
apply_validation_mode-perm codes lenient (e ∷ es) =
    decided codes (e ∷ es) (separate codes (e ∷ es)) (separate-perm codes (e ∷ es))
      (separate-warnings codes (e ∷ es))
