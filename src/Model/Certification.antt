-- ===== src/Model/Certification.antt =====
-- internal/wheelengine/certification.go: the evidence that a model needs. The set of passed checks,
-- a Go map, is the test whether some passing entry names the check.
use logi_mate.Base.{
  ◌≡◌, refl, ◌↔◌, Bool, true, false, not, ◌&&◌, ◌||◌, Option, none, some, List, [], ◌∷◌, All, arith,
  Bool-cases, inl, inr, if◌then◌else◌,
}
use logi_mate.Base.Text.{Text, codes, text_eq, text_eq→≡, text_eq_refl, text_lt, is_empty}
use logi_mate.Model.{ModelId, Descriptor, descriptor_for_model}

abbrev required_hardware_checks_base : List Text
required_hardware_checks_base =
    codes "native-mode-switch"
    ∷ codes "steering"
    ∷ codes "pedals"
    ∷ codes "buttons"
    ∷ codes "shifter"
    ∷ codes "range"
    ∷ codes "constant-force"
    ∷ codes "spring"
    ∷ codes "damper"
    ∷ codes "friction"
    ∷ codes "autocenter"
    ∷ codes "game-ffb"
    ∷ codes "reconnect"
    ∷ codes "usb-removal"
    ∷ codes "process-kill"
    ∷ codes "suspend-resume"
    ∷ codes "modern-legacy-rollback"
    ∷ []

pub record CertificationEvidence : Type 0 where
  pub check : Text
  pub passed : Bool
  pub evidence : Text

pub record ModelCertification : Type 0 where
  pub model : ModelId
  pub evidence : List CertificationEvidence

unfoldable pub without : Text → List Text → List Text
unfolding text_eq
without x [] = []
without x (y ∷ ys) = let rest = without x ys in if text_eq y x then rest else y ∷ rest

-- sort.Strings.
insert_text : Text → List Text → List Text
unfolding text_lt
insert_text x [] = x ∷ []
insert_text x (y ∷ ys) =
    let later = insert_text x ys in if text_lt y x then y ∷ later else x ∷ y ∷ ys

sort_strings : List Text → List Text
unfolding insert_text
sort_strings [] = []
sort_strings (x ∷ xs) = insert_text x (sort_strings xs)

abbrev lacks_h_shifter : Option Descriptor → Bool
lacks_h_shifter none = false
lacks_h_shifter (some d) = not d.controls.h_shifter

unfoldable pub required_hardware_checks : ModelId → List Text
unfolding descriptor_for_model without sort_strings
required_hardware_checks m = sort_strings (
    if lacks_h_shifter (descriptor_for_model m)
    then without (codes "shifter") required_hardware_checks_base
    else required_hardware_checks_base)

-- `passed[check]` after the loop over the evidence.
unfoldable pub passed_check : List CertificationEvidence → Text → Bool
passed_check [] check = false
passed_check (e ∷ es) check =
    (e.passed && (not (is_empty e.evidence) && text_eq e.check check)) || passed_check es check

unfoldable pub all_passed : List CertificationEvidence → List Text → Bool
all_passed es [] = true
all_passed es (check ∷ checks) = passed_check es check && all_passed es checks

abbrev some_required : List Text → Bool
some_required [] = false
some_required (x ∷ xs) = true

unfoldable pub complete : ModelCertification → Bool
complete c =
    let required = required_hardware_checks c.model in
    all_passed c.evidence required && some_required required

-- A check is covered: an entry names it, passed, and shows evidence.
abbrev pub Covers : Text → CertificationEvidence → Type 0
Covers check e = (e.passed ≡ true) × (is_empty e.evidence ≡ false) × (e.check ≡ check)

pub data Covered (check : Text) : List CertificationEvidence → Type 0 where
  here :
      {e : CertificationEvidence} {es : List CertificationEvidence}
      → Covers check e
      → Covered check (e ∷ es)
  there :
      {e : CertificationEvidence} {es : List CertificationEvidence}
      → Covered check es
      → Covered check (e ∷ es)

entry-Covers :
    (e : CertificationEvidence) (check : Text)
    → (e.passed && (not (is_empty e.evidence) && text_eq e.check check)) ≡ true
    → Covers check e
entry-Covers e check h = ground (arith, text_eq→≡ e.check check)

passed_check→Covered :
    (es : List CertificationEvidence) (check : Text)
    → passed_check es check ≡ true
    → Covered check es
unfolding passed_check
passed_check→Covered [] check h = absurd (ground arith)
passed_check→Covered (e ∷ es) check h =
    elim (Bool-cases (e.passed && (not (is_empty e.evidence) && text_eq e.check check))) [
      | inl found ↦ here (entry-Covers e check found)
      | inr missed ↦ there (passed_check→Covered es check (ground arith))
    ]

Covered→passed_check :
    (check : Text) {es : List CertificationEvidence}
    → Covered check es
    → passed_check es check ≡ true
unfolding passed_check
Covered→passed_check check (here {e} {es} (p, q, r)) = rw (p, q, r, text_eq_refl check)
Covered→passed_check check (there {e} {es} c) = ground (arith, Covered→passed_check check c)

all_passed_sound :
    (es : List CertificationEvidence) (checks : List Text)
    → all_passed es checks ≡ true
    → All (λ k. Covered k es) checks
unfolding all_passed
all_passed_sound es [] h = tt
all_passed_sound es (k ∷ ks) h =
    (passed_check→Covered es k (ground arith), all_passed_sound es ks (ground arith))

all_passed_complete :
    (es : List CertificationEvidence) (checks : List Text)
    → All (λ k. Covered k es) checks
    → all_passed es checks ≡ true
unfolding all_passed
all_passed_complete es [] h = refl
all_passed_complete es (k ∷ ks) (c, cs) =
    rw (Covered→passed_check k c, all_passed_complete es ks cs)

required_nonempty : (m : ModelId) → some_required (required_hardware_checks m) ≡ true
unfolding required_hardware_checks
required_nonempty ModelId.unknown = refl
required_nonempty _ = refl

-- A certification is complete exactly when every check that its model requires is covered: some
-- entry names the check, passed, and holds non-empty evidence.
pub complete_iff :
    (c : ModelCertification)
    → (complete c ≡ true) ↔ All (λ k. Covered k c.evidence) (required_hardware_checks c.model)
unfolding complete
complete_iff c = (
  (λ h. all_passed_sound c.evidence _ (ground arith)),
  (λ h.
      rw (all_passed_complete c.evidence (required_hardware_checks c.model) h)
        (required_nonempty c.model)),
)
