-- ===== src/Differential/Findings.antt =====
-- Which systems a differential run names.
use psv.Differential.{
  doubts, believes, disagrees, has_finding, verdicts_of, grade, failing_of, keep_if,
}
use psv.Base.{
  ◌≡◌, refl, sym, ap, subst, ◌∙◌, ◌↔◌, ◌⊎◌, inl, inr, Bool, true, false, not, Option, none, some,
  List, [], ◌∷◌, arith, ◌==◌, Bool-cases, length, any, In,
}
use psv.Base.Int.{ℤ}
use psv.Text.{Text}
use psv.Divergence.{funds_moved, detect_payment_divergence, is_failure, SettlementTruth, Divergence}
use psv.Divergence.Verdict.{funds_moved_iff, Moved, Agrees}

is_failure_iff :
    (chain : SettlementTruth) (b : Bool) (required : Option ℤ)
    → (is_failure (detect_payment_divergence chain b required) ≡ false) ↔ Agrees chain b required
unfolding is_failure detect_payment_divergence
is_failure_iff chain true none = ground arith
is_failure_iff chain true (some r) = ground arith
is_failure_iff chain false r = ground arith

is_failure-wrong :
    (chain : SettlementTruth) (b : Bool) (required : Option ℤ)
    → ¬ Agrees chain b required
    → is_failure (detect_payment_divergence chain b required) ≡ true
is_failure-wrong chain b required w =
    elim (Bool-cases (is_failure (detect_payment_divergence chain b required))) [
      | inl t ↦ t
      | inr f ↦ absurd (w ((is_failure_iff chain b required).0 f))
    ]

keep_if-cases :
    (c : Bool) (v x : Text × Divergence) (rest : List (Text × Divergence))
    → In x (keep_if c v rest)
    → ((c ≡ true) × (x ≡ v)) ⊎ In x rest
keep_if-cases true v x rest (inl e) = inl (refl, e)
keep_if-cases true v x rest (inr m) = inr m
keep_if-cases false v x rest m = inr m

keep_if-In :
    (c : Bool) (v x : Text × Divergence) (rest : List (Text × Divergence))
    → ((c ≡ true) × (x ≡ v)) ⊎ In x rest
    → In x (keep_if c v rest)
keep_if-In true v x rest (inl (t, e)) = inl e
keep_if-In true v x rest (inr m) = inr m
keep_if-In false v x rest (inl (t, e)) = absurd (cc)
keep_if-In false v x rest (inr m) = m

-- The belief of a system that the chain contradicts, with its verdict.
abbrev pub IsWrong : SettlementTruth → Option ℤ → List (Text × Bool) → Text → Divergence → Type 0
IsWrong chain required bs name v =
    (b : Bool) × In (name, b) bs
    × (¬ Agrees chain b required)
    × (v ≡ detect_payment_divergence chain b required)

failing-IsWrong :
    (chain : SettlementTruth) (required : Option ℤ) (bs : List (Text × Bool)) (name : Text)
    (v : Divergence)
    → In (name, v) (failing_of (verdicts_of chain required bs))
    → IsWrong chain required bs name v
unfolding failing_of verdicts_of
failing-IsWrong chain required [] name v m = absurd m
failing-IsWrong chain required ((n, b) ∷ bs) name v m =
    let d = detect_payment_divergence chain b required in
    elim (keep_if-cases (is_failure d) (n, d) (name, v) (failing_of (verdicts_of chain required bs))
      m) [
        | inl (t, e) ↦ (
          b,
          inl (ap (λ (p : Text × Divergence). (p.0, b)) e),
          λ a. absurd (cc (t, (is_failure_iff chain b required).1 a)),
          ap (λ (p : Text × Divergence). p.1) e,
        )
        | inr k ↦ let (c, i, w, q) = failing-IsWrong chain required bs name v k in (c, inr i, w, q)
      ]

IsWrong-failing :
    (chain : SettlementTruth) (required : Option ℤ) (bs : List (Text × Bool)) (name : Text)
    (v : Divergence)
    → IsWrong chain required bs name v
    → In (name, v) (failing_of (verdicts_of chain required bs))
unfolding failing_of verdicts_of
IsWrong-failing chain required [] name v (b, m, w, q) = absurd m
IsWrong-failing chain required ((n, c) ∷ bs) name v (b, m, w, q) =
    let d = detect_payment_divergence chain c required in
    keep_if-In (is_failure d) (n, d) (name, v) (failing_of (verdicts_of chain required bs))
      (elim m [
        | inl e ↦ inl (
          is_failure-wrong chain c required λ a.
              w (subst (λ x. Agrees chain x required) (sym (ap (λ (p : Text × Bool). p.1) e)) a),
          ap (λ (d : Divergence). (name, d)) q
              ∙ (ap (λ (p : Text × Bool). (p.0, detect_payment_divergence chain p.1 required)) e),
        )
        | inr k ↦ inr (IsWrong-failing chain required bs name v (b, k, w, q))
      ])

-- The failing systems are exactly those whose belief the chain contradicts, each with the verdict on
-- its own belief.
pub grade-failing_iff :
    (chain : SettlementTruth) (required : Option ℤ) (bs : List (Text × Bool)) (name : Text)
    (v : Divergence)
    → In (name, v) (grade chain required bs).failing ↔ IsWrong chain required bs name v
unfolding grade
grade-failing_iff chain required bs name v =
    (failing-IsWrong chain required bs name v, IsWrong-failing chain required bs name v)

any-In :
    (p : Text × Bool → Bool) (bs : List (Text × Bool))
    → any p bs ≡ true
    → (x : Text × Bool) × In x bs × (p x ≡ true)
any-In p [] h = absurd (cc)
any-In p (x ∷ bs) h = elim (Bool-cases (p x)) [
  | inl t ↦ (x, inl refl, t)
  | inr f ↦ let (y, m, t) = any-In p bs (ground (arith, f, h)) in (y, inr m, t)
]

In-length : {A : Type 0} (a : A) (xs : List A) → In a xs → not (length xs == 0) ≡ true
In-length a [] m = absurd m
In-length a (x ∷ xs) m = ground arith

-- Whatever the chain shows, one of two differing beliefs is wrong of it.
Moved-of :
    (chain : SettlementTruth) (required : Option ℤ) → Agrees chain true required → Moved chain
Moved-of chain none a = a.0
Moved-of chain (some r) a = a.0

one_is_wrong :
    (chain : SettlementTruth) (required : Option ℤ)
    → (¬ Agrees chain true required) ⊎ (¬ Agrees chain false required)
one_is_wrong chain required = elim (Bool-cases (funds_moved chain)) [
  | inl t ↦ inr λ a. a ((funds_moved_iff chain).0 t)
  | inr f ↦ inl λ a. cc (f, (funds_moved_iff chain).1 (Moved-of chain required a))
]

doubted : (b : Bool) → not b ≡ true → b ≡ false
doubted b h = ground arith

-- On one fact, systems that disagree are never all right: a disagreement gives a finding.
pub grade-disagree :
    (chain : SettlementTruth) (required : Option ℤ) (bs : List (Text × Bool))
    → (grade chain required bs).disagree ≡ true
    → has_finding (grade chain required bs) ≡ true
unfolding grade has_finding disagrees
grade-disagree chain required bs h =
    let ((n, b), m, t) = any-In believes bs (ground (arith, h)) in
    let ((k, c), i, f) = any-In doubts bs (ground (arith, h)) in
    elim (one_is_wrong chain required) [
      | inl w ↦
          In-length (n, detect_payment_divergence chain b required)
            (failing_of (verdicts_of chain required bs))
            (IsWrong-failing chain required bs n (detect_payment_divergence chain b required)
              (b, m, (λ a. w (subst (λ x. Agrees chain x required) t a)), refl))
      | inr w ↦
          In-length (k, detect_payment_divergence chain c required)
            (failing_of (verdicts_of chain required bs))
            (IsWrong-failing chain required bs k (detect_payment_divergence chain c required)
              (c, i, (λ a. w (subst (λ x. Agrees chain x required) (doubted c f) a)), refl))
    ]
