-- ===== src/Load/Staged.antt =====
-- A staged profile is one profile, cut into stages.
use psv.Base.{
  ℕ, zero, suc, ◌+◌, ◌≡◌, refl, sym, ap, subst, ◌∙◌, List, [], ◌∷◌, ◌++◌, arith, Result, ok, err,
  Ensures, Ensures-eq_ok, Ensures-bind, Ensures-raise_if, Ensures-self,
}
use psv.Base.Int.{ℤ, pos_part}
use psv.Load.{
  run_profile, total_of, with_offset, run_staged_profile, run_stages, errors_of, run_range,
  LoadResult, LoadStage,
}
use psv.Load.Counts.{run_profile-IsCounted, failures}

module _ {L S : Type 0} where
  failures-append : (xs ys : List (Result S L)) → failures (xs ++ ys) ≡ failures xs + failures ys
  failures-append [] ys = omega arith
  failures-append (ok latency ∷ xs) ys = failures-append xs ys
  failures-append (err sample ∷ xs) ys = omega (arith, failures-append xs ys)

  run_range-append :
      (task : ℕ → Result S L) (start a b : ℕ)
      → run_range task start (a + b) ≡ run_range task start a ++ run_range task (start + a) b
  unfolding run_range
  run_range-append task start zero b =
      ap (λ k. run_range task start k) (omega arith) ∙ ap (λ k. run_range task k b) (omega arith)
  run_range-append task start (suc a) b =
      ap (λ k. run_range task start k) (the_sum a b)
      ∙ ap (λ l. task start ∷ l)
          (run_range-append task (suc start) a b
            ∙ ap (λ k. run_range task (suc start) a ++ run_range task k b) (omega arith))
    where
      the_sum : (a b : ℕ) → suc a + b ≡ suc (a + b)
      the_sum a b = omega arith

  -- The offset gives the iterations of a stage their own numbers.
  run_range-with_offset :
      (task : ℕ → Result S L) (offset start n : ℕ)
      → run_range (with_offset task offset) start n ≡ run_range task (offset + start) n
  unfolding run_range
  run_range-with_offset task offset start zero = refl
  run_range-with_offset task offset start (suc n) =
      ap (λ l. task (offset + start) ∷ l)
        (run_range-with_offset task offset (suc start) n
          ∙ ap (λ k. run_range task k n) (omega arith))

  cut :
      (task : ℕ → Result S L) (offset n m e f : ℕ)
      → e ≡ failures (run_range (with_offset task offset) 0 n)
      → f ≡ failures (run_range task (offset + n) m)
      → e + f ≡ failures (run_range task offset (n + m))
  cut task offset n m e f h k =
      let same : offset + 0 ≡ offset = omega arith in
      omega (
        arith,
        h,
        k,
        ap failures (run_range-append task offset n m),
        failures-append (run_range task offset n) (run_range task (offset + n) m),
        ap failures (run_range-with_offset task offset 0 n),
        ap (λ i. failures (run_range task i n)) same,
      )

  abbrev pub Whole : (ℕ → Result S L) → ℕ → List (LoadStage × LoadResult L S) → Type 0
  Whole task offset rs = errors_of rs ≡ failures (run_range task offset (total_of rs))

  stages-Whole :
      (task : ℕ → Result S L) (stages : List LoadStage) (max_samples : ℤ) (offset : ℕ)
      → Ensures (Whole task offset) (run_stages task stages max_samples offset)
  unfolding run_stages errors_of total_of run_range
  stages-Whole task [] max_samples offset = record { holds = refl }
  stages-Whole task (stage ∷ stages) max_samples offset = Ensures-raise_if _ _ _ λ _.
      Ensures-bind
        (Ensures-self
          (run_profile (with_offset task offset) stage.iterations stage.concurrency max_samples))
        λ r ran.
          Ensures-bind (stages-Whole task stages max_samples (offset + pos_part stage.iterations))
            λ rest h.
              let (t, c, k) =
                run_profile-IsCounted (with_offset task offset) stage.iterations stage.concurrency
                  max_samples r ran in
              record {
                holds =
                    cut task offset r.total (total_of rest) r.errors (errors_of rest) c.errors
                      (subst (λ i. Whole task (offset + i) rest) (sym (ap pos_part t)) h);
              }

  -- The errors of a staged profile that returns are the failures of the iterations from 0 to its
  -- total: its stages cut one range of iterations, with nothing between them.
  pub run_staged_profile-Whole :
      (task : ℕ → Result S L) (stages : List LoadStage) (max_samples : ℤ)
      (rs : List (LoadStage × LoadResult L S))
      → run_staged_profile task stages max_samples ≡ ok rs
      → errors_of rs ≡ failures (run_range task 0 (total_of rs))
  unfolding run_staged_profile
  run_staged_profile-Whole task stages max_samples rs =
      Ensures-eq_ok {P = Whole task 0}
        (Ensures-raise_if _ _ _ λ _. stages-Whole task stages max_samples 0)
