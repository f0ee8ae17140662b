-- ===== src/Load.antt =====
-- src/psv/load.py: load profiles. A task is what each iteration comes to, a latency or the sample of
-- an exception; both are opaque, and the clock is not modelled. `ThreadPoolExecutor.map` gives its
-- results in the order of the iterations, so that they do not depend on the concurrency.
pub mod Counts
pub mod Staged
mod Tests
use psv.Base.{
  ℕ, zero, suc, ◌+◌, ◌-◌, ◌*◌, ◌/◌, Bool, List, [], ◌∷◌, ◌++◌, ltb, ◌==◌, if◌then◌else◌, length,
  all, Result, ok, err, ◌>>=◌, ◌>>◌, raise_if,
}
use psv.Base.Int.{ℤ, pos, pos_part, ltb_ℤ, leb_ℤ}
use psv.Text.Spaces.{is_str_space}
use psv.Text.{Text, codes}

-- The ValueErrors of the module.
pub data LoadError : Type 0 where
  bad_iterations bad_concurrency bad_max_error_samples no_stages empty_stage_name : LoadError
  bad_scale bad_peak : LoadError

pub record LoadResult (L S : Type 0) : Type 0 where
  pub total : ℕ
  pub errors : ℕ
  pub latencies_ms : List L
  pub error_samples : List S

-- `LoadStage`; a number that is not positive is refused when the stage is run.
pub record LoadStage : Type 0 where
  pub name : Text
  pub iterations : ℤ
  pub concurrency : ℤ

-- `name.strip()` is empty.
unfoldable pub is_blank : Text → Bool
is_blank s = all is_str_space s

module _ {L S : Type 0} where
  -- `LoadResult.ok`
  unfoldable pub ok_count : LoadResult L S → ℕ
  ok_count r = r.total - r.errors

  -- `[_run(i) for i in range(iterations)]`, from `start`.
  unfoldable pub run_range : (ℕ → Result S L) → ℕ → ℕ → List (Result S L)
  run_range task start zero = []
  run_range task start (suc n) = task start ∷ run_range task (suc start) n

  -- One round of the loop over the results.
  unfoldable pub tally_result : ℕ → LoadResult L S → Result S L → LoadResult L S
  tally_result max_samples r (ok latency) = record r {
    latencies_ms = r.latencies_ms ++ latency ∷ [];
  }
  tally_result max_samples r (err sample) = record r {
    errors = r.errors + 1;
    error_samples =
        if ltb (length r.error_samples) max_samples
        then r.error_samples ++ sample ∷ []
        else r.error_samples;
  }

  unfoldable pub tally : ℕ → LoadResult L S → List (Result S L) → LoadResult L S
  unfolding tally_result
  tally max_samples r [] = r
  tally max_samples r (x ∷ xs) = tally max_samples (tally_result max_samples r x) xs

  -- `run_profile` on validated arguments.
  unfoldable pub profile : (ℕ → Result S L) → ℕ → ℕ → LoadResult L S
  unfolding tally run_range
  profile task n max_samples =
      tally max_samples (record { total = n; errors = 0; latencies_ms = []; error_samples = [] })
        (run_range task 0 n)

  unfoldable pub run_profile : (ℕ → Result S L) → ℤ → ℤ → ℤ → Result LoadError (LoadResult L S)
  unfolding profile
  run_profile task iterations concurrency max_error_samples = do
    raise_if (leb_ℤ iterations (pos 0)) bad_iterations
    raise_if (leb_ℤ concurrency (pos 0)) bad_concurrency
    raise_if (ltb_ℤ max_error_samples (pos 0)) bad_max_error_samples
    ok (profile task (pos_part iterations) (pos_part max_error_samples))

  -- `_with_offset`
  abbrev pub with_offset : (ℕ → Result S L) → ℕ → ℕ → Result S L
  with_offset task offset index = task (offset + index)

  -- The loop of `run_staged_profile`.
  unfoldable pub run_stages :
      (ℕ → Result S L)
      → List LoadStage
      → ℤ
      → ℕ
      → Result LoadError (List (LoadStage × LoadResult L S))
  run_stages task [] max_samples offset = ok []
  run_stages task (stage ∷ stages) max_samples offset = do
    raise_if (is_blank stage.name) empty_stage_name
    result ← run_profile (with_offset task offset) stage.iterations stage.concurrency max_samples
    rest ← run_stages task stages max_samples (offset + pos_part stage.iterations)
    ok ((stage, result) ∷ rest)

  unfoldable pub run_staged_profile :
      (ℕ → Result S L) → List LoadStage → ℤ → Result LoadError (List (LoadStage × LoadResult L S))
  run_staged_profile task stages max_samples = do
    raise_if (length stages == 0) no_stages
    run_stages task stages max_samples 0

  -- `StagedLoadResult.total` and `StagedLoadResult.errors`
  unfoldable pub total_of : List (LoadStage × LoadResult L S) → ℕ
  total_of [] = 0
  total_of ((stage, r) ∷ rs) = r.total + total_of rs

  unfoldable pub errors_of : List (LoadStage × LoadResult L S) → ℕ
  errors_of [] = 0
  errors_of ((stage, r) ∷ rs) = r.errors + errors_of rs

-- `max(1, peak // 2)`
abbrev pub half_of : ℕ → ℕ
half_of peak = if ltb (peak / 2) 1 then 1 else peak / 2

unfoldable pub standard_profile : ℤ → ℤ → Result LoadError (List LoadStage)
standard_profile scale peak_concurrency = do
  raise_if (leb_ℤ scale (pos 0)) bad_scale
  raise_if (leb_ℤ peak_concurrency (pos 1)) bad_peak
  let n = pos_part scale
  let peak = pos_part peak_concurrency
  ok (
      record { name = codes "ramp"; iterations = pos n; concurrency = pos (half_of peak) }
      ∷ record { name = codes "spike"; iterations = pos n; concurrency = pos peak }
      ∷ record { name = codes "soak"; iterations = pos (n * 5); concurrency = pos (half_of peak) }
      ∷ record { name = codes "breakpoint"; iterations = pos n; concurrency = pos (peak * 2) }
      ∷ record { name = codes "recovery"; iterations = pos n; concurrency = pos 1 }
      ∷ [])
