-- ===== src/Load/Tests.antt =====
-- Two stages in which the third iteration fails.
use psv.Base.{ℕ, ◌≡◌, refl, List, [], ◌∷◌, ◌==◌, if◌then◌else◌, Result, ok, err, ◌>>=◌}
use psv.Base.Int.{pos}
use psv.Text.{Text, codes}
use psv.Load.{
  total_of, run_range, ok_count, errors_of, with_offset, LoadStage, LoadResult, run_profile,
  run_staged_profile,
}

abbrev task : ℕ → Result ℕ ℕ
task i = if i == 2 then err i else ok 7

abbrev stages : List LoadStage
stages =
    record { name = codes "ramp"; iterations = pos 2; concurrency = pos 1 }
    ∷ record { name = codes "recovery"; iterations = pos 2; concurrency = pos 1 }
    ∷ []

abbrev first : LoadResult ℕ ℕ
first = record { total = 2; errors = 0; latencies_ms = 7 ∷ 7 ∷ []; error_samples = [] }

abbrev second : LoadResult ℕ ℕ
second = record { total = 2; errors = 1; latencies_ms = 7 ∷ []; error_samples = 2 ∷ [] }

profiled : run_profile (with_offset task 2) (pos 2) (pos 1) (pos 10) ≡ ok second
unfolding run_profile psv.Base.◌>>=◌
profiled = refl

abbrev staged : List (LoadStage × LoadResult ℕ ℕ)
staged =
    (record { name = codes "ramp"; iterations = pos 2; concurrency = pos 1 }, first)
    ∷ (record { name = codes "recovery"; iterations = pos 2; concurrency = pos 1 }, second)
    ∷ []

ran : run_staged_profile task stages (pos 10) ≡ ok staged
unfolding run_staged_profile psv.Base.◌>>=◌ psv.Load.run_stages psv.Load.is_blank codes
    psv.Text.Spaces.is_str_space run_profile
ran = refl
