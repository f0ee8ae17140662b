-- ===== src/Load/Counts.antt =====
-- What a profile counts, and that a staged profile runs each iteration once.
use psv.Base.{
  ℕ, zero, suc, ◌+◌, ◌≤◌, ◌≡◌, refl, sym, ap, ◌∙◌, inl, inr, List, [], ◌∷◌, ◌++◌, arith, ltb,
  Bool-cases, length, length-append, append-nil, append_assoc, Result, ok, err, Ensures-eq_ok,
  Ensures-raise_if,
}
use psv.Base.Int.{ℤ, pos, pos_part, eq_of_parts}
use psv.Load.{profile, ok_count, run_profile, tally_result, run_range, tally, LoadResult}

module _ {L S : Type 0} where
  -- The exceptions among the outcomes, and the latencies in their order.
  abbrev pub failures : List (Result S L) → ℕ
  failures [] = 0
  failures (ok latency ∷ xs) = failures xs
  failures (err sample ∷ xs) = 1 + failures xs

  abbrev pub successes : List (Result S L) → List L
  successes [] = []
  successes (ok latency ∷ xs) = latency ∷ successes xs
  successes (err sample ∷ xs) = successes xs

  tally-errors :
      (m : ℕ) (r : LoadResult L S) (xs : List (Result S L))
      → (tally m r xs).errors ≡ r.errors + failures xs
  unfolding tally tally_result
  tally-errors m r [] = omega arith
  tally-errors m r (ok latency ∷ xs) = tally-errors m (tally_result m r (ok latency)) xs
  tally-errors m r (err sample ∷ xs) =
      omega (arith, tally-errors m (tally_result m r (err sample)) xs)

  tally-total :
      (m : ℕ) (r : LoadResult L S) (xs : List (Result S L)) → (tally m r xs).total ≡ r.total
  unfolding tally tally_result
  tally-total m r [] = refl
  tally-total m r (ok latency ∷ xs) = tally-total m (tally_result m r (ok latency)) xs
  tally-total m r (err sample ∷ xs) = tally-total m (tally_result m r (err sample)) xs

  tally-latencies :
      (m : ℕ) (r : LoadResult L S) (xs : List (Result S L))
      → (tally m r xs).latencies_ms ≡ r.latencies_ms ++ successes xs
  unfolding tally tally_result
  tally-latencies m r [] = sym (append-nil r.latencies_ms)
  tally-latencies m r (ok latency ∷ xs) =
      tally-latencies m (tally_result m r (ok latency)) xs
      ∙ append_assoc r.latencies_ms (latency ∷ []) (successes xs)
  tally-latencies m r (err sample ∷ xs) = tally-latencies m (tally_result m r (err sample)) xs

  cap_samples :
      (m : ℕ) (r : LoadResult L S) (sample : S)
      → length r.error_samples ≤ m
      → length (tally_result m r (err sample)).error_samples ≤ m
  unfolding tally_result
  cap_samples m r sample h = elim (Bool-cases (ltb (length r.error_samples) m)) [
    | inl t ↦ ground (arith, t, length-append r.error_samples (sample ∷ []))
    | inr f ↦ ground (arith, f)
  ]

  tally-samples :
      (m : ℕ) (r : LoadResult L S) (xs : List (Result S L))
      → length r.error_samples ≤ m
      → length (tally m r xs).error_samples ≤ m
  unfolding tally tally_result
  tally-samples m r [] h = h
  tally-samples m r (ok latency ∷ xs) h = tally-samples m (tally_result m r (ok latency)) xs h
  tally-samples m r (err sample ∷ xs) h =
      tally-samples m (tally_result m r (err sample)) xs (cap_samples m r sample h)

  failures-successes : (xs : List (Result S L)) → failures xs + length (successes xs) ≡ length xs
  failures-successes [] = omega arith
  failures-successes (ok latency ∷ xs) = omega (arith, failures-successes xs)
  failures-successes (err sample ∷ xs) = omega (arith, failures-successes xs)

  length-run_range : (task : ℕ → Result S L) (start n : ℕ) → length (run_range task start n) ≡ n
  unfolding run_range
  length-run_range task start zero = refl
  length-run_range task start (suc n) = ap suc (length-run_range task (suc start) n)

  -- Every outcome is counted once: the errors and the latencies are those of the iterations from
  -- `start` on, they add up to the total, and no more samples are kept than allowed.
  pub record IsCounted (task : ℕ → Result S L) (start : ℕ) (m : ℕ) (r : LoadResult L S)
      : Type 0 where
    pub errors : r.errors ≡ failures (run_range task start r.total)
    pub latencies : r.latencies_ms ≡ successes (run_range task start r.total)
    pub adds_up : r.errors + length r.latencies_ms ≡ r.total
    pub samples : length r.error_samples ≤ m

  profile-IsCounted :
      (task : ℕ → Result S L) (n m : ℕ)
      → (profile task n m).total ≡ n × IsCounted task 0 m (profile task n m)
  unfolding profile
  profile-IsCounted task n m =
      let start : LoadResult L S = record {
        total = n;
        errors = 0;
        latencies_ms = [];
        error_samples = [];
      } in
      let xs = run_range task 0 n in
      let t = tally-total m start xs in
      let e = tally-errors m start xs in
      let l = tally-latencies m start xs in
      (
        t,
        record {
          errors = omega (arith, e, ap (λ k. failures (run_range task 0 k)) t);
          latencies = l ∙ sym (ap (λ k. successes (run_range task 0 k)) t);
          adds_up =
              omega (arith, e, t, ap length l, failures-successes xs, length-run_range task 0 n);
          samples = tally-samples m start xs (omega arith);
        },
      )

  -- A profile that returns made as many attempts as it was asked for, and counts each of them
  -- once, as an error or with its latency.
  pub run_profile-IsCounted :
      (task : ℕ → Result S L) (iterations concurrency max_samples : ℤ) (r : LoadResult L S)
      → run_profile task iterations concurrency max_samples ≡ ok r
      → (pos r.total ≡ iterations)
        × IsCounted task 0 (pos_part max_samples) r
        × (ok_count r ≡ length r.latencies_ms)
  unfolding run_profile ok_count
  run_profile-IsCounted task iterations concurrency max_samples r =
      Ensures-eq_ok
        {P = λ q.
          (pos q.total ≡ iterations)
          × IsCounted task 0 (pos_part max_samples) q
          × (ok_count q ≡ length q.latencies_ms)}
        (Ensures-raise_if _ _ _ λ low. Ensures-raise_if _ _ _ λ _. Ensures-raise_if _ _ _ λ _.
          let (t, c) = profile-IsCounted task (pos_part iterations) (pos_part max_samples) in
          record {
            holds = (
              ap pos t ∙ eq_of_parts (pos (pos_part iterations)) iterations (ground (arith, low)),
              c,
              omega (arith, c.adds_up),
            );
          })
