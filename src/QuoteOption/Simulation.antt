-- ===== src/QuoteOption/Simulation.antt =====
-- The loss of the system over the rounds of `simulate_attacker`.
use psv.Base.{
  ℕ, zero, suc, ◌+◌, ◌-◌, ◌*◌, ◌≤◌, ◌<◌, String, ◌≡◌, refl, ap, true, false, Option, some, List, [],
  ◌∷◌, map, arith, ltb, if◌then◌else◌, length, ok, ◌>>=◌, Ensures, Ensures-eq_ok, Ensures-bind,
  Ensures-skip, Ensures-map,
}
use psv.Base.Int.{pos}
use psv.Value.{bool, int, bounded_int, uint256_max, bounded_int-int}
use psv.QuoteOption.{
  amount, Slack, tolerance, fraction, Round, ExploitResult, Tally, gain_of, is_stale,
  is_exploitable, exercise, play, simulate_attacker,
}

-- The prices of a round, as they are validated.
pub record Prices : Type 0 where
  pub locked : ℕ
  pub fair : ℕ

-- The round at validated prices.
abbrev pub to_round : Prices → Option Round
to_round p =
    some (record { locked_price = int (pos p.locked); fair_value_at_exercise = int (pos p.fair) })

abbrev pub AreUint : List Prices → Type 0
AreUint [] = Unit
AreUint (p ∷ ps) = (p.locked ≤ uint256_max) × (p.fair ≤ uint256_max) × AreUint ps

-- What a rational buyer gains, and how often, if no quote is refused.
abbrev pub total_gain : List Prices → ℕ
total_gain [] = 0
total_gain (p ∷ ps) = (p.fair - p.locked) + total_gain ps

abbrev pub profitable : List Prices → ℕ
profitable [] = 0
profitable (p ∷ ps) = (if ltb p.locked p.fair then 1 else 0) + profitable ps

abbrev pub total_locked : List Prices → ℕ
total_locked [] = 0
total_locked (p ∷ ps) = p.locked + total_locked ps

amount-int : (n : ℕ) (what : String) → n ≤ uint256_max → amount (int (pos n)) what ≡ ok n
unfolding amount
amount-int n what h = ground (arith, bounded_int-int uint256_max n h)

-- One round without repricing.
exercise_free :
    (slack : Slack) (p : Prices) (t : Tally)
    → t.loss + (p.fair - p.locked) ≤ uint256_max
    → exercise slack false p.locked p.fair t
      ≡ ok (record {
        exercised = t.exercised + (if ltb p.locked p.fair then 1 else 0);
        loss = t.loss + (p.fair - p.locked);
      })
unfolding exercise gain_of
exercise_free slack p t h = ground arith

play_free :
    (slack : Slack) (ps : List Prices) (t : Tally)
    → AreUint ps
    → t.loss + total_gain ps ≤ uint256_max
    → play slack false (map to_round ps) t
      ≡ ok (record { exercised = t.exercised + profitable ps; loss = t.loss + total_gain ps })
unfolding play ◌>>=◌
play_free slack [] t u h = ground arith
play_free slack (p ∷ ps) t u h = rw (amount-int p.locked "locked_price" u.0) (
    rw (amount-int p.fair "fair_value_now" u.1) (
      rw (exercise_free slack p t (omega arith)) (
        rw
          (play_free slack ps
            (record {
              exercised = t.exercised + (if ltb p.locked p.fair then 1 else 0);
              loss = t.loss + (p.fair - p.locked);
            })
            u.2 (omega arith))
          (ground arith))))

-- Without repricing, on prices within uint256 whose gains add up to no more than uint256, the
-- simulated loss is exactly the sum of the gains, over the rounds in which the fair value has
-- risen above the locked price.
pub simulate_attacker_free :
    (ps : List Prices) (n d : ℕ)
    → n ≤ d
    → AreUint ps
    → total_gain ps ≤ uint256_max
    → simulate_attacker (map to_round ps) (fraction (pos n) d) (bool false)
      ≡ ok (record {
        rounds = length (map to_round ps);
        exercised = profitable ps;
        system_loss = total_gain ps;
      })
unfolding simulate_attacker tolerance ◌>>=◌
simulate_attacker_free ps n d h u fits =
    let slack : Slack = record { numerator = n; denominator = d } in
    let start : Tally = record { exercised = 0; loss = 0 } in
    ground (arith, play_free slack ps start u (omega arith))

product_bound :
    (locked fair d n k : ℕ) → fair ≡ locked + k → fair * d ≤ locked * (d + n) → k * d ≤ locked * n
product_bound locked fair d n k e h = omega (arith, ap (λ (t : ℕ). t * d) e)

gain_bound :
    (locked fair d n : ℕ)
    → locked ≤ fair
    → fair * d ≤ locked * (d + n)
    → (fair - locked) * d ≤ locked * n
gain_bound locked fair d n h k = product_bound locked fair d n (fair - locked) (omega arith) k

-- One repriced round costs at most the tolerated part of its locked price.
exercise_bound :
    (slack : Slack) (locked fair : ℕ) (t : Tally)
    → Ensures
        (λ t'. t'.loss * slack.denominator ≤ t.loss * slack.denominator + locked * slack.numerator)
        (exercise slack true locked fair t)
unfolding exercise gain_of is_stale
exercise_bound slack locked fair t = record {
  holds = ground (arith, gain_bound locked fair slack.denominator slack.numerator);
}

amount-is : (n : ℕ) (what : String) → Ensures (λ m. m ≡ n) (amount (int (pos n)) what)
unfolding amount bounded_int
amount-is n what = record { holds = ground arith }

tolerance-is :
    (n d : ℕ)
    → Ensures (λ s. (s.numerator ≡ n) × (s.denominator ≡ d)) (tolerance (fraction (pos n) d))
unfolding tolerance
tolerance-is n d = record { holds = ground arith }

play_bound :
    (slack : Slack) (ps : List Prices) (t : Tally)
    → Ensures
        (λ t'.
          t'.loss * slack.denominator
          ≤ t.loss * slack.denominator + total_locked ps * slack.numerator)
        (play slack true (map to_round ps) t)
unfolding play
play_bound slack [] t = record { holds = omega arith }
play_bound slack (p ∷ ps) t = Ensures-bind (amount-is p.locked "locked_price") λ locked e.
    Ensures-skip _ _ λ fair. Ensures-bind (exercise_bound slack locked fair t) λ t' b.
      Ensures-map (play_bound slack ps t')
        λ t'' b'. omega (arith, b, b', ap (λ (l : ℕ). l * slack.numerator) e)

-- A loss of zero in the units of the denominator is a loss of zero.
no_loss : (loss locked n d : ℕ) → 0 < d → loss * d ≤ locked * n → n ≡ 0 → loss ≡ 0
no_loss zero locked n d low h e = refl
no_loss (suc loss) locked n d low h e = absurd (omega (arith, ap (λ (k : ℕ). locked * k) e))

-- With repricing the loss is at most the tolerated part of what was locked, and so nothing at all
-- for a tolerance of zero.
pub simulate_attacker_repriced :
    (ps : List Prices) (n d : ℕ) (r : ExploitResult)
    → 0 < d
    → simulate_attacker (map to_round ps) (fraction (pos n) d) (bool true) ≡ ok r
    → (r.system_loss * d ≤ total_locked ps * n) × (n ≡ 0 → is_exploitable r ≡ false)
unfolding simulate_attacker is_exploitable
simulate_attacker_repriced ps n d r low =
    Ensures-eq_ok
      {P = λ q. (q.system_loss * d ≤ total_locked ps * n) × (n ≡ 0 → is_exploitable q ≡ false)}
      (Ensures-bind (tolerance-is n d) λ slack same.
        Ensures-bind (play_bound slack ps (record { exercised = 0; loss = 0 })) λ t b.
          let bound : t.loss * d ≤ total_locked ps * n = omega (
            arith,
            b,
            ap (λ (k : ℕ). t.loss * k) same.1,
            ap (λ (k : ℕ). total_locked ps * k) same.0,
          ) in
          record {
            holds = (bound, λ e. ground (arith, no_loss t.loss (total_locked ps) n d low bound e));
          })
