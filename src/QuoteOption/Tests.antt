-- ===== src/QuoteOption/Tests.antt =====
-- Three rounds of which two are worth exercising.
use psv.Base.{ℕ, ◌*◌, ◌≤◌, ◌≡◌, refl, true, false, List, [], ◌∷◌, map, arith, ok, ◌>>=◌}
use psv.Base.Int.{pos}
use psv.Value.{bool, bounded_int}
use psv.QuoteOption.{
  tolerance, amount, is_stale, gain_of, exercise, is_exploitable, play, simulate_attacker, fraction,
}
use psv.QuoteOption.Simulation.{Prices, to_round, simulate_attacker_repriced}

abbrev prices : List Prices
prices =
    record { locked = 100; fair = 130 }
    ∷ record { locked = 100; fair = 101 }
    ∷ record { locked = 100; fair = 90 }
    ∷ []

-- The first round is refused; the second costs 1, within two percent.
repriced :
    simulate_attacker (map to_round prices) (fraction (pos 2) 100) (bool true)
    ≡ ok (record { rounds = 3; exercised = 1; system_loss = 1 })
unfolding simulate_attacker play exercise gain_of is_stale amount tolerance bounded_int ◌>>=◌
repriced = refl

simulate_attacker_repriced_example :
    (1 * 100 ≤ 300 * 2)
    × (◌≡◌ {A = ℕ} 2 0
        → is_exploitable (record { rounds = 3; exercised = 1; system_loss = 1 }) ≡ false)
simulate_attacker_repriced_example =
    simulate_attacker_repriced prices 2 100 (record { rounds = 3; exercised = 1; system_loss = 1 })
      (omega arith) repriced
