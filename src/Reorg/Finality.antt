-- ===== src/Reorg/Finality.antt =====
-- When `assess_finality` calls a settlement final.
use psv.Base.{ℕ, ◌+◌, ◌≤◌, ◌≡◌, refl, ◌≢◌, ◌↔◌, true, Option, none, some, arith, ok, ◌>>=◌}
use psv.Value.{Value}
use psv.Text.{Text, lower}
use psv.Text.Laws.{text_eq_iff}
use psv.Reorg.{depth_of, is_final, hash, SettlementFinality, finality_of, assess_finality}

-- Deep enough and still on the canonical chain.
abbrev pub IsSafe : Text → Option Text → ℕ → ℕ → ℕ → Type 0
IsSafe settlement canonical current number required =
    (canonical ≡ some settlement) × (1 ≤ number) × (number + required ≤ current + 1)

-- On validated inputs the verdict is final exactly when the canonical hash at the settlement's
-- height is the settlement's, and the block is mined under the required number of blocks; it says
-- `reorged` exactly when a canonical hash is known and differs, whatever the depth.
pub finality_of_iff :
    (settlement : Text) (canonical : Option Text) (current number required : ℕ)
    → 1 ≤ required
    → let f = finality_of settlement canonical (depth_of current number) required in
      ((f.final ≡ true) ↔ IsSafe settlement canonical current number required)
      × ((f.reorged ≡ true) ↔ ((h : Text) × (canonical ≡ some h) × (h ≢ settlement)))
unfolding finality_of depth_of
finality_of_iff settlement none current number required low = ground arith
finality_of_iff settlement (some h) current number required low = (
  ground (arith, text_eq_iff h settlement),
  (
    λ e. (h, refl, ground (arith, text_eq_iff h settlement)),
    λ (x, e, ne). ground (arith, text_eq_iff h settlement),
  ),
)

-- Depth alone never makes a settlement final: what `assess_finality` calls final, `is_final` calls
-- final too, and its canonical hash is the settlement's.
pub assess_finality-is_final :
    (number : Value) (settlement : Text) (current : Value) (canonical : Option Text)
    (required : Value) (f : SettlementFinality)
    → assess_finality number settlement current canonical required ≡ ok f
    → f.final ≡ true
    → (is_final current number required ≡ ok true)
      × (h : Text) × (canonical ≡ some h)
      × (lower h ≡ lower settlement)
unfolding assess_finality is_final hash finality_of ◌>>=◌
assess_finality-is_final number settlement current none required f h e = ground arith
assess_finality-is_final number settlement current (some c) required f h e =
    (ground arith, c, refl, ground (arith, text_eq_iff (lower c) (lower settlement)))

-- A final settlement stays final as the chain grows, while its block stays canonical.
pub finality_of_mono :
    (settlement : Text) (canonical : Option Text) (current later number required : ℕ)
    → current ≤ later
    → (finality_of settlement canonical (depth_of current number) required).final ≡ true
    → (finality_of settlement canonical (depth_of later number) required).final ≡ true
unfolding finality_of depth_of
finality_of_mono settlement none current later number required h e = ground arith
finality_of_mono settlement (some c) current later number required h e = ground arith
