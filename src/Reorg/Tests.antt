-- ===== src/Reorg/Tests.antt =====
-- Finality at concrete heights.
use psv.Reorg.Finality.{finality_of_iff, IsSafe}
use psv.Base.{◌≡◌, refl, ◌≢◌, ◌↔◌, true, false, some, arith, ok, ◌>>=◌}
use psv.Base.Int.{pos}
use psv.Text.{Text, codes, text_eq, lower}
use psv.Value.{int, bounded_int}
use psv.Reorg.{
  deep_and_canonical, depth_of, assess_finality, finality_of, SettlementFinality, confirmations,
  is_final,
}

at_height : confirmations (int (pos 12)) (int (pos 10)) ≡ ok 3
unfolding confirmations psv.Reorg.block psv.Reorg.depth_of bounded_int ◌>>=◌
at_height = refl

abbrev mined : Text
mined = codes "0xaabbccddeeff00112233445566778899aabbccddeeff00112233445566778899"

abbrev orphan : Text
orphan = codes "0x00112233445566778899aabbccddeeffaabbccddeeff00112233445566778899"

abbrev settled : SettlementFinality
settled = record { confirmations = 3; final = true; reorged = false; reason = deep_and_canonical }

finality_of_iff_example :
    let f = finality_of mined (some orphan) (depth_of 12 10) 3 in
    ((f.final ≡ true) ↔ IsSafe mined (some orphan) 12 10 3)
    × ((f.reorged ≡ true) ↔ ((h : Text) × (some orphan ≡ some h) × (h ≢ mined)))
finality_of_iff_example = finality_of_iff mined (some orphan) 12 10 3 (omega arith)

assessed :
    assess_finality (int (pos 10)) mined (int (pos 12)) (some mined) (int (pos 3)) ≡ ok settled
unfolding assess_finality finality_of depth_of ◌>>=◌ psv.Reorg.required_depth psv.Reorg.hash
    psv.Text.Hex.is_hex_of codes confirmations psv.Reorg.block bounded_int psv.Text.text_eq lower
assessed = refl

still_final : (finality_of mined (some mined) (depth_of 12 10) 3).final ≡ true
unfolding finality_of depth_of psv.Text.text_eq codes
still_final = refl
