-- ===== src/Families/Tests.antt =====
-- A computation that ends, and one that a new generation overtakes.
use torrent_tv.Prelude.{ℕ, ◌≡◌, ◌/◌, ◌≤◌, refl, Time, false, arith}
use torrent_tv.Families.{
  Families, cold, building, invalidate_families, warm_families, catalog_families, finish_build,
  tiles, Reach, here, next, warms, reads, finishes,
}
use torrent_tv.Families.Fresh.{IsCurrent, Reach-IsCurrent, invalidate_families-tiles}

abbrev quarter : Time → ℕ
quarter now = now / 1000

abbrev computing : Families
computing = record (warm_families quarter false 5 cold) { flight = building 0 }

computing-Reach : Reach quarter cold computing
unfolding warm_families
computing-Reach = next (next here (warms false 5)) (reads refl)

abbrev computed : Families
computed = finish_build quarter 0 false 700000000000 computing

computed-Reach : Reach quarter cold computed
computed-Reach = next computing-Reach (finishes 0 false 700000000000 refl)

Reach-IsCurrent_example : IsCurrent quarter 700000000001 computed
Reach-IsCurrent_example = Reach-IsCurrent quarter 700000000001 (omega arith) computed-Reach

invalidate_families-tiles_example :
    ((catalog_families quarter false 9
        (finish_build quarter 0 false 7 (invalidate_families computing))).0
      ≡ tiles (record { at = 0; quarter = quarter 7; built = 0 }))
    × (0 ≤ computing.gen)
invalidate_families-tiles_example =
    invalidate_families-tiles quarter false 0 7 9 computing-Reach refl
