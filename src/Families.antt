-- ===== src/Families.antt =====
-- internal/application/families.go: the cache of the category tiles and the computation in the
-- background. Each constructor of `Step` is one critical section under familyMu. Tiles are known by
-- the generation of the cache that their computation read. A change of the catalog counts here only
-- if `RefreshFamilies` or `invalidateFamilies` is called for it.
pub mod Fresh
mod Tests
use torrent_tv.Prelude.{
  ℕ, ◌+◌, ◌-◌, ◌*◌, ◌^◌, ◌≤◌, ◌≡◌, Time, Bool, true, false, not, ◌&&◌, Option, none, some, ltb, leb,
  ◌==◌, if◌then◌else◌,
}

-- `familyCache` where it has items; the zero time is 0.
pub record FamilyCache : Type 0 where
  pub at : Time
  pub quarter : ℕ
  pub built : ℕ

-- `familyFlight` and where `runFamilyFlight` is: before it reads the generation, or behind that.
pub data Flight : Type 0 where
  no_flight begun : Flight
  building : ℕ → Flight

pub record Families : Type 0 where
  pub cache : Option FamilyCache
  pub gen : ℕ
  pub flight : Flight

abbrev pub cold : Families
cold = record { cache = none; gen = 0; flight = no_flight }

-- `familyCacheTTL`: ten minutes.
abbrev pub family_cache_ttl : ℕ
family_cache_ttl = 600 * 10 ^ 9

-- `startFamilyFlightLocked`.
unfoldable pub start_flight : Bool → Flight → Flight
start_flight stopping no_flight = if stopping then no_flight else begun
start_flight stopping begun = begun
start_flight stopping (building g) = building g

unfoldable pub invalidate_families : Families → Families
invalidate_families s = record s { cache = none; gen = s.gen + 1 }

abbrev pub stale : Option FamilyCache → Option FamilyCache
stale none = none
stale (some c) = some (record c { at = 0 })

unfoldable pub refresh_families : Bool → Families → Families
unfolding start_flight
refresh_families stopping s = record s {
  cache = stale s.cache;
  gen = s.gen + 1;
  flight = start_flight stopping s.flight;
}

-- What a caller gets: the tiles of the cache, or what the running computation will answer, or an error
-- of a service that stops.
pub data Answer : Type 0 where
  tiles : FamilyCache → Answer
  waits unavailable : Answer

abbrev pub answer_of : Option FamilyCache → Flight → Answer
answer_of (some c) f = tiles c
answer_of none no_flight = unavailable
answer_of none begun = waits
answer_of none (building g) = waits

module _ (art_quarter : Time → ℕ) where
  -- `familiesFreshLocked`.
  unfoldable pub families_fresh : Time → Option FamilyCache → Bool
  families_fresh now none = false
  families_fresh now (some c) =
      (c.quarter == art_quarter now) && ltb (now - c.at) family_cache_ttl && leb c.at now

  unfoldable pub warm_families : Bool → Time → Families → Families
  unfolding families_fresh start_flight
  warm_families stopping now s =
      if families_fresh now s.cache then s else record s { flight = start_flight stopping s.flight }

  -- `CatalogFamilies` up to its wait.
  unfoldable pub catalog_families : Bool → Time → Families → Answer × Families
  unfolding warm_families
  catalog_families stopping now s =
      let t = warm_families stopping now s in (answer_of t.cache t.flight, t)

  -- The second critical section of `runFamilyFlight`, for a computation that read the generation `g`.
  unfoldable pub finish_build : ℕ → Bool → Time → Families → Families
  finish_build g failed now s =
      if failed
      then record s { flight = no_flight }
      else if s.gen == g
      then record s {
        cache = some (record { at = now; quarter = art_quarter now; built = g });
        flight = no_flight;
      }
      else record s {
        cache = some (record { at = 0; quarter = art_quarter now; built = g });
        flight = begun;
      }

  pub data Step (s : Families) : Families → Type 0 where
    invalidates : Step s (invalidate_families s)
    refreshes : (stopping : Bool) → Step s (refresh_families stopping s)
    warms : (stopping : Bool) (now : Time) → Step s (warm_families stopping now s)
    asks : (stopping : Bool) (now : Time) → Step s (catalog_families stopping now s).1
    reads : s.flight ≡ begun → Step s (record s { flight = building s.gen })
    finishes :
        (g : ℕ) (failed : Bool) (now : Time)
        → s.flight ≡ building g
        → Step s (finish_build g failed now s)

  pub data Reach (start : Families) : Families → Type 0 where
    here : Reach start start
    next : {s t : Families} → Reach start s → Step s t → Reach start t
