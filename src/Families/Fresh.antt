-- ===== src/Families/Fresh.antt =====
-- The tiles that count as fresh.
use torrent_tv.Prelude.{
  ℕ, ◌+◌, ◌≤◌, ◌≡◌, ◌≢◌, refl, subst, Time, Bool, true, false, Option, none, some, ◌==◌,
  if◌then◌else◌, arith,
}
use torrent_tv.Families.{
  FamilyCache, Flight, no_flight, begun, building, Families, cold, family_cache_ttl, start_flight,
  invalidate_families, stale, refresh_families, tiles, answer_of, families_fresh, warm_families,
  catalog_families, finish_build, Step, invalidates, refreshes, warms, asks, reads, finishes, Reach,
  here, next,
}

-- Tiles with a time are of the current generation, and every other one is at most of it.
abbrev Kept : ℕ → Option FamilyCache → Type 0
Kept gen none = Unit
Kept gen (some c) = (c.built ≤ gen) × (c.at ≢ 0 → c.built ≡ gen)

abbrev Reads : ℕ → Flight → Type 0
Reads gen no_flight = Unit
Reads gen begun = Unit
Reads gen (building g) = g ≤ gen

abbrev IsKept : Families → Type 0
IsKept s = Kept s.gen s.cache × Reads s.gen s.flight

Reads-suc : (gen : ℕ) (f : Flight) → Reads gen f → Reads (gen + 1) f
Reads-suc gen no_flight h = tt
Reads-suc gen begun h = tt
Reads-suc gen (building g) h = omega arith

Reads-start_flight :
    (gen : ℕ) (stopping : Bool) (f : Flight) → Reads gen f → Reads gen (start_flight stopping f)
unfolding start_flight
Reads-start_flight gen true no_flight h = tt
Reads-start_flight gen false no_flight h = tt
Reads-start_flight gen stopping begun h = tt
Reads-start_flight gen stopping (building g) h = h

stale-Kept : (gen : ℕ) (c : Option FamilyCache) → Kept gen c → Kept (gen + 1) (stale c)
stale-Kept gen none h = tt
stale-Kept gen (some c) (l, k) = (omega arith, λ n. absurd (n refl))

module _ (art_quarter : Time → ℕ) where
  warm_families-IsKept :
      (stopping : Bool) (now : Time) (s : Families)
      → IsKept s
      → IsKept (warm_families art_quarter stopping now s)
  unfolding warm_families
  warm_families-IsKept stopping now s (c, r) = by_test (families_fresh art_quarter now s.cache)
    where
      by_test :
          (b : Bool)
          → IsKept (if b then s else record s { flight = start_flight stopping s.flight })
      by_test true = (c, r)
      by_test false = (c, Reads-start_flight s.gen stopping s.flight r)

  finish_build-IsKept :
      (g : ℕ) (failed : Bool) (now : Time) (s : Families)
      → g ≤ s.gen
      → IsKept s
      → IsKept (finish_build art_quarter g failed now s)
  unfolding finish_build
  finish_build-IsKept g true now s l (c, r) = (c, tt)
  finish_build-IsKept g false now s l (c, r) = by_test (s.gen == g) refl
    where
      by_test :
          (b : Bool)
          → (s.gen == g) ≡ b
          → IsKept (
              if b
              then record s {
                cache = some (record { at = now; quarter = art_quarter now; built = g });
                flight = no_flight;
              }
              else record s {
                cache = some (record { at = 0; quarter = art_quarter now; built = g });
                flight = begun;
              })
      by_test true e = ((l, λ n. ground arith), tt)
      by_test false e = ((l, λ n. absurd (n refl)), tt)

  Step-IsKept : {s t : Families} → Step art_quarter s t → IsKept s → IsKept t
  unfolding invalidate_families refresh_families catalog_families
  Step-IsKept {s} invalidates (c, r) = (tt, Reads-suc s.gen s.flight r)
  Step-IsKept {s} (refreshes stopping) (c, r) = (
    stale-Kept s.gen s.cache c,
    Reads-start_flight (s.gen + 1) stopping s.flight (Reads-suc s.gen s.flight r),
  )
  Step-IsKept {s} (warms stopping now) v = warm_families-IsKept stopping now s v
  Step-IsKept {s} (asks stopping now) v = warm_families-IsKept stopping now s v
  Step-IsKept {s} (reads e) (c, r) = (c, omega arith)
  Step-IsKept {s} (finishes g failed now e) (c, r) =
      finish_build-IsKept g failed now s (subst (Reads s.gen) e r) (c, r)

  Reach-IsKept : {s : Families} → Reach art_quarter cold s → IsKept s
  Reach-IsKept here = (tt, tt)
  Reach-IsKept (next r st) = Step-IsKept st (Reach-IsKept r)

  -- Tiles that count as fresh, at a time that is ten minutes behind the zero time or more, were
  -- computed in the current generation.
  abbrev pub IsCurrent : Time → Families → Type 0
  IsCurrent now s =
      (c : FamilyCache)
      → s.cache ≡ some c
      → families_fresh art_quarter now s.cache ≡ true
      → c.built ≡ s.gen

  fresh_lem :
      (now : Time) (gen : ℕ) (o : Option FamilyCache) (c : FamilyCache)
      → family_cache_ttl ≤ now
      → Kept gen o
      → o ≡ some c
      → families_fresh art_quarter now o ≡ true
      → c.built ≡ gen
  unfolding families_fresh
  fresh_lem now gen none c t k e f = absurd cc
  fresh_lem now gen (some d) c t (l, k) e f = same c e (k (λ z. not_at_zero z))
    where
      not_at_zero : ¬ (d.at ≡ 0)
      not_at_zero z = ground arith

      same : (c : FamilyCache) → some d ≡ some c → d.built ≡ gen → c.built ≡ gen
      same c e h = subst (λ (x : FamilyCache). x.built ≡ gen) (content e) h
        where
          content : some d ≡ some c → d ≡ c
          content q = cc

  -- In every interleaving of callers, calls of RefreshFamilies and invalidateFamilies, and
  -- computations, from an empty cache: at any time of at least ten minutes, tiles that count as fresh
  -- are of the current generation, so that neither of the two calls came since their computation
  -- read it. Changes of the catalog without such a call are not seen.
  pub Reach-IsCurrent :
      {s : Families} (now : Time)
      → family_cache_ttl ≤ now
      → Reach art_quarter cold s
      → IsCurrent now s
  Reach-IsCurrent {s} now t r c e f = fresh_lem now s.gen s.cache c t (Reach-IsKept r).0 e f

  -- If a computation is running when the cache is invalidated, and then succeeds, the next caller
  -- does not wait, and is answered with tiles of a generation before the invalidation.
  pub invalidate_families-tiles :
      (stopping : Bool) (g : ℕ) (now later : Time) {s : Families}
      → Reach art_quarter cold s
      → s.flight ≡ building g
      → ((catalog_families art_quarter stopping later
            (finish_build art_quarter g false now (invalidate_families s))).0
          ≡ tiles (record { at = 0; quarter = art_quarter now; built = g }))
        × (g ≤ s.gen)
  unfolding catalog_families warm_families finish_build invalidate_families
  invalidate_families-tiles stopping g now later {s} r e =
      (rw changed (served begun (families_fresh art_quarter later old)), before)
    where
      before : g ≤ s.gen
      before = subst (Reads s.gen) e (Reach-IsKept r).1

      changed : (s.gen + 1 == g) ≡ false
      changed = ground (arith, before)

      old : Option FamilyCache
      old = some (record { at = 0; quarter = art_quarter now; built = g })

      after : Flight → Families
      after f = record { cache = old; gen = s.gen + 1; flight = f }

      served :
          (f : Flight) (b : Bool)
          → answer_of
              (if b then after f else record (after f) { flight = start_flight stopping f }).cache
              (if b then after f else record (after f) { flight = start_flight stopping f }).flight
            ≡ tiles (record { at = 0; quarter = art_quarter now; built = g })
      served f true = refl
      served f false = refl
