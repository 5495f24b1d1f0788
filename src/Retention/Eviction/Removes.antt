-- ===== src/Retention/Eviction/Removes.antt =====
-- Which rows a removal takes.
use torrent_tv.Prelude.{
  ◌≡◌, ◌≢◌, refl, sym, ap, ◌∙◌, Bool, true, false, not, Option, none, some, List, [], ◌∷◌, ◌⊎◌, inl,
  inr, In, In-keep, keep, Bool-cases, arith, if◌then◌else◌,
}
use torrent_tv.Prelude.Bytes.{Bytes, eqb, eqb_iff}
use torrent_tv.Retention.{Download}
use torrent_tv.Retention.Survey.{
  Round, Failure, Removal, removed, not_found, broken, listing, removing, deleting,
  engine_unavailable, owner,
}
use torrent_tv.Retention.Eviction.{
  delete_row, forget_rows, forget_engine_rows, after_removal, remove_torrent,
}

module _ {F : Type 0} where
  -- A row of the engine route has the id of `d`.
  abbrev pub IsTaken : Bytes → List (Download F) → Download F → Type 0
  IsTaken id rows d = (item : Download F) × In item rows × (item.engine_id ≡ id) × (d.id ≡ item.id)

  -- What is left was there before, and what is gone has the id of a row of the route.
  abbrev pub TakesOnly : Bytes → List (Download F) → List (Download F) → Type 0
  TakesOnly id rows rows' =
      ((d : Download F) → In d rows' → In d rows)
      × ((d : Download F) → In d rows → In d rows' ⊎ IsTaken id rows d)

  -- No row of the route is left.
  abbrev pub TakesAll : Bytes → List (Download F) → Type 0
  TakesAll id rows' = (d : Download F) → In d rows' → d.engine_id ≢ id

  In-keep_back :
      (p : Download F → Bool) (d : Download F) (rows : List (Download F))
      → In d (keep p rows)
      → In d rows × (p d ≡ true)
  In-keep_back p d [] i = absurd i
  In-keep_back p d (x ∷ xs) i = by_test (p x) refl i (λ j. In-keep_back p d xs j)
    where
      by_test :
          (b : Bool)
          → p x ≡ b
          → In d (elim b [ true ↦ x ∷ keep p xs | false ↦ keep p xs ])
          → (In d (keep p xs) → In d xs × (p d ≡ true))
          → In d (x ∷ xs) × (p d ≡ true)
      by_test true e (inl same) k = (inl same, ap p same ∙ e)
      by_test true e (inr j) k = let (m, q) = k j in (inr m, q)
      by_test false e j k = let (m, q) = k j in (inr m, q)

  delete_row-In_back :
      (id : Bytes) (d : Download F) (rows : List (Download F))
      → In d (delete_row id rows)
      → In d rows × (eqb d.id id ≡ false)
  unfolding delete_row
  delete_row-In_back id d rows i =
      let (j, e) = In-keep_back (λ x. not (eqb x.id id)) d rows i in (j, ground arith)

  In-delete_row :
      (id : Bytes) (d : Download F) (rows : List (Download F))
      → In d rows
      → eqb d.id id ≡ false
      → In d (delete_row id rows)
  unfolding delete_row
  In-delete_row id d rows i e = In-keep (λ x. not (eqb x.id id)) d rows i (ap not e)

  -- The loop over the rows `managed` that were listed in a route.
  abbrev Loop :
      Bytes → List (Download F) → List (Download F) → List (Download F) × Option Failure → Type 0
  Loop id managed rows r =
      ((d : Download F) → In d r.0 → In d rows)
      × ((d : Download F) → In d rows → In d r.0 ⊎ IsTaken id managed d)
      × (r.1 ≡ none
          → (d item : Download F) → In item managed
          → item.engine_id ≡ id
          → In d r.0
          → eqb d.id item.id ≡ false)

  IsTaken-later :
      (id : Bytes) (item : Download F) (managed : List (Download F)) (d : Download F) {P : Type 0}
      → P ⊎ IsTaken id managed d
      → P ⊎ IsTaken id (item ∷ managed) d
  IsTaken-later id item managed d (inl p) = inl p
  IsTaken-later id item managed d (inr (x, i, e, f)) = inr (x, inr i, e, f)

  skip-Loop :
      (id : Bytes) (item : Download F) (managed rows : List (Download F))
      (r : List (Download F) × Option Failure)
      → eqb item.engine_id id ≡ false
      → Loop id managed rows r
      → Loop id (item ∷ managed) rows r
  skip-Loop id item managed rows r other (sub, only, all) =
      (sub, (λ d i. IsTaken-later id item managed d (only d i)), gone)
    where
      gone :
          r.1 ≡ none
          → (d x : Download F) → In x (item ∷ managed)
          → x.engine_id ≡ id
          → In d r.0
          → eqb d.id x.id ≡ false
      gone e d x (inr i) m j = all e d x i m j
      gone e d x (inl same) m j = absurd (
          clash (
            sym other
            ∙ (eqb_iff item.engine_id id).1 (ap (λ (y : Download F). y.engine_id) (sym same) ∙ m)))
        where
          clash : ¬ (false ≡ true)
          clash k = cc

  next-Loop :
      (id : Bytes) (item : Download F) (managed rows : List (Download F))
      (r : List (Download F) × Option Failure)
      → item.engine_id ≡ id
      → Loop id managed (delete_row item.id rows) r
      → Loop id (item ∷ managed) rows r
  next-Loop id item managed rows r mine (sub, only, all) =
      ((λ d i. (delete_row-In_back item.id d rows (sub d i)).0), taken, gone)
    where
      taken : (d : Download F) → In d rows → In d r.0 ⊎ IsTaken id (item ∷ managed) d
      taken d i = elim (Bool-cases (eqb d.id item.id)) [
        | inl hit ↦ inr (item, inl refl, mine, (eqb_iff d.id item.id).0 hit)
        | inr miss ↦ IsTaken-later id item managed d (only d (In-delete_row item.id d rows i miss))
      ]

      gone :
          r.1 ≡ none
          → (d x : Download F) → In x (item ∷ managed)
          → x.engine_id ≡ id
          → In d r.0
          → eqb d.id x.id ≡ false
      gone e d x (inr i) m j = all e d x i m j
      gone e d x (inl same) m j =
          ap (λ (y : Download F). eqb d.id y.id) same
          ∙ (delete_row-In_back item.id d rows (sub d j)).1

  failed-Loop :
      (id : Bytes) (managed rows : List (Download F)) (e : Failure)
      → Loop id managed rows (rows, some e)
  failed-Loop id managed rows e = ((λ d i. i), (λ d i. inl i), λ k. absurd (clash k))
    where
      clash : ¬ (some e ≡ none)
      clash k = cc

  forget_rows-Loop :
      (deletes : Bytes → Bool) (id : Bytes) (managed rows : List (Download F))
      → Loop id managed rows (forget_rows deletes id managed rows)
  unfolding forget_rows
  forget_rows-Loop deletes id [] rows = ((λ d i. i), (λ d i. inl i), λ e d x i m j. absurd i)
  forget_rows-Loop deletes id (item ∷ managed) rows =
      let skip = forget_rows-Loop deletes id managed rows in
      let next = forget_rows-Loop deletes id managed (delete_row item.id rows) in
      elim (Bool-cases (eqb item.engine_id id)) [
        | inr other ↦
            rw (other, forget_rows)
              (skip-Loop id item managed rows (forget_rows deletes id managed rows) other skip)
        | inl mine ↦ elim (Bool-cases (deletes item.id)) [
          | inl goes ↦
              rw (mine, goes, forget_rows)
                (next-Loop id item managed rows
                  (forget_rows deletes id managed (delete_row item.id rows))
                  ((eqb_iff item.engine_id id).0 mine) next)
          | inr stays ↦
              rw (mine, stays, forget_rows) (failed-Loop id (item ∷ managed) rows deleting)
        ]
      ]

  forget_engine_rows-Loop :
      (round : Round F) (id : Bytes) (rows : List (Download F))
      → Loop id rows rows (forget_engine_rows round id rows)
  unfolding forget_engine_rows
  forget_engine_rows-Loop round id rows = by_listing round.lists_rows
    where
      by_listing :
          (b : Bool)
          → Loop id rows rows
              (if b then forget_rows round.deletes id rows rows else (rows, some listing))
      by_listing true = forget_rows-Loop round.deletes id rows rows
      by_listing false = failed-Loop id rows rows listing

  remove_torrent-Loop :
      (registered : Bytes → Bool) (round : Round F) (id : Bytes) (rows : List (Download F))
      → Loop id rows rows (remove_torrent registered round id rows)
  unfolding remove_torrent
  remove_torrent-Loop registered round id rows = by_owner (owner registered id)
    where
      by_removal : (r : Removal) → Loop id rows rows (after_removal r round id rows)
      by_removal removed = forget_engine_rows-Loop round id rows
      by_removal not_found = forget_engine_rows-Loop round id rows
      by_removal broken = failed-Loop id rows rows removing

      by_owner :
          (o : Option Bytes)
          → Loop id rows rows (elim o [
            | none ↦ (rows, some (engine_unavailable id))
            | some hash ↦ after_removal (round.removal id) round id rows
          ])
      by_owner none = failed-Loop id rows rows (engine_unavailable id)
      by_owner (some hash) = by_removal (round.removal id)

  pub remove_torrent-TakesOnly :
      (registered : Bytes → Bool) (round : Round F) (id : Bytes) (rows : List (Download F))
      → TakesOnly id rows (remove_torrent registered round id rows).0
  remove_torrent-TakesOnly registered round id rows =
      let (sub, only, all) = remove_torrent-Loop registered round id rows in (sub, only)

  pub remove_torrent-TakesAll :
      (registered : Bytes → Bool) (round : Round F) (id : Bytes) (rows : List (Download F))
      → (remove_torrent registered round id rows).1 ≡ none
      → TakesAll id (remove_torrent registered round id rows).0
  remove_torrent-TakesAll registered round id rows e d i m =
      let (sub, only, all) = remove_torrent-Loop registered round id rows in
      clash (sym (all e d d (sub d i) m i) ∙ (eqb_iff d.id d.id).1 refl)
    where
      clash : ¬ (false ≡ true)
      clash k = cc
