-- ===== src/Retention/Eviction.antt =====
-- `evictNext`, `removeTorrent` and `forgetEngineRows`.
pub mod Shrinks
pub mod Removes
pub mod Spec
use torrent_tv.Prelude.{
  ℕ, zero, suc, ◌+◌, ◌≡◌, refl, Bool, true, false, not, Option, none, some, List, [], ◌∷◌, ◌++◌,
  keep, if◌then◌else◌,
}
use torrent_tv.Prelude.Bytes.{Bytes, eqb}
use torrent_tv.Retention.{Float, Download, RetentionRoute, RetentionPlan, Settings}
use torrent_tv.Retention.Victim.{SliceSort, victim_of}
use torrent_tv.Retention.Survey.{
  Round, Removal, removed, not_found, broken, Failure, listing, removing, deleting,
  engine_unavailable, owner,
}

module _ {F : Type 0} where
  -- `DeleteDownload` of one row.
  pub delete_row : Bytes → List (Download F) → List (Download F)
  unfolding eqb
  delete_row id = keep (λ d. not (eqb d.id id))

  -- The loop of `forgetEngineRows` over the rows that were listed.
  pub forget_rows :
      (Bytes → Bool)
      → Bytes
      → List (Download F)
      → List (Download F)
      → List (Download F) × Option Failure
  unfolding delete_row
  forget_rows deletes engine_id [] rows = (rows, none)
  forget_rows deletes engine_id (item ∷ managed) rows =
      let skip = forget_rows deletes engine_id managed rows in
      let next = forget_rows deletes engine_id managed (delete_row item.id rows) in
      if not (eqb item.engine_id engine_id)
      then skip
      else if deletes item.id
      then next
      else (rows, some deleting)

  unfoldable pub forget_engine_rows :
      Round F → Bytes → List (Download F) → List (Download F) × Option Failure
  unfolding forget_rows
  forget_engine_rows round engine_id rows =
      if round.lists_rows
      then forget_rows round.deletes engine_id rows rows
      else (rows, some listing)

  abbrev after_removal :
      Removal → Round F → Bytes → List (Download F) → List (Download F) × Option Failure
  after_removal removed round engine_id rows = forget_engine_rows round engine_id rows
  after_removal not_found round engine_id rows = forget_engine_rows round engine_id rows
  after_removal broken round engine_id rows = (rows, some removing)

  unfoldable pub remove_torrent :
      (Bytes → Bool) → Round F → Bytes → List (Download F) → List (Download F) × Option Failure
  unfolding owner forget_engine_rows
  remove_torrent registered round engine_id rows = elim (owner registered engine_id) [
    | none ↦ (rows, some (engine_unavailable engine_id))
    | some hash ↦ after_removal (round.removal engine_id) round engine_id rows
  ]

-- What `evictNext` comes to, with the managed rows behind it.
pub data Evicted (F : Type 0) : Type 0 where
  nobody : Evicted F
  eviction_failed : Failure → List (Download F) → Evicted F
  evicted : RetentionRoute F → List (Download F) → Evicted F

abbrev pub outcome_of :
    {F : Type 0} → RetentionRoute F → List (Download F) × Option Failure → Evicted F
outcome_of victim (rows, none) = evicted victim rows
outcome_of victim (rows, some e) = eviction_failed e rows

module _ {F : Type 0} (float : Float F) (sorter : SliceSort F) (registered leases : Bytes → Bool)
    (settings : Settings F) where
  unfoldable pub evict_next : Round F → List Bytes → RetentionPlan F → List (Download F) → Evicted F
  unfolding victim_of remove_torrent
  evict_next round rules plan rows =
      elim (victim_of float sorter leases settings rules plan.routes) [
        | none ↦ nobody
        | some victim ↦ outcome_of victim (remove_torrent registered round victim.engine_id rows)
      ]
