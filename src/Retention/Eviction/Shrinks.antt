-- ===== src/Retention/Eviction/Shrinks.antt =====
-- A torrent that is removed takes its managed rows with it.
use torrent_tv.Prelude.{
  ◌≤◌, ◌<◌, ◌≡◌, refl, sym, ap, subst, ◌∙◌, Bool, true, false, not, Option, none, some, List, [],
  ◌∷◌, inl, inr, In, In-keep, keep-strict, All, All-append, length, length-keep-le, Bool-cases,
  Option-cases, arith,
}
use torrent_tv.Prelude.Bytes.{Bytes, eqb, eqb_iff}
use torrent_tv.Retention.{Download, DownloadStatus, RetentionRoute, RetentionPlan}
use torrent_tv.Retention.Household.{RetentionHousehold}
use torrent_tv.Retention.Survey.{
  Round, listing, Group, add_row, group_rows, add_routes, add_owner, route_prefix, make_route,
  owner, retention_survey, find_household, plan_of, failed, done,
}
use torrent_tv.Retention.Eviction.{delete_row, forget_rows, remove_torrent}

done-injective : {A : Type 0} {x y : A} → done x ≡ done y → x ≡ y
done-injective e = cc

module _ {F : Type 0} where
  delete_row-le :
      (id : Bytes) (rows : List (Download F)) → length (delete_row id rows) ≤ length rows
  unfolding delete_row
  delete_row-le id rows = length-keep-le (λ d. not (eqb d.id id)) rows

  delete_row-lt :
      (d : Download F) (id : Bytes) (rows : List (Download F))
      → In d rows
      → eqb d.id id ≡ true
      → length (delete_row id rows) < length rows
  unfolding delete_row
  delete_row-lt d id rows i e = keep-strict (λ x. not (eqb x.id id)) d rows i (ap not e)

  In-delete_row :
      (d : Download F) (id : Bytes) (rows : List (Download F))
      → In d rows
      → eqb d.id id ≡ false
      → In d (delete_row id rows)
  unfolding delete_row
  In-delete_row d id rows i e = In-keep (λ x. not (eqb x.id id)) d rows i (ap not e)

  forget_rows-le :
      (deletes : Bytes → Bool) (id : Bytes) (managed rows : List (Download F))
      → length (forget_rows deletes id managed rows).0 ≤ length rows
  unfolding forget_rows
  forget_rows-le deletes id [] rows = omega arith
  forget_rows-le deletes id (item ∷ managed) rows = ground (
    arith,
    forget_rows-le deletes id managed rows,
    forget_rows-le deletes id managed (delete_row item.id rows),
    delete_row-le item.id rows,
  )

  -- With a row of the engine route among those that were listed and in the store, a removal that
  -- succeeds leaves fewer rows.
  forget_rows-lt :
      (deletes : Bytes → Bool) (id : Bytes) (managed rows : List (Download F)) (d : Download F)
      → In d managed
      → In d rows
      → d.engine_id ≡ id
      → (forget_rows deletes id managed rows).1 ≡ none
      → length (forget_rows deletes id managed rows).0 < length rows
  unfolding forget_rows
  forget_rows-lt deletes id [] rows d i j e f = absurd i
  forget_rows-lt deletes id (item ∷ managed) rows d (inl same) j e f =
      let mine : eqb item.engine_id id ≡ true =
        (eqb_iff item.engine_id id).1 (ap (λ (x : Download F). x.engine_id) (sym same) ∙ e) in
      let hit : eqb d.id item.id ≡ true =
        (eqb_iff d.id item.id).1 (ap (λ (x : Download F). x.id) same) in
      ground (
        arith,
        forget_rows-le deletes id managed (delete_row item.id rows),
        delete_row-lt d item.id rows j hit,
      )
  forget_rows-lt deletes id (item ∷ managed) rows d (inr i) j e f = ground (
    arith,
    forget_rows-lt deletes id managed rows d i j e,
    λ (n : eqb d.id item.id ≡ false).
        forget_rows-lt deletes id managed (delete_row item.id rows) d i
          (In-delete_row d item.id rows j n) e,
    delete_row-lt d item.id rows j,
    delete_row-le item.id rows,
    forget_rows-le deletes id managed (delete_row item.id rows),
  )

  pub remove_torrent-lt :
      (registered : Bytes → Bool) (round : Round F) (id : Bytes) (rows : List (Download F))
      (d : Download F)
      → In d rows
      → d.engine_id ≡ id
      → (remove_torrent registered round id rows).1 ≡ none
      → length (remove_torrent registered round id rows).0 < length rows
  unfolding remove_torrent
  remove_torrent-lt registered round id rows d i e f =
      ground (arith, forget_rows-lt round.deletes id rows rows d i i e)

  -- A group or a route that is made from rows of the store.
  abbrev Grounded : List (Download F) → Group F → Type 0
  Grounded rows g = In g.first rows × (g.first.engine_id ≡ g.engine_id)

  abbrev pub IsManaged : List (Download F) → RetentionRoute F → Type 0
  IsManaged rows r = In r.first rows × (r.first.engine_id ≡ r.engine_id)

  add_row-Grounded :
      (rows : List (Download F)) (row : Download F) (gs : List (Group F))
      → In row rows
      → All (Grounded rows) gs
      → All (Grounded rows) (add_row row gs)
  unfolding add_row
  add_row-Grounded rows row [] i v = ((i, refl), tt)
  add_row-Grounded rows row (g ∷ gs) i (p, v) = elim (Bool-cases (eqb g.engine_id row.engine_id)) [
    | inl same ↦ rw (same, add_row) (p, v)
    | inr other ↦ rw (other, add_row) (p, add_row-Grounded rows row gs i v)
  ]

  group_rows-Grounded :
      (registered : Bytes → Bool) (all todo : List (Download F)) (owners : List Bytes)
      (gs : List (Group F))
      → ((d : Download F) → In d todo → In d all)
      → All (Grounded all) gs
      → All (Grounded all) (group_rows registered todo owners gs).1
  unfolding group_rows
  group_rows-Grounded registered all [] owners gs sub v = v
  group_rows-Grounded registered all (row ∷ todo) owners gs sub v =
      elim (Option-cases (owner registered row.engine_id)) [
        | inl missing ↦
            rw (missing, group_rows)
              (group_rows-Grounded registered all todo
                (add_owner (route_prefix row.engine_id) owners) gs (λ d i. sub d (inr i)) v)
        | inr (hash, found) ↦
            rw (found, group_rows)
              (group_rows-Grounded registered all todo owners (add_row row gs)
                (λ d i. sub d (inr i)) (add_row-Grounded all row gs (sub row (inl refl)) v))
      ]

  add_routes-IsManaged :
      (registered : Bytes → Bool) (h : RetentionHousehold)
      (status : Bytes → Option (DownloadStatus F)) (rows : List (Download F)) (gs : List (Group F))
      (plan : RetentionPlan F)
      → All (Grounded rows) gs
      → All (IsManaged rows) plan.routes
      → All (IsManaged rows) (add_routes registered h status gs plan).routes
  unfolding add_routes
  add_routes-IsManaged registered h status rows [] plan v w = w
  add_routes-IsManaged registered h status rows (g ∷ gs) plan (p, v) w =
      elim (Option-cases (status g.engine_id)) [
        | inl missing ↦
            rw (missing, add_routes) (add_routes-IsManaged registered h status rows gs _ v w)
        | inr (st, found) ↦
            rw (found, add_routes)
              (add_routes-IsManaged registered h status rows gs _ v
                (All-append (IsManaged rows) plan.routes _ w (unfold make_route in (p, tt))))
      ]

  plan_of-IsManaged :
      (registered : Bytes → Bool) (round : Round F) (rows : List (Download F))
      (h : Option RetentionHousehold) (plan : RetentionPlan F)
      → plan_of registered round rows h ≡ done plan
      → All (IsManaged rows) plan.routes
  plan_of-IsManaged registered round rows none plan e = cc
  plan_of-IsManaged registered round rows (some h) plan e =
      let groups = (group_rows registered rows [] []).1 in
      subst (λ (q : RetentionPlan F). All (IsManaged rows) q.routes) (done-injective e)
        (add_routes-IsManaged registered h round.status rows groups _
          (group_rows-Grounded registered rows rows [] [] (λ d i. i) tt) tt)

  pub retention_survey-IsManaged :
      (registered : Bytes → Bool) (round : Round F) (rows : List (Download F))
      (plan : RetentionPlan F)
      → retention_survey registered round rows ≡ done plan
      → All (IsManaged rows) plan.routes
  unfolding retention_survey
  retention_survey-IsManaged registered round rows plan e = elim (Bool-cases round.lists) [
    | inl listed ↦
        plan_of-IsManaged registered round rows (find_household round rows) plan
          (rw (listed, retention_survey) at e)
    | inr unlisted ↦
        let e' : failed listing ≡ done plan = (rw (unlisted, retention_survey) at e) in cc
  ]
