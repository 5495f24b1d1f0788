-- ===== src/Retention/Survey/Answers.antt =====
-- The routes that the second loop of `retentionSurvey` adds.
use torrent_tv.Prelude.{
  ◌≡◌, refl, sym, ap, subst, ◌∙◌, Bool, Option, none, some, List, [], ◌∷◌, ◌++◌, ◌⊎◌, inl, inr, In,
  In-append, In-append_left, In-append_right, Option-cases,
}
use torrent_tv.Prelude.Int.{add64}
use torrent_tv.Prelude.Bytes.{Bytes}
use torrent_tv.Retention.{DownloadStatus, RetentionRoute, RetentionPlan, rows_of}
use torrent_tv.Retention.Household.{RetentionHousehold}
use torrent_tv.Retention.Survey.{
  Group, add_routes, add_owner, route_prefix, make_route, owner, hash_of,
}

module _ {F : Type 0} where
  -- A route made of a group.
  pub record IsRouteOf (status : Bytes → Option (DownloadStatus F)) (g : Group F)
      (r : RetentionRoute F) : Type 0 where
    pub same_id : r.engine_id ≡ g.engine_id
    pub same_rows : rows_of r ≡ g.first ∷ g.others
    pub answered : status g.engine_id ≡ some r.status

  abbrev pub Made : (Bytes → Option (DownloadStatus F)) → List (Group F) → RetentionRoute F → Type 0
  Made status gs r = (g : Group F) × In g gs × IsRouteOf status g r

  abbrev pub add_route :
      (Bytes → Bool)
      → RetentionHousehold
      → Group F
      → DownloadStatus F
      → RetentionPlan F
      → RetentionPlan F
  add_route registered h g st plan = record plan {
    routes = plan.routes ++ make_route h g (hash_of (owner registered g.engine_id)) st ∷ [];
    stored_bytes = add64 plan.stored_bytes st.total_bytes;
  }

  abbrev pub add_step :
      (Bytes → Bool)
      → RetentionHousehold
      → (Bytes → Option (DownloadStatus F))
      → Group F
      → List (Group F)
      → RetentionPlan F
      → Option (DownloadStatus F)
      → RetentionPlan F
  add_step registered h status g gs plan none = add_routes registered h status gs (record plan {
    uncertain_owners = add_owner (route_prefix g.engine_id) plan.uncertain_owners;
  })
  add_step registered h status g gs plan (some st) =
      add_routes registered h status gs (add_route registered h g st plan)

  pub made :
      (registered : Bytes → Bool) (h : RetentionHousehold)
      (status : Bytes → Option (DownloadStatus F)) (g : Group F) (st : DownloadStatus F)
      (r : RetentionRoute F)
      → status g.engine_id ≡ some st
      → r ≡ make_route h g (hash_of (owner registered g.engine_id)) st
      → IsRouteOf status g r
  unfolding make_route
  made registered h status g st r found e = record {
    same_id = ap (λ (x : RetentionRoute F). x.engine_id) e;
    same_rows = ap rows_of e;
    answered = found ∙ ap some (sym (ap (λ (x : RetentionRoute F). x.status) e));
  }

  pub add_routes-In :
      (registered : Bytes → Bool) (h : RetentionHousehold)
      (status : Bytes → Option (DownloadStatus F)) (gs : List (Group F)) (plan : RetentionPlan F)
      (r : RetentionRoute F)
      → In r (add_routes registered h status gs plan).routes
      → In r plan.routes ⊎ Made status gs r
  unfolding add_routes make_route
  add_routes-In registered h status [] plan r i = inl i
  add_routes-In registered h status (g ∷ gs) plan r i = elim (Option-cases (status g.engine_id)) [
    | inl missing ↦
        elim (add_routes-In registered h status gs
          (record plan {
            uncertain_owners = add_owner (route_prefix g.engine_id) plan.uncertain_owners;
          })
          r (subst (λ o. In r (add_step registered h status g gs plan o).routes) missing i)) [
            | inl old ↦ inl old
            | inr (g', at, of) ↦ inr (g', inr at, of)
          ]
    | inr (st, found) ↦
        elim (add_routes-In registered h status gs (add_route registered h g st plan) r
          (subst (λ o. In r (add_step registered h status g gs plan o).routes) found i)) [
            | inl old ↦
                elim (In-append r plan.routes
                  (make_route h g (hash_of (owner registered g.engine_id)) st ∷ []) old) [
                    | inl older ↦ inl older
                    | inr (inl e) ↦ inr (g, inl refl, made registered h status g st r found e)
                    | inr (inr other) ↦ absurd other
                  ]
            | inr (g', at, of) ↦ inr (g', inr at, of)
          ]
  ]

  pub add_routes-keeps :
      (registered : Bytes → Bool) (h : RetentionHousehold)
      (status : Bytes → Option (DownloadStatus F)) (gs : List (Group F)) (plan : RetentionPlan F)
      (r : RetentionRoute F)
      → In r plan.routes
      → In r (add_routes registered h status gs plan).routes
  unfolding add_routes
  add_routes-keeps registered h status [] plan r i = i
  add_routes-keeps registered h status (g ∷ gs) plan r i =
      elim (Option-cases (status g.engine_id)) [
        | inl missing ↦ rw (missing, add_routes) (add_routes-keeps registered h status gs _ r i)
        | inr (st, found) ↦
            rw (found, add_routes)
              (add_routes-keeps registered h status gs _ r (
                In-append_left r plan.routes
                  (make_route h g (hash_of (owner registered g.engine_id)) st ∷ []) i))
      ]

  pub add_routes_complete :
      (registered : Bytes → Bool) (h : RetentionHousehold)
      (status : Bytes → Option (DownloadStatus F)) (gs : List (Group F)) (plan : RetentionPlan F)
      (g : Group F) (st : DownloadStatus F)
      → In g gs
      → status g.engine_id ≡ some st
      → In
          (make_route h g (hash_of (owner registered g.engine_id)) st)
          (add_routes registered h status gs plan).routes
  unfolding add_routes
  add_routes_complete registered h status [] plan g st i found = absurd i
  add_routes_complete registered h status (x ∷ gs) plan g st (inl e) found =
      subst
        (λ y.
          In (make_route h g (hash_of (owner registered g.engine_id)) st)
            (add_routes registered h status (y ∷ gs) plan).routes)
        e
        (rw (found, add_routes)
          (add_routes-keeps registered h status gs (add_route registered h g st plan) _
            (In-append_right _ plan.routes _ (inl refl))))
  add_routes_complete registered h status (x ∷ gs) plan g st (inr i) found =
      elim (Option-cases (status x.engine_id)) [
        | inl missing ↦
            rw (missing, add_routes) (add_routes_complete registered h status gs _ g st i found)
        | inr (s, other) ↦
            rw (other, add_routes) (add_routes_complete registered h status gs _ g st i found)
      ]
