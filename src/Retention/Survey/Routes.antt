-- ===== src/Retention/Survey/Routes.antt =====
-- The routes of a survey against the rows and the answers that it was made of.
use torrent_tv.Prelude.{
  ◌≡◌, refl, sym, ap, subst, ◌∙◌, Bool, true, false, Option, none, some, List, [], ◌∷◌, inl, inr,
  In, keep, In-keep, Bool-cases, arith, if◌then◌else◌,
}
use torrent_tv.Prelude.Bytes.{Bytes, eqb, eqb_iff, eqb_refl}
use torrent_tv.Retention.{Download, DownloadStatus, RetentionRoute, RetentionPlan, rows_of}
use torrent_tv.Retention.Household.{RetentionHousehold}
use torrent_tv.Retention.Survey.{
  Round, Group, group_rows, add_routes, make_route, owner, hash_of, retention_survey,
  find_household, plan_of, Attempt, failed, done, listing,
}
use torrent_tv.Retention.Survey.Rows.{
  rows_for, belongs, rows_for-group_rows, Distinct-group_rows, rows_for-In,
}
use torrent_tv.Retention.Survey.Answers.{add_routes-In, add_routes_complete}

module _ {F : Type 0} where
  rows_for-Some :
      (id : Bytes) (d : Download F) (gs : List (Group F))
      → In d (rows_for id gs)
      → (g : Group F) × In g gs × (g.engine_id ≡ id)
  rows_for-Some id d [] i = absurd i
  rows_for-Some id d (g ∷ gs) i = elim (Bool-cases (eqb g.engine_id id)) [
    | inl same ↦ (g, inl refl, (eqb_iff g.engine_id id).0 same)
    | inr other ↦
        let (x, at, e) =
          rows_for-Some id d gs
            (subst (λ b. In d (if b then g.first ∷ g.others else rows_for id gs)) other i) in
        (x, inr at, e)
  ]

  -- The routes of a survey of `rows`: each carries all and only the rows of its engine route, in
  -- order, with the engine's answer, and every row whose route has an engine that answers is in one.
  pub record IsSurvey (registered : Bytes → Bool) (round : Round F) (rows : List (Download F))
      (routes : List (RetentionRoute F)) : Type 0 where
    pub whole :
        (r : RetentionRoute F)
        → In r routes
        → (rows_of r ≡ keep (belongs registered r.engine_id) rows)
          × (round.status r.engine_id ≡ some r.status)
    pub covered :
        (d : Download F) (hash : Bytes) (st : DownloadStatus F)
        → In d rows
        → owner registered d.engine_id ≡ some hash
        → round.status d.engine_id ≡ some st
        → (r : RetentionRoute F) × In r routes
          × (r.engine_id ≡ d.engine_id)
          × (r.hash ≡ hash)
          × In d (rows_of r)

  whole_lem :
      (registered : Bytes → Bool) (h : RetentionHousehold) (round : Round F)
      (rows : List (Download F)) (plan : RetentionPlan F)
      → plan.routes ≡ []
      → (r : RetentionRoute F)
      → In r (add_routes registered h round.status (group_rows registered rows [] []).1 plan).routes
      → (rows_of r ≡ keep (belongs registered r.engine_id) rows)
        × (round.status r.engine_id ≡ some r.status)
  whole_lem registered h round rows plan e r i =
      elim (add_routes-In registered h round.status (group_rows registered rows [] []).1 plan r i) [
        | inl old ↦ absurd (subst (In r) e old)
        | inr (g, at, of) ↦ (
          of.same_rows
              ∙ sym (
                  rows_for-In g (group_rows registered rows [] []).1 at
                    (Distinct-group_rows registered rows [] [] tt))
              ∙ rows_for-group_rows registered g.engine_id rows [] []
              ∙ ap (λ id. keep (belongs registered id) rows) (sym of.same_id),
          rw of.same_id of.answered,
        )
      ]

  covered_lem :
      (registered : Bytes → Bool) (h : RetentionHousehold) (round : Round F)
      (rows : List (Download F)) (plan : RetentionPlan F) (d : Download F) (hash : Bytes)
      (st : DownloadStatus F)
      → plan.routes ≡ []
      → In d rows
      → owner registered d.engine_id ≡ some hash
      → round.status d.engine_id ≡ some st
      → (r : RetentionRoute F) × In r
          (add_routes registered h round.status (group_rows registered rows [] []).1 plan).routes
        × (r.engine_id ≡ d.engine_id)
        × (r.hash ≡ hash)
        × In d (rows_of r)
  unfolding make_route
  covered_lem registered h round rows plan d hash st e i o s =
      let mine =
        In-keep (belongs registered d.engine_id) d rows i
          (ground (arith, o, eqb_refl d.engine_id)) in
      let (g, at, same) =
        rows_for-Some d.engine_id d (group_rows registered rows [] []).1
          (rw (rows_for-group_rows registered d.engine_id rows [] []) mine) in
      let r = make_route h g (hash_of (owner registered g.engine_id)) st in
      let ini =
        add_routes_complete registered h round.status (group_rows registered rows [] []).1 plan g st
          at (rw same s) in
      (
        r,
        ini,
        same,
        ap (λ x. hash_of (owner registered x)) same ∙ ap hash_of o,
        subst (In d)
            (sym (
              (whole_lem registered h round rows plan e r ini).0
              ∙ ap (λ id. keep (belongs registered id) rows) same))
            mine,
      )

  abbrev Surveyed :
      (Bytes → Bool) → Round F → List (Download F) → Attempt (RetentionPlan F) → Type 0
  Surveyed registered round rows (failed x) = Unit
  Surveyed registered round rows (done plan) = IsSurvey registered round rows plan.routes

  plan_of-IsSurvey :
      (registered : Bytes → Bool) (round : Round F) (rows : List (Download F))
      (o : Option RetentionHousehold)
      → Surveyed registered round rows (plan_of registered round rows o)
  plan_of-IsSurvey registered round rows none = tt
  plan_of-IsSurvey registered round rows (some h) = record {
    whole = λ r i. whole_lem registered h round rows _ refl r i;
    covered = λ d hash st i o s. covered_lem registered h round rows _ d hash st refl i o s;
  }

  listed-IsSurvey :
      (registered : Bytes → Bool) (round : Round F) (rows : List (Download F)) (b : Bool)
      → Surveyed registered round rows
          (if b then plan_of registered round rows (find_household round rows) else failed listing)
  listed-IsSurvey registered round rows true =
      plan_of-IsSurvey registered round rows (find_household round rows)
  listed-IsSurvey registered round rows false = tt

module _ {F : Type 0} where
  -- A successful survey carries in each route all and only the managed rows of that engine route,
  -- in order, with the status that its engine answered, and has a route for every row whose owner
  -- is registered and whose engine answers.
  pub retention_survey-IsSurvey :
      (registered : Bytes → Bool) (round : Round F) (rows : List (Download F))
      (plan : RetentionPlan F)
      → retention_survey registered round rows ≡ done plan
      → IsSurvey registered round rows plan.routes
  unfolding retention_survey
  retention_survey-IsSurvey registered round rows plan e =
      subst (Surveyed registered round rows) e (listed-IsSurvey registered round rows round.lists)
