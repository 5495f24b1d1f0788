-- ===== src/Retention/Survey/Rows.antt =====
-- The groups of rows that the first loop of `retentionSurvey` builds.
use torrent_tv.Prelude.{
  ◌≡◌, refl, sym, ap, ◌∙◌, Bool, false, ◌&&◌, is_some, List, [], ◌∷◌, ◌++◌, append-nil,
  append_assoc, inl, inr, In, keep, Bool-cases, Option-cases, arith, if◌then◌else◌,
}
use torrent_tv.Prelude.Bytes.{Bytes, eqb, eqb_iff, eqb_refl}
use torrent_tv.Retention.{Download}
use torrent_tv.Retention.Survey.{Group, add_row, group_rows, add_owner, route_prefix, owner}

eqb-sym : (a b : Bytes) → eqb a b ≡ false → eqb b a ≡ false
eqb-sym a b h = ground (arith, eqb_iff a b, eqb_iff b a)

module _ {F : Type 0} where
  abbrev pub rows_for : Bytes → List (Group F) → List (Download F)
  rows_for id [] = []
  rows_for id (g ∷ gs) = if eqb g.engine_id id then g.first ∷ g.others else rows_for id gs

  rows_for-add_row :
      (id : Bytes) (row : Download F) (gs : List (Group F))
      → rows_for id (add_row row gs)
        ≡ (if eqb row.engine_id id then rows_for id gs ++ row ∷ [] else rows_for id gs)
  unfolding add_row
  rows_for-add_row id row [] = refl
  rows_for-add_row id row (g ∷ gs) = ground (
    arith,
    rows_for-add_row id row gs,
    eqb_iff g.engine_id row.engine_id,
    eqb_iff g.engine_id id,
    eqb_iff row.engine_id id,
  )

  abbrev pub belongs : (Bytes → Bool) → Bytes → Download F → Bool
  belongs registered id d = eqb d.engine_id id && is_some (owner registered d.engine_id)

  pub rows_for-group_rows :
      (registered : Bytes → Bool) (id : Bytes) (rows : List (Download F)) (owners : List Bytes)
      (gs : List (Group F))
      → rows_for id (group_rows registered rows owners gs).1
        ≡ rows_for id gs ++ keep (belongs registered id) rows
  unfolding group_rows
  rows_for-group_rows registered id [] owners gs = sym (append-nil (rows_for id gs))
  rows_for-group_rows registered id (row ∷ rows) owners gs = ground (
    arith,
    rows_for-group_rows registered id rows (add_owner (route_prefix row.engine_id) owners) gs,
    rows_for-group_rows registered id rows owners (add_row row gs),
    rows_for-add_row id row gs,
    append_assoc (rows_for id gs) (row ∷ []) (keep (belongs registered id) rows),
  )

  abbrev Fresh : Bytes → List (Group F) → Type 0
  Fresh id [] = Unit
  Fresh id (g ∷ gs) = (eqb g.engine_id id ≡ false) × Fresh id gs

  abbrev pub Distinct : List (Group F) → Type 0
  Distinct [] = Unit
  Distinct (g ∷ gs) = Fresh g.engine_id gs × Distinct gs

  Fresh-add_row :
      (id : Bytes) (row : Download F) (gs : List (Group F))
      → eqb row.engine_id id ≡ false
      → Fresh id gs
      → Fresh id (add_row row gs)
  unfolding add_row
  Fresh-add_row id row [] n f = (n, tt)
  Fresh-add_row id row (g ∷ gs) n (p, f) = elim (Bool-cases (eqb g.engine_id row.engine_id)) [
    | inl same ↦ rw (same, add_row) (p, f)
    | inr other ↦ rw (other, add_row) (p, Fresh-add_row id row gs n f)
  ]

  Distinct-add_row :
      (row : Download F) (gs : List (Group F)) → Distinct gs → Distinct (add_row row gs)
  unfolding add_row
  Distinct-add_row row [] d = (tt, tt)
  Distinct-add_row row (g ∷ gs) (f, d) = elim (Bool-cases (eqb g.engine_id row.engine_id)) [
    | inl same ↦ rw (same, add_row) (f, d)
    | inr other ↦
        rw (other, add_row)
          (
            Fresh-add_row g.engine_id row gs (eqb-sym g.engine_id row.engine_id other) f,
            Distinct-add_row row gs d,
          )
  ]

  pub Distinct-group_rows :
      (registered : Bytes → Bool) (rows : List (Download F)) (owners : List Bytes)
      (gs : List (Group F))
      → Distinct gs
      → Distinct (group_rows registered rows owners gs).1
  unfolding group_rows
  Distinct-group_rows registered [] owners gs d = d
  Distinct-group_rows registered (row ∷ rows) owners gs d =
      elim (Option-cases (owner registered row.engine_id)) [
        | inl missing ↦
            rw (missing, group_rows)
              (Distinct-group_rows registered rows (add_owner (route_prefix row.engine_id) owners)
                gs d)
        | inr (hash, found) ↦
            rw (found, group_rows)
              (Distinct-group_rows registered rows owners (add_row row gs)
                (Distinct-add_row row gs d))
      ]

  Fresh-ne :
      (g h : Group F) (gs : List (Group F))
      → In g gs
      → Fresh h.engine_id gs
      → eqb h.engine_id g.engine_id ≡ false
  Fresh-ne g h [] i f = absurd i
  Fresh-ne g h (x ∷ xs) (inl e) f =
      eqb-sym g.engine_id h.engine_id (ap (λ (y : Group F). eqb y.engine_id h.engine_id) e ∙ f.0)
  Fresh-ne g h (x ∷ xs) (inr i) f = Fresh-ne g h xs i f.1

  pub rows_for-In :
      (g : Group F) (gs : List (Group F))
      → In g gs
      → Distinct gs
      → rows_for g.engine_id gs ≡ g.first ∷ g.others
  rows_for-In g [] i d = absurd i
  rows_for-In g (x ∷ xs) (inl e) d = ground (
    arith,
    eqb_refl g.engine_id,
    ap (λ (y : Group F). y.engine_id) e,
    ap (λ (y : Group F). y.first) e,
    ap (λ (y : Group F). y.others) e,
  )
  rows_for-In g (x ∷ xs) (inr i) (f, d) = rw (Fresh-ne g x xs i f) (rows_for-In g xs i d)
