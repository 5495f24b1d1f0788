-- ===== src/Retention/Latest.antt =====
-- The latest playback of each title, `retentionHousehold`.
use mathlib.Core.List.{cons-ne-nil}
use mathlib.Core.Path.{subst}
use torrent_tv.Prelude.{
  ◌≤◌, ◌≡◌, ◌≢◌, refl, sym, ◌∙◌, Time, true, false, not, ◌||◌, Option, none, some, List, [], ◌∷◌,
  ◌⊎◌, inl, inr, arith, ltb, if◌then◌else◌, null, In, Bool-cases,
}
use torrent_tv.Prelude.Bytes.{Bytes, eqb, eqb_iff}
use torrent_tv.Retention.Household.{
  PlaybackState, note_playback, latest_playback, retention_household,
}

-- The loop over the playback states.

abbrev pub TitledFor : (Bytes → Bytes) → Bytes → PlaybackState → Type 0
TitledFor titles title p = (titles p.release_id ≡ title) × (title ≢ [])

-- Every playback of the list that belongs to `title` is at most as late as `t`.
abbrev pub NotAfter : (Bytes → Bytes) → Bytes → Time → List PlaybackState → Type 0
NotAfter titles title t [] = Unit
NotAfter titles title t (p ∷ ps) =
    (TitledFor titles title p → p.updated_at ≤ t) × NotAfter titles title t ps

abbrev pub NoneFor : (Bytes → Bytes) → Bytes → List PlaybackState → Type 0
NoneFor titles title [] = Unit
NoneFor titles title (p ∷ ps) = ¬ TitledFor titles title p × NoneFor titles title ps

abbrev pub IsLatest : (Bytes → Bytes) → Bytes → List PlaybackState → Option PlaybackState → Type 0
IsLatest titles title ps none = NoneFor titles title ps
IsLatest titles title ps (some p) =
    In p ps × TitledFor titles title p × NotAfter titles title p.updated_at ps

-- What one round does to the entry of one title.
data Noted (titles : Bytes → Bytes) (title : Bytes) (p : PlaybackState)
    : Option PlaybackState → Option PlaybackState → Type 0 where
  other_title : {o : Option PlaybackState} → ¬ TitledFor titles title p → Noted titles title p o o
  first_one : TitledFor titles title p → Noted titles title p none (some p)
  later :
      {q : PlaybackState}
      → TitledFor titles title p
      → q.updated_at ≤ p.updated_at
      → Noted titles title p (some q) (some p)
  earlier :
      {q : PlaybackState}
      → TitledFor titles title p
      → p.updated_at ≤ q.updated_at
      → Noted titles title p (some q) (some q)

module _ (titles : Bytes → Bytes) (title : Bytes) where
  untitled : (t : Bytes) → (null t || not (eqb title t)) ≡ true → t ≡ title → title ≢ [] → ⊥
  untitled [] h e ne = ne (sym e)
  untitled (x ∷ xs) h e ne = ground (arith, eqb_iff title (x ∷ xs))

  titled : (t : Bytes) → (null t || not (eqb title t)) ≡ false → (t ≡ title) × (title ≢ [])
  titled [] h = cc
  titled (x ∷ xs) h =
      let e : x ∷ xs ≡ title = ground (arith, eqb_iff title (x ∷ xs)) in
      (e, λ empty. cons-ne-nil x xs (e ∙ empty))

  Noted-titled :
      (p : PlaybackState) (o : Option PlaybackState)
      → TitledFor titles title p
      → Noted titles title p o (elim o [
        | none ↦ some p
        | some q ↦ if ltb q.updated_at p.updated_at then some p else some q
      ])
  Noted-titled p none t = first_one t
  Noted-titled p (some q) t = elim (Bool-cases (ltb q.updated_at p.updated_at)) [
    | inl lt ↦ rw lt (later t (ground arith))
    | inr ge ↦ rw ge (earlier t (ground arith))
  ]

  note_playback-Noted :
      (latest : Bytes → Option PlaybackState) (p : PlaybackState)
      → Noted titles title p (latest title) (note_playback titles latest p title)
  unfolding note_playback
  note_playback-Noted latest p =
      elim (Bool-cases (null (titles p.release_id) || not (eqb title (titles p.release_id)))) [
        | inl other ↦
            rw (other, note_playback)
              (other_title (λ t. untitled (titles p.release_id) other t.0 t.1))
        | inr this ↦
            rw (this, note_playback)
              (Noted-titled p (latest title) (titled (titles p.release_id) this))
      ]

-- What the loop makes of an entry `o` over the states `ps`.
abbrev Since : Option PlaybackState → Time → Type 0
Since none t = Unit
Since (some q) t = q.updated_at ≤ t

abbrev From :
    (Bytes → Bytes)
    → Bytes
    → Option PlaybackState
    → List PlaybackState
    → Option PlaybackState
    → Type 0
From titles title o ps none = (o ≡ none) × NoneFor titles title ps
From titles title o ps (some r) =
    ((o ≡ some r) ⊎ (In r ps × TitledFor titles title r))
    × NotAfter titles title r.updated_at ps
    × Since o r.updated_at

module _ (titles : Bytes → Bytes) (title : Bytes) where
  NotAfter-cons :
      (p : PlaybackState) (ps : List PlaybackState) (t : Time)
      → p.updated_at ≤ t
      → NotAfter titles title t ps
      → NotAfter titles title t (p ∷ ps)
  NotAfter-cons p ps t h v = ((λ _. h), v)

  From-cons :
      (p : PlaybackState) (ps : List PlaybackState) (r : Option PlaybackState)
      {o o' : Option PlaybackState}
      → Noted titles title p o o'
      → From titles title o' ps r
      → From titles title o (p ∷ ps) r
  From-cons p ps none (other_title other) (e, v) = (e, (other, v))
  From-cons p ps none (first_one t) (e, v) = cc
  From-cons p ps none (later t h) (e, v) = cc
  From-cons p ps none (earlier t h) (e, v) = cc
  From-cons p ps (some r) (other_title other) (inl e, v, s) =
      (inl e, ((λ t. absurd (other t)), v), s)
  From-cons p ps (some r) (other_title other) (inr m, v, s) =
      (inr (inr m.0, m.1), ((λ t. absurd (other t)), v), s)
  From-cons p ps (some r) (first_one t) (inl e, v, s) =
      let same : p ≡ r = cc in
      (
        inr (inl (sym same), subst (TitledFor titles title) same t),
        NotAfter-cons p ps r.updated_at s v,
        tt,
      )
  From-cons p ps (some r) (first_one t) (inr m, v, s) =
      (inr (inr m.0, m.1), NotAfter-cons p ps r.updated_at s v, tt)
  From-cons p ps (some r) (later t h) (inl e, v, s) =
      let same : p ≡ r = cc in
      (
        inr (inl (sym same), subst (TitledFor titles title) same t),
        NotAfter-cons p ps r.updated_at s v,
        omega arith,
      )
  From-cons p ps (some r) (later t h) (inr m, v, s) =
      (inr (inr m.0, m.1), NotAfter-cons p ps r.updated_at s v, omega arith)
  From-cons p ps (some r) (earlier t h) (e, v, s) =
      (kept e, NotAfter-cons p ps r.updated_at (omega arith) v, s)
    where
      kept :
          {o : Option PlaybackState}
          → (o ≡ some r) ⊎ (In r ps × TitledFor titles title r)
          → (o ≡ some r) ⊎ (In r (p ∷ ps) × TitledFor titles title r)
      kept (inl e) = inl e
      kept (inr m) = inr (inr m.0, m.1)

  latest_playback-From :
      (ps : List PlaybackState) (latest : Bytes → Option PlaybackState)
      → From titles title (latest title) ps (latest_playback titles ps latest title)
  unfolding latest_playback
  latest_playback-From [] latest = nothing (latest title)
    where
      nothing : (o : Option PlaybackState) → From titles title o [] o
      nothing none = (refl, tt)
      nothing (some q) = (inl refl, tt, omega arith)
  latest_playback-From (p ∷ ps) latest =
      From-cons p ps (latest_playback titles ps (note_playback titles latest p) title)
        (note_playback-Noted titles title latest p)
        (latest_playback-From ps (note_playback titles latest p))

  From-IsLatest :
      (ps : List PlaybackState) (r : Option PlaybackState)
      → From titles title none ps r
      → IsLatest titles title ps r
  From-IsLatest ps none (e, v) = v
  From-IsLatest ps (some r) (inl e, v, s) = cc
  From-IsLatest ps (some r) (inr m, v, s) = (m.0, m.1, v)

-- The entry of a title is one of the playback states that belong to it, and none of those is later;
-- it is missing only if no playback state belongs to the title. Releases without a title belong to
-- none.
pub latest_by_title-IsLatest :
    (titles : Bytes → Bytes) (favorites : List Bytes) (playback : List PlaybackState)
    (title : Bytes)
    → IsLatest titles title playback
        ((retention_household titles favorites playback).latest_by_title title)
unfolding retention_household
latest_by_title-IsLatest titles favorites playback title =
    From-IsLatest titles title playback _ (latest_playback-From titles title playback (λ _. none))
