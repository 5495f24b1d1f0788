-- ===== src/Manager/Stale.antt =====
-- A check that races the end of an apply.
use torrent_tv.Prelude.{
  ◌-◌, ◌<◌, ◌≡◌, refl, sym, ◌∙◌, Bool, true, false, Option, List, [], ◌∷◌, inl, inr, Bool-cases,
  same, ◌&&◌, arith,
}
use torrent_tv.Prelude.Bytes.{Bytes, eqb}
use torrent_tv.Manager.{
  Status, Fetched, no_notice, not_newer, newer, Manager, base_status, draft, commit, same_status,
  finish_operation, ends, drafts_check, commits_check, Reach, next,
}

-- A check that runs alone.
abbrev pub check : Fetched → Manager → Manager
check found m = commit (draft found (base_status m)) m

abbrev pub checks : List Fetched → Manager → Manager
checks [] m = m
checks (found ∷ later) m = checks later (check found m)

draft-applying : (found : Fetched) (st : Status) → (draft found st).applying ≡ st.applying
draft-applying no_notice st = refl
draft-applying not_newer st = refl
draft-applying (newer v n d) st = refl

last_test : (x p q : Bool) → (x && same p q) ≡ true → p ≡ q
last_test x p q h = ground arith

same_applying : (a b : Status) → same_status a b ≡ true → a.applying ≡ b.applying
same_applying a b h =
    last_test
      (eqb a.current_version b.current_version
        && same a.available b.available
        && eqb a.latest b.latest
        && eqb a.notes b.notes
        && eqb a.released_at b.released_at
        && eqb a.releases_url b.releases_url
        && same a.self_update b.self_update)
      a.applying b.applying h

commit-applying : (st : Status) (m : Manager) → (commit st m).status.applying ≡ st.applying
unfolding commit
commit-applying st m = elim (Bool-cases (same_status st m.status)) [
  | inl e ↦ rw (e, commit) (sym (same_applying st m.status e))
  | inr e ↦ rw (e, commit) refl
]

check-applying :
    (found : Fetched) (m : Manager) → (check found m).status.applying ≡ m.status.applying
unfolding base_status
check-applying found m =
    commit-applying (draft found (base_status m)) m ∙ draft-applying found (base_status m)

checks-applying :
    (later : List Fetched) (m : Manager) → (checks later m).status.applying ≡ m.status.applying
checks-applying [] m = refl
checks-applying (found ∷ later) m = checks-applying later (check found m) ∙ check-applying found m

-- The status that a check drafted before an operation ended is committed behind it.
abbrev pub overtaken : Fetched → Option Bytes → Manager → Manager
overtaken found failure m =
    commit (draft found (base_status m))
      (finish_operation failure (record m { installing = m.installing - 1 }))

free :
    (found : Fetched) (failure : Option Bytes) (m : Manager)
    → (overtaken found failure m).applying ≡ false
unfolding commit finish_operation
free found failure m =
    elim (Bool-cases
      (same_status (draft found (base_status m)) (record m.status { applying = false }))) [
        | inl e ↦ rw (e, commit) refl
        | inr e ↦ rw (e, commit) refl
      ]

overtaken-Reach :
    (start m : Manager) (found : Fetched) (failure : Option Bytes)
    → Reach start m
    → 0 < m.installing
    → Reach start (overtaken found failure m)
unfolding finish_operation
overtaken-Reach start m found failure r h =
    next (next (next r (drafts_check found)) (ends failure h))
      (commits_check (draft found (base_status m)) [] m.checks refl)

-- From every reachable state in which an installation runs and shows: if a check drafts its status
-- before the installation ends and commits it behind that, no operation runs any more, and yet the
-- status says that one does, whatever later checks find.
pub overtaken-applying :
    (start m : Manager) (found : Fetched) (failure : Option Bytes) (later : List Fetched)
    → Reach start m
    → 0 < m.installing
    → m.status.applying ≡ true
    → Reach start (overtaken found failure m)
      × ((overtaken found failure m).applying ≡ false)
      × ((checks later (overtaken found failure m)).status.applying ≡ true)
unfolding base_status
overtaken-applying start m found failure later r h a = (
  overtaken-Reach start m found failure r h,
  free found failure m,
  checks-applying later (overtaken found failure m)
      ∙ commit-applying (draft found (base_status m))
          (finish_operation failure (record m { installing = m.installing - 1 }))
      ∙ draft-applying found (base_status m)
      ∙ a,
)
