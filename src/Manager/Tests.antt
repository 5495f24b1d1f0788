-- ===== src/Manager/Tests.antt =====
-- An installation that is up to date, and one that is not.
use torrent_tv.Prelude.{◌≡◌, refl, true, false, none, [], ◌∷◌, ◌==◌, if◌then◌else◌, arith}
use torrent_tv.Prelude.Bytes.{codes, eqb}
use torrent_tv.Manager.{
  Fetched, not_newer, newer, Manager, new_manager, base_status, commit, draft, begin_operation,
  accept, Reach, here, next, begins, drafts_offer, commits_offer, accepts,
}
use torrent_tv.Manager.Token.{IsSingle, Reach-IsSingle}
use torrent_tv.Manager.Stale.{overtaken, checks, overtaken-applying}
use torrent_tv.Manager.Install.{
  Answers, extracted, not_staged, EndsWithin, install, install-EndsWithin,
}

abbrev installed : Manager
installed = new_manager (codes "1.0.0") (codes "https://example.org") true

abbrev found : Fetched
found = newer (codes "1.1.0") [] []

abbrev fetching : Manager
fetching = begin_operation installed

abbrev drafted : Manager
drafted = record fetching { fetching = 0; drafts = draft found (base_status fetching) ∷ [] }

abbrev offered : Manager
offered =
    commit (draft found (base_status fetching))
      (record drafted { drafts = []; offers = draft found (base_status fetching) ∷ [] })

abbrev accepted : Manager
accepted = accept (record offered { offers = [] })

accepted-Reach : Reach installed accepted
unfolding begin_operation base_status commit accept eqb
accepted-Reach =
    next
      (next (next (next here (begins refl)) (drafts_offer found (omega arith)))
        (commits_offer (draft found (base_status fetching)) [] [] refl))
      (accepts (draft found (base_status fetching)) [] [] refl refl)

Reach-IsSingle_example : IsSingle accepted
Reach-IsSingle_example =
    Reach-IsSingle (codes "1.0.0") (codes "https://example.org") true accepted-Reach

overtaken-applying_example :
    Reach installed (overtaken not_newer none accepted)
    × ((overtaken not_newer none accepted).applying ≡ false)
    × ((checks (found ∷ []) (overtaken not_newer none accepted)).status.applying ≡ true)
unfolding begin_operation base_status commit accept eqb
overtaken-applying_example =
    overtaken-applying installed accepted not_newer none (found ∷ []) accepted-Reach (omega arith)
      refl

abbrev answers : Answers
answers = record {
  barrier = none;
  stop_serving = none;
  attempt = λ n. if n == 1 then not_staged (codes "short read") else extracted;
  lost = λ n. none;
  open_journal = none;
  prepare = none;
  activate = none;
  under_systemd = false;
  set_relaunch_args = none;
  handoff = none;
}

install-EndsWithin_example : EndsWithin answers (install answers)
install-EndsWithin_example = install-EndsWithin answers
