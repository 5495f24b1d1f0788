-- ===== src/Portal/Tests.antt =====
-- Concrete cycles of the hub, and each theorem at one of them.
use torrent_tv.Prelude.{String, ◌≡◌, refl, true, false, List, [], ◌∷◌, none, some}
use torrent_tv.Prelude.Int.{pos}
use torrent_tv.Portal.Types.{Link, Promotion, AccountStatus}
use torrent_tv.Portal.Hub.{
  Error, unavailable, Reply, ok, fail, Hub, HubState, blank_state, new_hub, note_settings, commit,
  account_call,
}
use torrent_tv.Portal.Hub.Cycle.{notes, observes, commits, Wait, Script, refresh, committed, acts}
use torrent_tv.Portal.Hub.Cycle.Invariant.{IsCoherent}
use torrent_tv.Portal.Hub.Cycle.History.{
  starts, asks, refreshes, real_notes, real_observes, real_commits, no_more, and_then, IsRealScript,
  real_script, Reach-IsCoherent,
}
use torrent_tv.Portal.Hub.Cycle.Quiet.{refresh_commits}
use torrent_tv.Portal.Hub.Cycle.Surfaces.{all_surfaces, start_state, refresh-surfaces}

abbrev quiet : {A : Type 0} → Reply A → Wait A
quiet answer = record { answer = answer; meanwhile = []; context = none }

abbrev creative : Promotion
creative = record {
  id = "7";
  provider = "house";
  title = "t";
  text = "";
  image = "";
  link = "https://example.org";
  screen_time = pos 10;
}

abbrev about : Link
about = record { id = pos 1; title = "About"; url = "https://example.org"; description = "" }

-- Accounts and ads are on; the household is no donor; a creative is available.
abbrev guest : Script
guest = record {
  key = "";
  before_generation = [];
  before_state = [];
  context = none;
  settings = quiet (ok (record { accounts_enabled = true; ads_enabled = true }));
  links = quiet (ok (about ∷ []));
  account_key = "";
  account = λ key. quiet (ok (record { donor = false; donor_until = none }));
  now = 100;
  delivery = quiet (ok (creative ∷ []));
  availability = quiet (ok true);
  recovery = quiet (ok (creative ∷ []));
  before_commit = [];
}

-- The same for a donor until 500.
abbrev donor : Script
donor = record guest {
  account = λ key. quiet (ok (record { donor = true; donor_until = some 500 }));
}

-- The public settings cannot be read.
abbrev outage : Script
outage = record guest { settings = quiet (fail unavailable) }

abbrev start : Hub
start = new_hub ""

abbrev lit_state : HubState
lit_state = record {
  accounts_enabled = true;
  ads_enabled = true;
  promotion_live = true;
  donor = false;
  donor_until = 0;
  links = about ∷ [];
  promotions = creative ∷ [];
}

abbrev donor_state : HubState
donor_state = record lit_state {
  promotion_live = false;
  donor = true;
  donor_until = 500;
  promotions = [];
}

guest_cycle : (refresh guest start).1 ≡ committed lit_state []
unfolding refresh new_hub acts
guest_cycle = refl

donor_cycle : (refresh donor start).1 ≡ committed donor_state []
unfolding refresh new_hub acts
donor_cycle = refl

outage_cycle : (refresh outage start).1 ≡ committed blank_state (unavailable ∷ [])
unfolding refresh new_hub acts
outage_cycle = refl

-- During the wait for the links, the cycle of the donor commits.
abbrev overlapped : Script
overlapped = record guest {
  links = record (quiet (ok [])) {
    meanwhile = observes (some unavailable) ∷ commits donor_state ∷ notes "k" ∷ [];
  };
}

abbrev quiet_script :
    (answer : Reply AccountStatus)
    → IsRealScript "" (record guest { account = λ key. quiet answer })
quiet_script answer =
    real_script no_more no_more no_more no_more no_more no_more no_more no_more no_more

overlapped-IsReal : IsRealScript "" overlapped
overlapped-IsReal =
    real_script no_more no_more no_more
      (and_then (real_observes (some unavailable)) (
        and_then
          (real_commits donor starts
            (quiet_script (ok (record { donor = true; donor_until = some 500 }))) donor_cycle)
          (and_then (real_notes "k") no_more)))
      no_more no_more no_more no_more no_more

Reach-IsCoherent_example :
    IsCoherent
      (refresh overlapped
        (account_call {A = String} (fail unavailable) (refresh donor start).0).0).0.state
Reach-IsCoherent_example = Reach-IsCoherent "" (
    refreshes overlapped
      (asks (fail unavailable) (
        refreshes donor starts
          (quiet_script (ok (record { donor = true; donor_until = some 500 })))))
      overlapped-IsReal)

refresh_commits_example :
    (next : HubState) × (errs : List Error) × (refresh outage start
      ≡ (commit next (note_settings "" start).0, committed next errs))
refresh_commits_example = refresh_commits outage start (record {
  context = refl;
  before_generation = refl;
  before_state = refl;
  settings = (refl, refl);
  links = (refl, refl);
  account = (refl, refl);
  delivery = (refl, refl);
  availability = (refl, refl);
  recovery = (refl, refl);
  before_commit = refl;
})

refresh-surfaces_example :
    donor_state ≡ all_surfaces donor donor.settings.answer (start_state donor start)
refresh-surfaces_example = refresh-surfaces donor start donor_cycle
