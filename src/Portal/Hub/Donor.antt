-- ===== src/Portal/Hub/Donor.antt =====
-- The donor's expiry: `donorDelay` and `expireDonor`.
use torrent_tv.Prelude.{ℕ, ◌+◌, ◌-◌, ◌≤◌, ◌<◌, ◌≡◌, some, ◌∷◌, arith}
use torrent_tv.Portal.Hub.{Hub, donor_delay, expire_donor, without_donor, snapshot, max_duration}

-- The timer is exact: with `d` the delay that is reported at `now`, and an expiry within the range
-- of a duration, the donor status stays as it is at every instant before `now + d`, and is gone at
-- `now + d` and at every instant after it, with the new snapshot sent and nothing else changed.
pub expire-donor_delay :
    (now d t : ℕ) (h : Hub)
    → donor_delay now h ≡ some d
    → h.state.donor_until - now ≤ max_duration
    → (t < now + d → expire_donor t h ≡ h)
      × (now + d ≤ t
          → ((expire_donor t h).state ≡ without_donor h.state)
            × ((expire_donor t h).sent
                ≡ snapshot (record h { state = without_donor h.state }) ∷ h.sent)
            × ((expire_donor t h).generation ≡ h.generation))
unfolding donor_delay expire_donor
expire-donor_delay now d t h e short = ground arith
