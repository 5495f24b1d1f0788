-- ===== src/Updates/Repair.antt =====
-- What a startup makes of a backup that could not be restored, and of one that was not complete.
use torrent_tv.Prelude.{
  Time, ◌≡◌, refl, sym, ap, subst, Bool, true, false, Option, none, some, null,
}
use torrent_tv.Prelude.Bytes.{Bytes, eqb}
use torrent_tv.Updates.{
  Operation, Disk, evaluate_recovery, live_state, install_state, crashed, by_copy,
}
use torrent_tv.Updates.Crash.{prepared}
use torrent_tv.Updates.Transaction.{
  Site, Change, done, unflushed, not_done, restore_from, rolled, save, rollback, Answers, recover,
  recover_found, recover_pending, may_prepare,
}

-- The rename of the backup fails and the rolled back phase is saved, with a reason: the backup and the
-- live executable are as before, and yet the next startup that gets the lock changes nothing and does
-- not suppress the automatic update, and a new operation may be recorded over the one that names the
-- backup.
pub rollback-may_prepare :
    (a : Answers) (acks : Change) (version reason : Bytes) (now : Time) (op : Operation) (s : Site)
    → null reason ≡ false
    → ((rollback not_done done reason op s).1.live ≡ s.live)
      × ((rollback not_done done reason op s).1.backup ≡ s.backup)
      × (recover_pending a true acks version now (rollback not_done done reason op s).1
          ≡ (false, (rollback not_done done reason op s).1))
      × (may_prepare (rollback not_done done reason op s).1.journal ≡ true)
unfolding recover_pending recover rollback evaluate_recovery may_prepare
rollback-may_prepare a acks version reason now op s h =
    subst
      (λ t.
        (t.live ≡ s.live)
        × (t.backup ≡ s.backup)
        × (recover_pending a true acks version now t ≡ (false, t))
        × (may_prepare t.journal ≡ true))
      (sym unrestored) (refl, refl, rw (h, recover_found) refl, refl)
  where
    not_restored : (b : Option Bytes) → restore_from b not_done s ≡ (true, s)
    not_restored none = refl
    not_restored (some b) = refl

    behind : Bool × Site → Site
    behind (failed, t) = save done (rolled failed reason op) t

    unrestored :
        (rollback not_done done reason op s).1 ≡ record s { journal = some (rolled true reason op) }
    unrestored = ap behind (not_restored s.backup)

abbrev pub site_of : Disk → Site
site_of d = record { live = d.live; backup = d.backup; journal = some d.op; acknowledged = false }

save-live : (c : Change) (op : Operation) (s : Site) → (save c op s).live ≡ s.live
save-live done op s = refl
save-live unflushed op s = refl
save-live not_done op s = refl

-- Where the file system takes no hard links and a crash cuts the copy of the backup off, the next
-- startup, if its rename succeeds, replaces the live executable, which nothing had touched, with the
-- part that was copied.
pub crashed-recover :
    (a : Answers) (old part new id target version : Bytes) (deadline now : Time)
    → eqb old part ≡ false
    → a.restores ≡ done
    → (site_of (crashed 1 (by_copy part) new deadline (prepared old id target))).live ≡ some old
      × ((recover a version now
            (crashed 1 (by_copy part) new deadline (prepared old id target)).op
            (site_of (crashed 1 (by_copy part) new deadline (prepared old id target)))).1.live
          ≡ some part)
unfolding crashed recover rollback evaluate_recovery install_state live_state
crashed-recover a old part new id target version deadline now ne ok = (
  refl,
  rw (ne, ok) (save-live a.saves (rolled false a.reason (prepared old id target).op) restored),
)
  where
    restored : Site
    restored = record {
      live = some part;
      backup = none;
      journal = some (prepared old id target).op;
      acknowledged = false;
    }
