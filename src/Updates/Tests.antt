-- ===== src/Updates/Tests.antt =====
-- An update that is cut off after the swap, and its acknowledgement.
use torrent_tv.Prelude.{true, inl, inr, false, ◌≡◌, refl, some, []}
use torrent_tv.Prelude.Bytes.{codes, eqb}
use torrent_tv.Updates.Transaction.{
  rollback, recover, may_prepare, Site, Answers, Course, done, not_done, run_helper,
  recover_pending, may_prepare,
}
use torrent_tv.Updates.Guarded.{IsGuarded}
use torrent_tv.Updates.Repair.{rollback-may_prepare, site_of, crashed-recover}
use torrent_tv.Updates.Course.{here, next, helps, starts_up, Reach-IsGuarded}
use torrent_tv.Updates.{
  by_link, by_copy, rolled_back, Operation, activated, crashed, recovery_action,
}
use torrent_tv.Updates.Crash.{KeepsPrevious, prepared, crashed-KeepsPrevious}

crashed-KeepsPrevious_example :
    KeepsPrevious
      (codes "old")
      (codes "new")
      (codes "2")
      5
      (crashed 2 by_link (codes "new") 9 (prepared (codes "old") (codes "op") (codes "2")))
      (recovery_action
        (crashed 2 by_link (codes "new") 9 (prepared (codes "old") (codes "op") (codes "2")))
        (codes "2")
        5)
unfolding eqb
crashed-KeepsPrevious_example =
    crashed-KeepsPrevious 2 (codes "old") (codes "new") (codes "op") (codes "2") (codes "2") 9 5
      refl

abbrev pending : Operation
pending = record {
  id = codes "op";
  version = codes "2";
  phase = activated;
  prior_state = some (codes "old");
  deadline = 9;
  suppress_next = false;
  failed_error = [];
}

abbrev swapped : Site
swapped = record {
  live = some (codes "new");
  backup = some (codes "old");
  journal = some pending;
  acknowledged = false;
}

abbrev answers : Answers
answers = record {
  restores = not_done;
  saves = done;
  removes = true;
  flushes = true;
  clears = done;
  reason = codes "no acknowledgement: disk error";
}

abbrev silent : Course
silent = record { exits = true; starts = true; acks = false; sees = true }

swapped-IsGuarded : IsGuarded (codes "old") (codes "new") swapped
swapped-IsGuarded = record {
  live = inr refl;
  backup = inr refl;
  held = (refl, λ e. cc);
  guard = λ e. inl refl;
}

abbrev restarted : Site
restarted =
    (recover_pending answers true done (codes "1") 20 (run_helper answers silent pending swapped)).1

Reach-IsGuarded_example : IsGuarded (codes "old") (codes "new") restarted
unfolding eqb
Reach-IsGuarded_example = Reach-IsGuarded (codes "old") (codes "new") refl swapped-IsGuarded (
    next (next here (helps answers silent pending refl refl))
      (starts_up answers true done (codes "1") 20))

abbrev unrestored : Operation
unrestored = record pending {
  phase = rolled_back;
  suppress_next = true;
  failed_error = codes "disk error";
}

rollback-may_prepare_example :
    ((rollback not_done done (codes "startup recovery") pending swapped).1.live ≡ swapped.live)
    × ((rollback not_done done (codes "startup recovery") pending swapped).1.backup
        ≡ swapped.backup)
    × (recover_pending answers true done
          (codes "1")
          20
          (rollback not_done done (codes "startup recovery") pending swapped).1
        ≡ (false, (rollback not_done done (codes "startup recovery") pending swapped).1))
    × (may_prepare (rollback not_done done (codes "startup recovery") pending swapped).1.journal
        ≡ true)
rollback-may_prepare_example =
    rollback-may_prepare answers done (codes "1") (codes "startup recovery") 20 pending swapped refl

crashed-recover_example :
    ((site_of (
        crashed 1
          (by_copy (codes "part"))
          (codes "new")
          9
          (prepared (codes "old") (codes "op") (codes "2")))).live
      ≡ some (codes "old"))
    × ((recover
          (record answers { restores = done })
          (codes "1")
          5
          (crashed 1
            (by_copy (codes "part"))
            (codes "new")
            9
            (prepared (codes "old") (codes "op") (codes "2"))).op
          (site_of (
            crashed 1
              (by_copy (codes "part"))
              (codes "new")
              9
              (prepared (codes "old") (codes "op") (codes "2"))))).1.live
        ≡ some (codes "part"))
unfolding eqb
crashed-recover_example =
    crashed-recover (record answers { restores = done }) (codes "old") (codes "part") (codes "new")
      (codes "op") (codes "2") (codes "1") 9 5 refl refl
