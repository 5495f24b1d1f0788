-- ===== src/Updates/Transaction.antt =====
-- The transaction around `activate`: the update helper (`runHelper`, `rollback` and `restoreFile` of
-- internal/application/updates/install_unix.go), `Cleanup` and `Recover` of recovery.go, and the
-- startup in manager.go (`recoverPending`). Each change of a file is atomic. What the file system and
-- the other processes answer is an argument.
use torrent_tv.Prelude.{Time, Bool, true, false, not, ◌&&◌, Option, none, some, if◌then◌else◌}
use torrent_tv.Prelude.Bytes.{Bytes, eqb}
use torrent_tv.Updates.{
  Phase, staged, activated, confirmed, rolled_back, other, Operation, RecoveryAction, acknowledges,
  rolls_back, cleans_up, suppresses, needs_repair, Disk, evaluate_recovery, install_state,
  acknowledge,
}

-- The install directory: the live executable, the file that the recorded operation names as its
-- backup, and the journal. `acknowledged` is whether some acknowledgement was saved.
pub record Site : Type 0 where
  pub live : Option Bytes
  pub backup : Option Bytes
  pub journal : Option Operation
  pub acknowledged : Bool

-- A rename or a removal with the flush of its directory: done, done but not flushed, or not done.
pub data Change : Type 0 where
  done unflushed not_done : Change

abbrev pub is_done : Change → Bool
is_done done = true
is_done unflushed = false
is_done not_done = false

-- `restoreFile`: whether it fails, and the files behind it.
abbrev pub restore_from : Option Bytes → Change → Site → Bool × Site
restore_from none c s = (true, s)
restore_from (some b) done s = (false, record s { live = some b; backup = none })
restore_from (some b) unflushed s = (true, record s { live = some b; backup = none })
restore_from (some b) not_done s = (true, s)

abbrev pub rolled : Bool → Bytes → Operation → Operation
rolled failed reason op = record op {
  phase = rolled_back;
  suppress_next = true;
  failed_error = if failed then reason else op.failed_error;
}

-- `Save`, which may fail before its rename or behind it.
abbrev pub save : Change → Operation → Site → Site
save done op s = record s { journal = some op }
save unflushed op s = record s { journal = some op }
save not_done op s = s

-- Whether the rollback succeeded, and the site behind it. `reason` is the error text with its reason.
unfoldable pub rollback : Change → Change → Bytes → Operation → Site → Bool × Site
rollback change saves reason op s =
    let (failed, t) = restore_from s.backup change s in
    (is_done saves && not failed, save saves (rolled failed reason op) t)

abbrev pub clear : Change → Site → Bool × Site
clear done s = (true, record s { journal = none })
clear unflushed s = (false, record s { journal = none })
clear not_done s = (false, s)

-- `removes` is whether the backup could be removed; the error of that is not looked at.
unfoldable pub cleanup : Bool → Bool → Change → Site → Bool × Site
cleanup removes flushes clearing s =
    let t = if removes then record s { backup = none } else s in
    if flushes then clear clearing t else (false, t)

-- What the file system answers to one run of the code.
pub record Answers : Type 0 where
  pub restores : Change
  pub saves : Change
  pub removes : Bool
  pub flushes : Bool
  pub clears : Change
  pub reason : Bytes

abbrev pub save_acknowledgement : Change → Option Operation → Site → Bool × Site
save_acknowledgement saves none s = (false, s)
save_acknowledgement done (some op) s = (true, record s { journal = some op; acknowledged = true })
save_acknowledgement unflushed (some op) s =
    (false, record s { journal = some op; acknowledged = true })
save_acknowledgement not_done (some op) s = (false, s)

-- `Journal.Acknowledge` over the site.
unfoldable pub acknowledge_site : Change → Bytes → Bytes → Site → Bool × Site
unfolding acknowledge
acknowledge_site saves id version s =
    save_acknowledgement saves (acknowledge s.journal id version) s

abbrev pub is_confirmed_phase : Phase → Bool
is_confirmed_phase confirmed = true
is_confirmed_phase staged = false
is_confirmed_phase activated = false
is_confirmed_phase rolled_back = false
is_confirmed_phase other = false

abbrev pub is_confirmed : Option Operation → Bool
is_confirmed none = false
is_confirmed (some op) = is_confirmed_phase op.phase

-- What the helper meets: whether the old process exits and the new one starts, whether the new one
-- acknowledges, and whether the helper reads the journal again in time.
pub record Course : Type 0 where
  pub exits : Bool
  pub starts : Bool
  pub acks : Bool
  pub sees : Bool

-- `runHelper` for the operation that it has read.
unfoldable pub run_helper : Answers → Course → Operation → Site → Site
unfolding rollback cleanup acknowledge_site
run_helper a c op s =
    let t = if c.acks then (acknowledge_site done op.id op.version s).1 else s in
    if not c.exits
    then s
    else if not c.starts
    then (rollback a.restores a.saves a.reason op s).1
    else if c.sees && is_confirmed t.journal
    then (cleanup a.removes a.flushes a.clears t).1
    else (rollback a.restores a.saves a.reason op t).1

abbrev pub disk_of : Operation → Site → Disk
disk_of op s = record { live = s.live; backup = s.backup; op = op }

-- The effects of a decision of `Recover`.
abbrev pub perform : Answers → RecoveryAction → Operation → Site → RecoveryAction × Site
perform a cleans_up op s = (cleans_up, (cleanup a.removes a.flushes a.clears s).1)
perform a rolls_back op s =
    let (ok, t) = rollback a.restores a.saves a.reason op s in
    (if ok then rolls_back else needs_repair, t)
perform a acknowledges op s = (acknowledges, s)
perform a suppresses op s = (suppresses, s)
perform a needs_repair op s = (needs_repair, s)

unfoldable pub recover : Answers → Bytes → Time → Operation → Site → RecoveryAction × Site
unfolding evaluate_recovery install_state rollback cleanup
recover a version now op s =
    perform a (evaluate_recovery op (install_state (disk_of op s) version now)).0 op s

-- Behind a successful `Acknowledge` of the journal.
abbrev pub then_cleanup : Answers → Bool × Site → Site
then_cleanup a (true, s) = (cleanup a.removes a.flushes a.clears s).1
then_cleanup a (false, s) = s

-- What `recoverPending` makes of an executed decision: whether the start is suppressed, and the site.
abbrev pub settle : Answers → Bytes → Operation → RecoveryAction × Site → Bool × Site
settle a version op (acknowledges, s) =
    (false, then_cleanup a (acknowledge_site a.saves op.id version s))
settle a version op (suppresses, s) = (true, (clear a.clears s).1)
settle a version op (rolls_back, s) = (false, s)
settle a version op (cleans_up, s) = (false, s)
settle a version op (needs_repair, s) = (false, s)

abbrev pub is_activated_phase : Phase → Bool
is_activated_phase activated = true
is_activated_phase staged = false
is_activated_phase confirmed = false
is_activated_phase rolled_back = false
is_activated_phase other = false

abbrev pub is_rolled_back_phase : Phase → Bool
is_rolled_back_phase rolled_back = true
is_rolled_back_phase staged = false
is_rolled_back_phase activated = false
is_rolled_back_phase confirmed = false
is_rolled_back_phase other = false

-- Without the lock, which the helper holds; `acks` is how its last attempt to save the acknowledgement ends.
abbrev pub without_lock : Change → Bytes → Operation → Site → Bool × Site
without_lock acks version op s = (
  is_rolled_back_phase op.phase && op.suppress_next,
  if is_activated_phase op.phase && eqb op.version version
      then (acknowledge_site acks op.id op.version s).1
      else s,
)

abbrev pub recover_found :
    Answers → Bool → Change → Bytes → Time → Option Operation → Site → Bool × Site
recover_found a locks acks version now none s = (false, s)
recover_found a locks acks version now (some op) s =
    if locks
    then settle a version op (recover a version now op s)
    else without_lock acks version op s

-- `recoverPending` where the journal can be read.
unfoldable pub recover_pending : Answers → Bool → Change → Bytes → Time → Site → Bool × Site
unfolding recover acknowledge_site cleanup eqb
recover_pending a locks acks version now s = recover_found a locks acks version now s.journal s

-- Whether `Prepare` may record a new operation.
abbrev pub may_prepare_over : Phase → Bool
may_prepare_over staged = false
may_prepare_over activated = false
may_prepare_over confirmed = true
may_prepare_over rolled_back = true
may_prepare_over other = true

unfoldable pub may_prepare : Option Operation → Bool
may_prepare none = true
may_prepare (some op) = may_prepare_over op.phase
