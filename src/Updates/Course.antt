-- ===== src/Updates/Course.antt =====
-- An update between its activation and its end: no course of helpers, crashes and startups loses the
-- installation.
use torrent_tv.Prelude.{
  Time, ◌≡◌, refl, ap, subst, ◌∙◌, inl, inr, Bool, true, false, not, ◌&&◌, Option, none, some,
  if◌then◌else◌,
}
use torrent_tv.Prelude.Bytes.{Bytes, eqb}
use torrent_tv.Updates.{
  Phase, staged, activated, confirmed, rolled_back, other, Operation, RecoveryAction, acknowledges,
  rolls_back, cleans_up, suppresses, needs_repair, evaluate_recovery, live_state, install_state,
}
use torrent_tv.Updates.Transaction.{
  Site, Change, done, rollback, cleanup, Answers, acknowledge_site, Course, run_helper, disk_of,
  perform, recover, then_cleanup, settle, without_lock, is_activated_phase, is_confirmed,
  is_confirmed_phase, recover_found, recover_pending,
}
use torrent_tv.Updates.Decisions.{evaluate_recovery_lem}
use torrent_tv.Updates.Guarded.{
  Held, IsGuarded, cleanup-IsGuarded, clear-IsGuarded, rollback-IsGuarded, Noted,
  acknowledge_site-Noted,
}

-- One event of the transaction: a helper for the operation that it read when that was activated, or a
-- startup.
pub data Step (s : Site) : Site → Type 0 where
  helps :
      (a : Answers) (c : Course) (op : Operation)
      → s.journal ≡ some op
      → op.phase ≡ activated
      → Step s (run_helper a c op s)
  starts_up :
      (a : Answers) (locks : Bool) (acks : Change) (version : Bytes) (now : Time)
      → Step s (recover_pending a locks acks version now s).1

pub data Reach (start : Site) : Site → Type 0 where
  here : Reach start start
  next : {s t : Site} → Reach start s → Step s t → Reach start t

module _ (old new : Bytes) (eqb_differs : eqb new old ≡ false) where
  new_is_activated :
      (op : Operation) (s : Site) (version : Bytes) (now : Time)
      → s.live ≡ some new
      → op.prior_state ≡ some old
      → IsGuarded old new s
      → (install_state (disk_of op s) version now).is_activated ≡ true
  unfolding install_state
  new_is_activated op s version now e p v = elim v.backup [
    | inl gone ↦ ap₃ e gone p ∙ by_prior
    | inr kept ↦ ap₃ e kept p ∙ by_backup
  ]
    where
      ap₃ :
          {a b c d x y : Option Bytes}
          → a ≡ b
          → c ≡ d
          → x ≡ y
          → (live_state a c x).0 ≡ (live_state b d y).0
      ap₃ f g h = rw (f, g, h) refl

      first : Bool × Bool → Bool
      first r = r.0

      by_prior : (live_state (some new) none (some old)).0 ≡ true
      by_prior = ap not eqb_differs

      by_backup : (live_state (some new) (some old) (some old)).0 ≡ true
      by_backup = ap (λ (b : Bool). first (if b then (false, true) else (true, false))) eqb_differs

  perform-IsGuarded :
      (a : Answers) (action : RecoveryAction) (op : Operation) (s : Site)
      → op.prior_state ≡ some old
      → (action ≡ cleans_up → s.live ≡ some new → s.acknowledged ≡ true)
      → IsGuarded old new s
      → IsGuarded old new (perform a action op s).1
  perform-IsGuarded a cleans_up op s p h v =
      cleanup-IsGuarded old new a.removes a.flushes a.clears s (h refl) v
  perform-IsGuarded a rolls_back op s p h v =
      rollback-IsGuarded old new eqb_differs a.restores a.saves a.reason op s p v
  perform-IsGuarded a acknowledges op s p h v = v
  perform-IsGuarded a suppresses op s p h v = v
  perform-IsGuarded a needs_repair op s p h v = v

  recover-IsGuarded :
      (a : Answers) (version : Bytes) (now : Time) (op : Operation) (s : Site)
      → Held (some old) (some op) s.acknowledged
      → IsGuarded old new s
      → IsGuarded old new (recover a version now op s).1
  unfolding recover
  recover-IsGuarded a version now op s (p, q) v =
      perform-IsGuarded a (evaluate_recovery op (install_state (disk_of op s) version now)).0 op s p
        (λ e live. q (
          evaluate_recovery_lem op (install_state (disk_of op s) version now)
            (new_is_activated op s version now live p v) e))
        v

  then_cleanup-IsGuarded :
      (a : Answers) (r : Bool × Site)
      → Noted old new eqb_differs r
      → IsGuarded old new (then_cleanup a r)
  then_cleanup-IsGuarded a (true, t) (v, h) =
      cleanup-IsGuarded old new a.removes a.flushes a.clears t (λ e. h refl) v
  then_cleanup-IsGuarded a (false, t) (v, h) = v

  settle-IsGuarded :
      (a : Answers) (version : Bytes) (op : Operation) (r : RecoveryAction × Site)
      → IsGuarded old new r.1
      → IsGuarded old new (settle a version op r).1
  settle-IsGuarded a version op (acknowledges, s) v =
      then_cleanup-IsGuarded a (acknowledge_site a.saves op.id version s)
        (acknowledge_site-Noted old new eqb_differs a.saves op.id version s v)
  settle-IsGuarded a version op (suppresses, s) v = clear-IsGuarded old new a.clears s v
  settle-IsGuarded a version op (rolls_back, s) v = v
  settle-IsGuarded a version op (cleans_up, s) v = v
  settle-IsGuarded a version op (needs_repair, s) v = v

  without_lock-IsGuarded :
      (acks : Change) (version : Bytes) (op : Operation) (s : Site)
      → IsGuarded old new s
      → IsGuarded old new (without_lock acks version op s).1
  without_lock-IsGuarded acks version op s v =
      by_test (is_activated_phase op.phase && eqb op.version version)
    where
      by_test :
          (b : Bool)
          → IsGuarded old new (if b then (acknowledge_site acks op.id op.version s).1 else s)
      by_test true = (acknowledge_site-Noted old new eqb_differs acks op.id op.version s v).0
      by_test false = v

  recover_found-IsGuarded :
      (a : Answers) (locks : Bool) (acks : Change) (version : Bytes) (now : Time)
      (j : Option Operation) (s : Site)
      → s.journal ≡ j
      → IsGuarded old new s
      → IsGuarded old new (recover_found a locks acks version now j s).1
  recover_found-IsGuarded a locks acks version now none s e v = v
  recover_found-IsGuarded a true acks version now (some op) s e v =
      settle-IsGuarded a version op (recover a version now op s) (
        recover-IsGuarded a version now op s
          (subst (λ j. Held (some old) j s.acknowledged) e v.held) v)
  recover_found-IsGuarded a false acks version now (some op) s e v =
      without_lock-IsGuarded acks version op s v

  run_helper-IsGuarded :
      (a : Answers) (c : Course) (op : Operation) (s : Site)
      → op.prior_state ≡ some old
      → IsGuarded old new s
      → IsGuarded old new (run_helper a c op s)
  unfolding run_helper
  run_helper-IsGuarded a c op s p v = by_course (behind c.acks) c.exits c.starts c.sees
    where
      behind :
          (b : Bool)
          → IsGuarded old new (if b then (acknowledge_site done op.id op.version s).1 else s)
      behind true = (acknowledge_site-Noted old new eqb_differs done op.id op.version s v).0
      behind false = v

      confirmed_lem :
          (j : Option Operation) (acked : Bool)
          → Held (some old) j acked
          → is_confirmed j ≡ true
          → acked ≡ true
      confirmed_lem none acked h e = cc
      confirmed_lem (some o) acked (x, q) e = q (phase_lem o.phase e)
        where
          phase_lem : (phase : Phase) → is_confirmed_phase phase ≡ true → phase ≡ confirmed
          phase_lem confirmed e = refl
          phase_lem staged e = cc
          phase_lem activated e = cc
          phase_lem rolled_back e = cc
          phase_lem other e = cc

      seen :
          {t : Site} (b : Bool)
          → IsGuarded old new t
          → is_confirmed t.journal ≡ b
          → IsGuarded old new (
              if b
              then (cleanup a.removes a.flushes a.clears t).1
              else (rollback a.restores a.saves a.reason op t).1)
      seen {t} true w e =
          cleanup-IsGuarded old new a.removes a.flushes a.clears t
            (λ live. confirmed_lem t.journal t.acknowledged w.held e) w
      seen {t} false w e =
          rollback-IsGuarded old new eqb_differs a.restores a.saves a.reason op t p w

      by_course :
          {t : Site}
          → IsGuarded old new t
          → (exits starts sees : Bool)
          → IsGuarded old new (
              if not exits
              then s
              else if not starts
              then (rollback a.restores a.saves a.reason op s).1
              else if sees && is_confirmed t.journal
              then (cleanup a.removes a.flushes a.clears t).1
              else (rollback a.restores a.saves a.reason op t).1)
      by_course w false starts sees = v
      by_course w true false sees =
          rollback-IsGuarded old new eqb_differs a.restores a.saves a.reason op s p v
      by_course {t} w true true true = seen {t = t} (is_confirmed t.journal) w refl
      by_course {t} w true true false =
          rollback-IsGuarded old new eqb_differs a.restores a.saves a.reason op t p w

  Step-IsGuarded : {s t : Site} → Step s t → IsGuarded old new s → IsGuarded old new t
  unfolding recover_pending
  Step-IsGuarded {s} (helps a c op e k) v =
      run_helper-IsGuarded a c op s (subst (λ j. Held (some old) j s.acknowledged) e v.held).0 v
  Step-IsGuarded {s} (starts_up a locks acks version now) v =
      recover_found-IsGuarded a locks acks version now s.journal s refl v

  -- For a new executable that differs from the old one: from an activated operation with the old one
  -- in the backup, whatever helpers and startups do, in any order and with any answers of the file
  -- system, the live executable is the old or the new one; and while it is the new one, the backup
  -- holds the old one until the new one has been acknowledged.
  pub Reach-IsGuarded :
      {start s : Site} → IsGuarded old new start → Reach start s → IsGuarded old new s
  Reach-IsGuarded v here = v
  Reach-IsGuarded v (next r st) = Step-IsGuarded st (Reach-IsGuarded v r)
