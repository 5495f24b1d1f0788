-- ===== src/Portal/Hub/Cycle/Phases.antt =====
-- The phases of a refresh cycle keep the invariant.
use torrent_tv.Prelude.{
  ℕ, ◌≡◌, subst, List, Bool, true, false, ◌&&◌, not, ◌∙◌, inl, inr, arith, Bool-cases, All,
}
use torrent_tv.Portal.Types.{PublicSettings}
use torrent_tv.Portal.Hub.{Error, Reply, ok, fail, HubState, Hub}
use torrent_tv.Portal.Hub.Cycle.{
  notes, act, acts, Script, Flow, leave, keeps, Draft, call, take_links, account_phase, recover,
  deliver, probe, promotion_phase, settings_phase, draft_of, refresh, committed, ◌>>=◌,
  account_wait, read_state, begun, close, check_context,
}
use torrent_tv.Portal.Hub.Cycle.Flows.{Holds, after-Holds}
use torrent_tv.Portal.Hub.Cycle.Invariant.{
  IsCoherent, IsSafe, commit-state, act-IsCoherent, acts-IsCoherent, IsSafeScript,
}
use torrent_tv.Portal.Hub.Cycle.Drafts.{
  IsDraft, IsOpening, Coherent, Drafted, Asked, Waited, call-Coherent, take_links-IsOpening,
  take_links-accounts, check_context-Holds, take_account-IsDraft, take_delivery-IsCoherent,
  take_recovery-IsCoherent, open_draft, hide-IsCoherent,
}

module _ (script : Script) (safe : IsSafeScript script) (g : ℕ) where
  account_phase-Holds :
      (settings : PublicSettings) (d : Draft) (h : Hub)
      → Coherent h
      → IsOpening settings.ads_enabled d.0
      → d.0.accounts_enabled ≡ settings.accounts_enabled
      → Holds Coherent (Asked settings.ads_enabled) (account_phase script g settings d h)
  unfolding account_phase
  account_phase-Holds settings (s, errs) h v d e = elim (Bool-cases settings.accounts_enabled) [
    | inl on ↦
        rw (on, account_phase)
          (after-Holds Coherent Waited (Asked settings.ads_enabled) (call (account_wait script) g h)
            _ (call-Coherent (account_wait script) g h safe.account v)
            (λ h' answer v'. (v', take_account-IsDraft _ script.now answer s d (e ∙ on))))
    | inr off ↦ rw (off, account_phase) (v, ground arith)
  ]

  recover-Holds :
      (answer : Reply Bool) (d : Draft) (h : Hub)
      → Coherent h
      → IsDraft true d.0
      → d.0.promotion_live ≡ false
      → d.0.donor ≡ false
      → Holds Coherent Drafted (recover script g answer d h)
  unfolding recover
  recover-Holds (fail e) d h v c dark poor = (v, ground arith)
  recover-Holds (ok false) d h v c dark poor = (v, ground arith)
  recover-Holds (ok true) d h v c dark poor =
      after-Holds Coherent Waited Drafted (call script.recovery g h) _
        (call-Coherent script.recovery g h safe.recovery v)
        (λ h' answer v'. (v', take_recovery-IsCoherent answer d c poor))

  deliver-Holds :
      (d : Draft) (h : Hub)
      → Coherent h
      → IsDraft true d.0
      → d.0.promotion_live ≡ true
      → d.0.donor ≡ false
      → Holds Coherent Drafted (deliver script g d h)
  unfolding deliver
  deliver-Holds d h v c live poor =
      after-Holds Coherent Waited Drafted (call script.delivery g h) _
        (call-Coherent script.delivery g h safe.delivery v)
        (λ h' answer v'. (v', take_delivery-IsCoherent answer d c live poor))

  probe-Holds :
      (d : Draft) (h : Hub)
      → Coherent h
      → IsDraft true d.0
      → d.0.promotion_live ≡ false
      → d.0.donor ≡ false
      → Holds Coherent Drafted (probe script g d h)
  unfolding probe
  probe-Holds d h v c dark poor =
      after-Holds Coherent Waited Drafted (call script.availability g h) _
        (call-Coherent script.availability g h safe.availability v)
        (λ h' answer v'. recover-Holds answer d h' v' c dark poor)

  promotion_phase-Holds :
      (settings : PublicSettings) (d : Draft) (h : Hub)
      → Coherent h
      → IsDraft settings.ads_enabled d.0
      → Holds Coherent Drafted (promotion_phase script g settings d h)
  unfolding promotion_phase
  promotion_phase-Holds settings d h v c =
      elim (Bool-cases (settings.ads_enabled && not d.0.donor && d.0.promotion_live)) [
        | inl lit ↦
            rw (lit, promotion_phase)
              (deliver-Holds d h v (open_draft settings d c (ground arith)) (ground arith)
                (ground arith))
        | inr unlit ↦ elim (Bool-cases (settings.ads_enabled && not d.0.donor)) [
          | inl asks ↦
              rw (unlit, asks, promotion_phase)
                (probe-Holds d h v (open_draft settings d c (ground arith)) (ground arith)
                  (ground arith))
          | inr shut ↦ rw (unlit, shut, promotion_phase) (v, hide-IsCoherent _ d.0 c)
        ]
      ]

  settings_phase-Holds :
      (answer : Reply PublicSettings) (s : HubState) (h : Hub)
      → Coherent h
      → IsCoherent s
      → Holds Coherent Drafted (settings_phase script g answer s h)
  unfolding settings_phase
  settings_phase-Holds (fail e) s h v c = (v, ground arith)
  settings_phase-Holds (ok settings) s h v c =
      after-Holds Coherent Waited Drafted (call script.links g h) _
        (call-Coherent script.links g h safe.links v)
        λ h' answer v'.
          after-Holds Coherent (Asked settings.ads_enabled) Drafted
            (account_phase script g settings (take_links answer (asked s)) h') _
            (account_phase-Holds settings (take_links answer (asked s)) h' v'
              (take_links-IsOpening settings.ads_enabled answer (asked s) (ground arith))
              (take_links-accounts answer (asked s)))
            (λ h'' d both. promotion_phase-Holds settings d h'' both.0 both.1)
    where
      asked : HubState → HubState
      asked s = record s {
        accounts_enabled = settings.accounts_enabled;
        ads_enabled = settings.ads_enabled;
      }

  abbrev Taken : Hub → HubState → Type 0
  Taken h s = Coherent h × IsCoherent s

  read_state-Holds : (h : Hub) → Coherent h → Holds Coherent Taken (read_state script h)
  unfolding read_state
  read_state-Holds h v = let w = acts-IsCoherent script.before_state h safe.before_state v in (w, w)

  draft_of-Holds : (h : Hub) → Coherent h → Holds Coherent Drafted (draft_of script g h)
  unfolding draft_of
  draft_of-Holds h v =
      after-Holds Coherent Waited Drafted (check_context script.context h) _
        (check_context-Holds script.context h v)
        λ h' _ v'.
          after-Holds Coherent Taken Drafted (read_state script h')
            (λ s. call script.settings g >>= λ answer. settings_phase script g answer s)
            (read_state-Holds h' v')
            λ k next vk.
              after-Holds Coherent Waited Drafted (call script.settings g k)
                (λ answer. settings_phase script g answer next)
                (call-Coherent script.settings g k safe.settings vk.0)
                (λ h'' answer v''. settings_phase-Holds answer next h'' v'' vk.1)

close-IsCoherent :
    (script : Script) (r : Hub × Flow Draft)
    → All IsSafe script.before_commit
    → Holds Coherent Drafted r
    → Coherent (close script r).0
unfolding close
close-IsCoherent script (h, leave e) safe v = v
close-IsCoherent script (h, keeps (next, errs)) safe v =
    rw (commit-state next (acts script.before_commit h)) v.1

close-committed :
    (script : Script) (r : Hub × Flow Draft) {next : HubState} {errs : List Error}
    → Holds Coherent Drafted r
    → (close script r).1 ≡ committed next errs
    → IsCoherent next
unfolding close
close-committed script (h, leave e) v c = absurd cc
close-committed script (h, keeps (s, es)) v c = subst IsCoherent (same c) v.1
  where
    same : {next : HubState} {errs : List Error} → committed s es ≡ committed next errs → s ≡ next
    same c = cc

refresh-Drafted :
    (script : Script) (h : Hub)
    → IsSafeScript script
    → IsCoherent h.state
    → Holds Coherent Drafted (draft_of script (begun script h).generation (begun script h))
unfolding begun act
refresh-Drafted script h safe v =
    draft_of-Holds script safe (begun script h).generation (begun script h) (
      acts-IsCoherent script.before_generation (act (notes script.key) h) safe.before_generation
        (act-IsCoherent (notes script.key) h tt v))

-- A refresh cycle keeps the state coherent, whatever the client answers, wherever the cycle is
-- abandoned, and whatever other goroutines do while it waits.
pub refresh-IsCoherent :
    (script : Script) (h : Hub)
    → IsSafeScript script
    → IsCoherent h.state
    → IsCoherent (refresh script h).0.state
unfolding refresh act
refresh-IsCoherent script h safe v =
    close-IsCoherent script (draft_of script (begun script h).generation (begun script h))
      safe.before_commit (refresh-Drafted script h safe v)

-- What a cycle commits is coherent.
pub committed-IsCoherent :
    (script : Script) (h : Hub) {next : HubState} {errs : List Error}
    → IsSafeScript script
    → IsCoherent h.state
    → (refresh script h).1 ≡ committed next errs
    → IsCoherent next
unfolding refresh
committed-IsCoherent script h safe v e =
    close-committed script (draft_of script (begun script h).generation (begun script h))
      (refresh-Drafted script h safe v) e
