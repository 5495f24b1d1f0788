-- ===== src/Portal/Hub/Cycle/Surfaces.antt =====
-- What a committed cycle makes of each surface, as a function of the answers that concern it.
use torrent_tv.Prelude.{
  ℕ, ◌≡◌, refl, sym, ap, subst, ◌∙◌, Option, none, some, Bool, true, false, ◌&&◌, not, List, inl,
  inr, arith, Bool-cases,
}
use torrent_tv.Portal.Types.{PublicSettings}
use torrent_tv.Portal.Hub.{Error, Reply, ok, fail, Hub, HubState, blank_state}
use torrent_tv.Portal.Hub.Cycle.{
  Script, Flow, leave, keeps, Draft, call, take_links, take_account, take_delivery, take_recovery,
  account_phase, recover, deliver, probe, promotion_phase, settings_phase, draft_of, check_context,
  close, committed, refresh, acts, after, begun, read_state, account_wait,
}
use torrent_tv.Portal.Hub.Cycle.Flows.{Holds, after-Holds}
use torrent_tv.Portal.Hub.Cycle.Slots.{
  surfaces, Any, Makes, Answers, call-Answers, account_state, recovered, slot_state, asked,
  after_slot,
}

module _ (script : Script) (g : ℕ) where
  account_phase-Makes :
      (settings : PublicSettings) (d : Draft) (h : Hub)
      → Holds Any (Makes (account_state script settings d.0)) (account_phase script g settings d h)
  unfolding account_phase account_state
  account_phase-Makes settings (s, errs) h = elim (Bool-cases settings.accounts_enabled) [
    | inl on ↦
        rw (on, account_phase, account_state)
          (after-Holds Any (Answers (account_wait script))
            (Makes (take_account script.now (account_wait script).answer s).0)
            (call (account_wait script) g h) _ (call-Answers (account_wait script) g h)
            (λ h' answer e. ap (λ a. (take_account script.now a s).0) e))
    | inr off ↦ rw (off, account_phase, account_state) refl
  ]

  recover-Makes :
      (answer : Reply Bool) (d : Draft) (h : Hub)
      → Holds Any (Makes (recovered script answer d)) (recover script g answer d h)
  unfolding recover recovered
  recover-Makes (fail e) d h = refl
  recover-Makes (ok false) d h = refl
  recover-Makes (ok true) d h =
      after-Holds Any (Answers script.recovery) (Makes (take_recovery script.recovery.answer d).0)
        (call script.recovery g h) _ (call-Answers script.recovery g h)
        (λ h' answer e. ap (λ a. (take_recovery a d).0) e)

  deliver-Makes :
      (d : Draft) (h : Hub)
      → Holds Any (Makes (take_delivery script.delivery.answer d).0) (deliver script g d h)
  unfolding deliver
  deliver-Makes d h =
      after-Holds Any (Answers script.delivery) (Makes (take_delivery script.delivery.answer d).0)
        (call script.delivery g h) _ (call-Answers script.delivery g h)
        (λ h' answer e. ap (λ a. (take_delivery a d).0) e)

  probe-Makes :
      (d : Draft) (h : Hub)
      → Holds Any (Makes (recovered script script.availability.answer d)) (probe script g d h)
  unfolding probe
  probe-Makes d h =
      after-Holds Any (Answers script.availability)
        (Makes (recovered script script.availability.answer d)) (call script.availability g h) _
        (call-Answers script.availability g h)
        (λ h' answer e.
          subst (λ a. Holds Any (Makes (recovered script a d)) (recover script g answer d h')) e
            (recover-Makes answer d h'))

  promotion_phase-Makes :
      (settings : PublicSettings) (d : Draft) (h : Hub)
      → Holds Any (Makes (slot_state script settings d)) (promotion_phase script g settings d h)
  unfolding promotion_phase slot_state
  promotion_phase-Makes settings d h =
      elim (Bool-cases (settings.ads_enabled && not d.0.donor && d.0.promotion_live)) [
        | inl lit ↦ rw (lit, promotion_phase, slot_state) (deliver-Makes d h)
        | inr unlit ↦ elim (Bool-cases (settings.ads_enabled && not d.0.donor)) [
          | inl asks ↦ rw (unlit, asks, promotion_phase, slot_state) (probe-Makes d h)
          | inr shut ↦ rw (unlit, shut, promotion_phase, slot_state) refl
        ]
      ]

  settings_phase-Makes :
      (settings : PublicSettings) (s : HubState) (h : Hub)
      → Holds Any (Makes (surfaces script settings s)) (settings_phase script g (ok settings) s h)
  unfolding settings_phase
  settings_phase-Makes settings s h =
      after-Holds Any (Answers script.links) (Makes (surfaces script settings s))
        (call script.links g h) _ (call-Answers script.links g h)
        λ h' answer e.
          after-Holds Any
            (Makes (account_state script settings (take_links answer (asked settings s)).0))
            (Makes (surfaces script settings s))
            (account_phase script g settings (take_links answer (asked settings s)) h') _
            (account_phase-Makes settings (take_links answer (asked settings s)) h')
            λ h'' d e'.
              after_slot script g settings s d h''
                (e' ∙ ap (λ a. account_state script settings (take_links a (asked settings s)).0) e)
                (promotion_phase-Makes settings d h'')

  check_context-same : (c : Option Error) (h : Hub) → Holds Any (λ h' u. h' ≡ h) (check_context c h)
  unfolding check_context
  check_context-same none h = refl
  check_context-same (some e) h = tt

  draft_of-Makes :
      (h : Hub) (next : HubState)
      → ((h' : Hub)
          → Holds Any (Makes next) (
              settings_phase script g script.settings.answer (acts script.before_state h).state h'))
      → Holds Any (Makes next) (draft_of script g h)
  unfolding draft_of read_state
  draft_of-Makes h next step =
      after-Holds Any (λ h' u. h' ≡ h) (Makes next) (check_context script.context h) _
        (check_context-same script.context h)
        λ h' u same.
          subst (λ k. Holds Any (Makes next) (behind k)) (sym same)
            (after-Holds Any (Answers script.settings) (Makes next)
              (call script.settings g (acts script.before_state h))
              (λ answer. settings_phase script g answer (acts script.before_state h).state)
              (call-Answers script.settings g (acts script.before_state h))
              λ h'' a e.
                subst
                  (λ a.
                    Holds Any (Makes next)
                      (settings_phase script g a (acts script.before_state h).state h''))
                  (sym e) (step h''))
    where
      behind : Hub → Hub × Flow Draft
      behind k =
          after (call script.settings g (acts script.before_state k))
            (λ answer. settings_phase script g answer (acts script.before_state k).state)

close-Makes :
    (script : Script) (r : Hub × Flow Draft) (s : HubState) {next : HubState} {errs : List Error}
    → Holds Any (Makes s) r
    → (close script r).1 ≡ committed next errs
    → next ≡ s
unfolding close
close-Makes script (h, leave e) s m c = cc
close-Makes script (h, keeps d) s m c = ground arith

-- The state that a cycle starts from.
abbrev pub start_state : Script → Hub → HubState
start_state script h = (acts script.before_state (begun script h)).state

-- What a committed cycle makes of the state that it started from. Without the public settings the
-- accounts, the donor and the promotions go, and the links stay.
unfoldable pub all_surfaces : Script → Reply PublicSettings → HubState → HubState
all_surfaces script (ok settings) s = surfaces script settings s
all_surfaces script (fail e) s = record blank_state { links = s.links }

all_surfaces-Makes :
    (script : Script) (g : ℕ) (answer : Reply PublicSettings) (s : HubState) (h : Hub)
    → Holds Any (Makes (all_surfaces script answer s)) (settings_phase script g answer s h)
unfolding all_surfaces settings_phase
all_surfaces-Makes script g (ok settings) s h = settings_phase-Makes script g settings s h
all_surfaces-Makes script g (fail e) s h = refl

-- A cycle that commits sets every surface to what `all_surfaces` says of its own answer: the links to
-- the links answer, or to none if that failed; the accounts to the public setting, unless the account
-- answer failed other than by rejected credentials; the donor to an account answer that names one
-- whose term is not over; and the promotion slot, only if ads are on and the household is no donor, to
-- the delivery (slot live before) or to the delivery behind a positive availability answer (slot
-- hidden before). If the public settings failed, the accounts, the donor and the promotions go, and
-- the links stay.
pub refresh-surfaces :
    (script : Script) (h : Hub) {next : HubState} {errs : List Error}
    → (refresh script h).1 ≡ committed next errs
    → next ≡ all_surfaces script script.settings.answer (start_state script h)
unfolding refresh
refresh-surfaces script h c =
    close-Makes script (draft_of script (begun script h).generation (begun script h))
      (all_surfaces script script.settings.answer (start_state script h))
      (draft_of-Makes script (begun script h).generation (begun script h) _ (
        all_surfaces-Makes script (begun script h).generation script.settings.answer
          (start_state script h)))
      c
