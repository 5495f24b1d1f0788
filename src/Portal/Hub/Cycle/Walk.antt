-- ===== src/Portal/Hub/Cycle/Walk.antt =====
-- A rule for the whole cycle: what every client call keeps, the cycle keeps.
use torrent_tv.Prelude.{ℕ, Bool, true, false, ◌&&◌, not, inl, inr, Bool-cases}
use torrent_tv.Portal.Types.{PublicSettings}
use torrent_tv.Portal.Hub.{Reply, ok, fail, Hub, HubState}
use torrent_tv.Portal.Hub.Cycle.{
  Wait, Script, Draft, call, take_links, account_phase, recover, deliver, probe, promotion_phase,
  settings_phase, draft_of, check_context, account_wait, read_state,
}
use torrent_tv.Portal.Hub.Cycle.Flows.{Holds, after-Holds}

abbrev pub Always : (Hub → Type 0) → {A : Type 0} → Hub → A → Type 0
Always P h a = P h

-- `L` is what a cycle leaves with, `Q` what it goes on with up to its first call, and `P` behind that.
abbrev pub Passes : {A : Type 0} → (Hub → Type 0) → (Hub → Type 0) → ℕ → Wait A → Type 0
Passes L P g w = (h : Hub) → P h → Holds L (Always P) (call w g h)

pub record Walk (script : Script) (g : ℕ) (L Q P : Hub → Type 0) : Type 0 where
  pub check : (h : Hub) → Q h → Holds L (Always Q) (check_context script.context h)
  pub state : (h : Hub) → Q h → Holds L (Always Q) (read_state script h)
  pub settings : (h : Hub) → Q h → Holds L (Always P) (call script.settings g h)
  pub links : Passes L P g script.links
  pub account : Passes L P g (account_wait script)
  pub delivery : Passes L P g script.delivery
  pub availability : Passes L P g script.availability
  pub recovery : Passes L P g script.recovery

module _ (script : Script) (g : ℕ) (L Q P : Hub → Type 0) (walk : Walk script g L Q P) where
  account_phase-Holds :
      (settings : PublicSettings) (d : Draft) (h : Hub)
      → P h
      → Holds L (Always P) (account_phase script g settings d h)
  unfolding account_phase
  account_phase-Holds settings (s, errs) h f = elim (Bool-cases settings.accounts_enabled) [
    | inl on ↦
        rw (on, account_phase)
          (after-Holds L (Always P) (Always P) (call (account_wait script) g h) _ (walk.account h f)
            (λ h' answer f'. f'))
    | inr off ↦ rw (off, account_phase) f
  ]

  recover-Holds :
      (answer : Reply Bool) (d : Draft) (h : Hub)
      → P h
      → Holds L (Always P) (recover script g answer d h)
  unfolding recover
  recover-Holds (fail e) d h f = f
  recover-Holds (ok false) d h f = f
  recover-Holds (ok true) d h f =
      after-Holds L (Always P) (Always P) (call script.recovery g h) _ (walk.recovery h f)
        (λ h' answer f'. f')

  deliver-Holds : (d : Draft) (h : Hub) → P h → Holds L (Always P) (deliver script g d h)
  unfolding deliver
  deliver-Holds d h t =
      after-Holds L (Always P) (Always P) (call script.delivery g h) _ (walk.delivery h t)
        (λ h' answer f'. f')

  probe-Holds : (d : Draft) (h : Hub) → P h → Holds L (Always P) (probe script g d h)
  unfolding probe
  probe-Holds d h t =
      after-Holds L (Always P) (Always P) (call script.availability g h) _ (walk.availability h t)
        (λ h' answer f'. recover-Holds answer d h' f')

  promotion_phase-Holds :
      (settings : PublicSettings) (d : Draft) (h : Hub)
      → P h
      → Holds L (Always P) (promotion_phase script g settings d h)
  unfolding promotion_phase
  promotion_phase-Holds settings d h f =
      elim (Bool-cases (settings.ads_enabled && not d.0.donor && d.0.promotion_live)) [
        | inl lit ↦ rw (lit, promotion_phase) (deliver-Holds d h f)
        | inr unlit ↦ elim (Bool-cases (settings.ads_enabled && not d.0.donor)) [
          | inl asks ↦ rw (unlit, asks, promotion_phase) (probe-Holds d h f)
          | inr shut ↦ rw (unlit, shut, promotion_phase) f
        ]
      ]

  settings_phase-Holds :
      (answer : Reply PublicSettings) (s : HubState) (h : Hub)
      → P h
      → Holds L (Always P) (settings_phase script g answer s h)
  unfolding settings_phase
  settings_phase-Holds (fail e) s h f = f
  settings_phase-Holds (ok settings) s h f =
      after-Holds L (Always P) (Always P) (call script.links g h) _ (walk.links h f) λ h' answer f'.
        after-Holds L (Always P) (Always P)
          (account_phase script g settings (take_links answer (asked s)) h') _
          (account_phase-Holds settings (take_links answer (asked s)) h' f')
          (λ h'' d f''. promotion_phase-Holds settings d h'' f'')
    where
      asked : HubState → HubState
      asked s = record s {
        accounts_enabled = settings.accounts_enabled;
        ads_enabled = settings.ads_enabled;
      }

  pub draft_of-Holds : (h : Hub) → Q h → Holds L (Always P) (draft_of script g h)
  unfolding draft_of
  draft_of-Holds h f =
      after-Holds L (Always Q) (Always P) (check_context script.context h) _ (walk.check h f)
        λ h' _ f'.
          after-Holds L (Always Q) (Always P) (read_state script h') _ (walk.state h' f')
            λ k next fk.
              after-Holds L (Always P) (Always P) (call script.settings g k) _ (walk.settings k fk)
                (λ h'' answer f''. settings_phase-Holds answer next h'' f'')
