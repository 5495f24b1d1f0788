-- ===== src/Portal/Hub/Cycle/Slots.antt =====
-- Each surface as a function of the answers that concern it, and the steps of a cycle in those terms.
use torrent_tv.Prelude.{
  ℕ, ◌≡◌, refl, subst, Bool, true, false, ◌&&◌, not, List, [], Option, none, some, arith, ltb,
  if◌then◌else◌,
}
use torrent_tv.Portal.Types.{Time, Link, Promotion, AccountStatus, PublicSettings}
use torrent_tv.Portal.Hub.{Error, Reply, ok, fail, Hub, HubState, is_credentials, without_donor}
use torrent_tv.Portal.Hub.Cycle.{
  Wait, Script, account_wait, Draft, call, take_links, take_account, take_delivery, take_recovery,
  hide_promotions, promotion_phase, check_context,
}
use torrent_tv.Portal.Hub.Cycle.Flows.{Holds, call-Holds}

abbrev pub list_of {ℓ} : {A : Type ℓ} → Reply (List A) → List A
list_of (ok xs) = xs
list_of (fail e) = []

abbrev pub is_ok {ℓ} : {A : Type ℓ} → Reply A → Bool
is_ok (ok a) = true
is_ok (fail e) = false

abbrev pub is_reachable : Reply AccountStatus → Bool
is_reachable (ok status) = true
is_reachable (fail e) = is_credentials e

abbrev pub in_term : Time → Option Time → Bool
in_term now none = true
in_term now (some t) = ltb now t

abbrev pub is_donor : Time → Reply AccountStatus → Bool
is_donor now (ok status) = status.donor && in_term now status.donor_until
is_donor now (fail e) = false

abbrev pub term_of : Option Time → Time
term_of none = 0
term_of (some t) = t

abbrev pub expiry_of : Reply AccountStatus → Time
expiry_of (ok status) = term_of status.donor_until
expiry_of (fail e) = 0

abbrev pub is_available : Reply Bool → Bool
is_available (ok b) = b
is_available (fail e) = false

-- Whether the slot is live after the cycle, if ads are on and the household is no donor.
abbrev pub slot_live : Bool → Script → Bool
slot_live true script = is_ok script.delivery.answer
slot_live false script = is_available script.availability.answer && is_ok script.recovery.answer

abbrev pub slot_promotions : Bool → Script → List Promotion
slot_promotions true script = list_of script.delivery.answer
slot_promotions false script =
    if is_available script.availability.answer then list_of script.recovery.answer else []

-- Each surface depends on the public settings and on its own answer alone; the slot depends also on
-- the donor status, and on whether it was live before.
unfoldable pub surfaces : Script → PublicSettings → HubState → HubState
surfaces script settings before =
    let donor = settings.accounts_enabled && is_donor script.now (account_wait script).answer in
    let slot = settings.ads_enabled && not donor in
    record {
      accounts_enabled = settings.accounts_enabled && is_reachable (account_wait script).answer;
      ads_enabled = settings.ads_enabled;
      promotion_live = slot && slot_live before.promotion_live script;
      donor = donor;
      donor_until = if donor then expiry_of (account_wait script).answer else 0;
      links = list_of script.links.answer;
      promotions = if slot then slot_promotions before.promotion_live script else [];
    }

abbrev pub Any : Hub → Type 0
Any h = Unit

abbrev pub Makes : HubState → Hub → Draft → Type 0
Makes s h d = d.0 ≡ s

abbrev pub Answers : {A : Type 0} → Wait A → Hub → Reply A → Type 0
Answers w h a = a ≡ w.answer

pub call-Answers : {A : Type 0} (w : Wait A) (g : ℕ) (h : Hub) → Holds Any (Answers w) (call w g h)
call-Answers w g h = call-Holds Any (Answers w) w g h tt (λ _. refl)

unfoldable pub account_state : Script → PublicSettings → HubState → HubState
account_state script settings s =
    if settings.accounts_enabled
    then (take_account script.now (account_wait script).answer s).0
    else without_donor s

unfoldable pub recovered : Script → Reply Bool → Draft → HubState
recovered script (fail e) d = record d.0 { promotions = [] }
recovered script (ok false) d = record d.0 { promotions = [] }
recovered script (ok true) d = (take_recovery script.recovery.answer d).0

unfoldable pub slot_state : Script → PublicSettings → Draft → HubState
unfolding recovered
slot_state script settings d =
    if settings.ads_enabled && not d.0.donor && d.0.promotion_live
    then (take_delivery script.delivery.answer d).0
    else if settings.ads_enabled && not d.0.donor
    then recovered script script.availability.answer d
    else hide_promotions d.0

abbrev pub asked : PublicSettings → HubState → HubState
asked settings s = record s {
  accounts_enabled = settings.accounts_enabled;
  ads_enabled = settings.ads_enabled;
}

pub take_links-eq :
    (answer : Reply (List Link)) (s : HubState)
    → (take_links answer s).0 ≡ record s { links = list_of answer }
unfolding take_links
take_links-eq (ok ls) s = refl
take_links-eq (fail e) s = refl

pub take_account-eq :
    (now : Time) (answer : Reply AccountStatus) (s : HubState)
    → (take_account now answer s).0 ≡ record s {
      accounts_enabled = s.accounts_enabled && is_reachable answer;
      donor = is_donor now answer;
      donor_until = if is_donor now answer then expiry_of answer else 0;
    }
unfolding take_account
take_account-eq now (ok status) s = ground arith
take_account-eq now (fail e) s = ground arith

pub slot_state-eq :
    (script : Script) (settings : PublicSettings) (d : Draft)
    → slot_state script settings d ≡ record (d.0) {
      promotion_live = settings.ads_enabled && not d.0.donor && slot_live d.0.promotion_live script;
      promotions =
          if settings.ads_enabled && not d.0.donor
          then slot_promotions d.0.promotion_live script
          else [];
    }
unfolding slot_state take_delivery take_recovery
slot_state-eq script settings d = ground arith

-- The phases put together.
pub slot-surfaces :
    (script : Script) (settings : PublicSettings) (s : HubState) (d : Draft)
    → d.0 ≡ account_state script settings (take_links script.links.answer (asked settings s)).0
    → slot_state script settings d ≡ surfaces script settings s
unfolding surfaces account_state
slot-surfaces script settings s d e = ground (
  arith,
  slot_state-eq script settings d,
  take_links-eq script.links.answer (asked settings s),
  take_account-eq script.now (account_wait script).answer
      (record (asked settings s) { links = list_of script.links.answer }),
)

pub after_slot :
    (script : Script) (g : ℕ) (settings : PublicSettings) (s : HubState) (d : Draft) (h : Hub)
    → d.0 ≡ account_state script settings (take_links script.links.answer (asked settings s)).0
    → Holds Any (Makes (slot_state script settings d)) (promotion_phase script g settings d h)
    → Holds Any (Makes (surfaces script settings s)) (promotion_phase script g settings d h)
after_slot script g settings s d h e m =
    subst (λ t. Holds Any (Makes t) (promotion_phase script g settings d h))
      (slot-surfaces script settings s d e) m

pub check_context-state :
    (c : Option Error) (h : Hub)
    → Holds Any (λ h' (u : Unit {0}). h'.state ≡ h.state) (check_context c h)
unfolding check_context
check_context-state none h = refl
check_context-state (some e) h = tt
