-- ===== src/Portal/Hub/Cycle/Drafts.antt =====
-- The drafts of a refresh cycle, and what each answer makes of them.
use torrent_tv.Prelude.{
  ℕ, ◌≡◌, refl, Bool, true, false, List, subst, ◌⊎◌, Option, none, some, arith, null, All,
}
use torrent_tv.Portal.Types.{Time, Link, Promotion, AccountStatus, PublicSettings}
use torrent_tv.Portal.Hub.{Error, Reply, ok, fail, HubState, Hub}
use torrent_tv.Portal.Hub.Cycle.{
  Wait, Draft, call, take_links, take_account, take_delivery, take_recovery, hide_promotions,
  check_context,
}
use torrent_tv.Portal.Hub.Cycle.Flows.{Holds, call-Holds}
use torrent_tv.Portal.Hub.Cycle.Invariant.{IsCoherent, IsSafe, acts-IsCoherent}

-- A draft before the promotion slot is settled: the slot is that of the cycle's start.
pub record IsDraft (ads : Bool) (s : HubState) : Type 0 where
  pub asked : s.ads_enabled ≡ ads
  pub shown : (null s.promotions ≡ true) ⊎ (s.promotion_live ≡ true)
  pub member : (s.donor ≡ false) ⊎ (s.accounts_enabled ≡ true)
  pub dated : (s.donor ≡ true) ⊎ (s.donor_until ≡ 0)

-- A draft before the account phase, which settles the donor.
pub record IsOpening (ads : Bool) (s : HubState) : Type 0 where
  pub asked : s.ads_enabled ≡ ads
  pub shown : (null s.promotions ≡ true) ⊎ (s.promotion_live ≡ true)

abbrev pub Coherent : Hub → Type 0
Coherent h = IsCoherent h.state

abbrev pub Drafted : Hub → Draft → Type 0
Drafted h d = IsCoherent h.state × IsCoherent d.0

abbrev pub Asked : Bool → Hub → Draft → Type 0
Asked ads h d = IsCoherent h.state × IsDraft ads d.0

abbrev pub Waited : {A : Type 0} → Hub → A → Type 0
Waited h a = IsCoherent h.state

pub call-Coherent :
    {A : Type 0} (w : Wait A) (g : ℕ) (h : Hub)
    → All IsSafe w.meanwhile
    → Coherent h
    → Holds Coherent Waited (call w g h)
call-Coherent w g h safe v =
    let v' = acts-IsCoherent w.meanwhile h safe v in call-Holds Coherent Waited w g h v' (λ _. v')

pub take_links-IsOpening :
    (ads : Bool) (answer : Reply (List Link)) (s : HubState)
    → IsOpening ads s
    → IsOpening ads (take_links answer s).0
unfolding take_links
take_links-IsOpening ads (ok ls) s v = ground arith
take_links-IsOpening ads (fail e) s v = ground arith

pub take_links-accounts :
    (answer : Reply (List Link)) (s : HubState)
    → (take_links answer s).0.accounts_enabled ≡ s.accounts_enabled
unfolding take_links
take_links-accounts (ok ls) s = refl
take_links-accounts (fail e) s = refl

pub check_context-Holds :
    (c : Option Error) (h : Hub) → Coherent h → Holds Coherent Waited (check_context c h)
unfolding check_context
check_context-Holds none h v = v
check_context-Holds (some e) h v = v

pub take_account-IsDraft :
    (ads : Bool) (now : Time) (answer : Reply AccountStatus) (s : HubState)
    → IsOpening ads s
    → s.accounts_enabled ≡ true
    → IsDraft ads (take_account now answer s).0
unfolding take_account
take_account-IsDraft ads now (ok status) s v e = ground arith
take_account-IsDraft ads now (fail e') s v e = ground arith

pub take_delivery-IsCoherent :
    (answer : Reply (List Promotion)) (d : Draft)
    → IsDraft true d.0
    → d.0.promotion_live ≡ true
    → d.0.donor ≡ false
    → IsCoherent (take_delivery answer d).0
unfolding take_delivery
take_delivery-IsCoherent (ok ps) d v live poor = ground arith
take_delivery-IsCoherent (fail e) d v live poor = ground arith

pub take_recovery-IsCoherent :
    (answer : Reply (List Promotion)) (d : Draft)
    → IsDraft true d.0
    → d.0.donor ≡ false
    → IsCoherent (take_recovery answer d).0
unfolding take_recovery
take_recovery-IsCoherent (ok ps) d v poor = ground arith
take_recovery-IsCoherent (fail e) d v poor = ground arith

pub open_draft :
    (settings : PublicSettings) (d : Draft)
    → IsDraft settings.ads_enabled d.0
    → settings.ads_enabled ≡ true
    → IsDraft true d.0
open_draft settings d c on = subst (λ b. IsDraft b d.0) on c

pub hide-IsCoherent : (ads : Bool) (s : HubState) → IsDraft ads s → IsCoherent (hide_promotions s)
hide-IsCoherent ads s c = ground arith
