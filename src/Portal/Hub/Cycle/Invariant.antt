-- ===== src/Portal/Hub/Cycle/Invariant.antt =====
-- What the cached state promises at every moment, and that the other goroutines keep it.
use torrent_tv.Prelude.{◌≡◌, true, false, List, [], ◌∷◌, ◌⊎◌, none, some, arith, null, All}
use torrent_tv.Portal.Hub.{ok, fail, HubState, Hub, commit}
use torrent_tv.Portal.Hub.Cycle.{
  Action, notes, fetches, expires, observes, commits, act, acts, Script, account_wait,
}

-- A live slot means that ads are on and that the household is no donor; promotions are cached for a
-- live slot only; a donor has an open account surface; who is no donor has no expiry.
pub record IsCoherent (s : HubState) : Type 0 where
  pub live : (s.promotion_live ≡ false) ⊎ ((s.ads_enabled ≡ true) × (s.donor ≡ false))
  pub shown : (null s.promotions ≡ true) ⊎ (s.promotion_live ≡ true)
  pub member : (s.donor ≡ false) ⊎ (s.accounts_enabled ≡ true)
  pub dated : (s.donor ≡ true) ⊎ (s.donor_until ≡ 0)

-- Another cycle commits coherent states only.
abbrev pub IsSafe : Action → Type 0
IsSafe (commits next) = IsCoherent next
IsSafe (notes key) = Unit
IsSafe (fetches answer) = Unit
IsSafe (expires now) = Unit
IsSafe (observes outcome) = Unit

pub commit-state : (next : HubState) (h : Hub) → (commit next h).state ≡ next
unfolding commit
commit-state next h = ground arith

pub act-IsCoherent :
    (a : Action) (h : Hub) → IsSafe a → IsCoherent h.state → IsCoherent (act a h).state
unfolding act
act-IsCoherent (notes key) h safe v = ground arith
act-IsCoherent (fetches (ok n)) h safe v = v
act-IsCoherent (fetches (fail e)) h safe v = ground arith
act-IsCoherent (expires now) h safe v = ground arith
act-IsCoherent (observes none) h safe v = v
act-IsCoherent (observes (some e)) h safe v = ground arith
act-IsCoherent (commits next) h safe v = rw (commit-state next h) safe

pub acts-IsCoherent :
    (as' : List Action) (h : Hub)
    → All IsSafe as'
    → IsCoherent h.state
    → IsCoherent (acts as' h).state
unfolding acts
acts-IsCoherent [] h safe v = v
acts-IsCoherent (a ∷ as') h (p, safe) v =
    acts-IsCoherent as' (act a h) safe (act-IsCoherent a h p v)

pub record IsSafeScript (script : Script) : Type 0 where
  pub before_generation : All IsSafe script.before_generation
  pub before_state : All IsSafe script.before_state
  pub settings : All IsSafe script.settings.meanwhile
  pub links : All IsSafe script.links.meanwhile
  pub account : All IsSafe (account_wait script).meanwhile
  pub delivery : All IsSafe script.delivery.meanwhile
  pub availability : All IsSafe script.availability.meanwhile
  pub recovery : All IsSafe script.recovery.meanwhile
  pub before_commit : All IsSafe script.before_commit
