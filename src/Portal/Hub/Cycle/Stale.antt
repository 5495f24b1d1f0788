-- ===== src/Portal/Hub/Cycle/Stale.antt =====
-- What a refresh cycle leaves behind where the settings move underneath it.
use torrent_tv.Prelude.{ℕ, ◌<◌, ◌≡◌, List, ◌⊎◌}
use torrent_tv.Portal.Hub.{Error, Hub, HubState, commit}
use torrent_tv.Portal.Hub.Cycle.{Action, acts, Script, Ending, discarded, committed}

-- The hub as the other goroutines made it, from `start` on.
abbrev Trace : Hub → Hub → Type 0
Trace start h = (as' : List Action) × (h ≡ acts as' start)

-- The same, with the settings as they were in generation `g`.
abbrev Fresh : Hub → ℕ → {A : Type 0} → Hub → A → Type 0
Fresh start g h a = Trace start h × (h.generation ≡ g)

-- An action that leaves the generation leaves the key, and none takes the generation back.
SameKey : Hub → Hub → Type 0
SameKey h k =
    (h.generation < k.generation) ⊎ ((k.generation ≡ h.generation) × (k.last_key ≡ h.last_key))

-- How a cycle may end, from the hub in which it has read its generation.
abbrev pub Ends : Script → Hub → Hub × Ending → Type 0
Ends script noted r =
    ((as' : List Action) × (e : Error) × (r ≡ (acts as' noted, discarded e)))
    ⊎ ((as' : List Action) × (next : HubState) × (errs : List Error) × (r
          ≡ (commit next (acts script.before_commit (acts as' noted)), committed next errs))
        × ((acts as' noted).last_key ≡ noted.last_key))
