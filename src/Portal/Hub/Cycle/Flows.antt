-- ===== src/Portal/Hub/Cycle/Flows.antt =====
-- Reasoning about the refresh cycle: a rule for `>>=`, and what a client call does to the hub.
use torrent_tv.Prelude.{ℕ, ◌≡◌, refl, List, [], ◌∷◌, ◌++◌, Option, none, some, arith}
use torrent_tv.Portal.Hub.{Error, Reply, Hub, gate}
use torrent_tv.Portal.Hub.Cycle.{Action, act, acts, Wait, Flow, leave, keeps, after, flow_of, call}

-- What holds of the hub if the cycle leaves, and of the hub and the value if it goes on.
abbrev pub Holds : {A : Type 0} → (Hub → Type 0) → (Hub → A → Type 0) → Hub × Flow A → Type 0
Holds L K (h, leave e) = L h
Holds L K (h, keeps a) = K h a

pub after-Holds :
    {A B : Type 0} (L : Hub → Type 0) (K : Hub → A → Type 0) (K' : Hub → B → Type 0)
    (r : Hub × Flow A) (f : A → Hub → Hub × Flow B)
    → Holds L K r
    → ((h : Hub) (a : A) → K h a → Holds L K' (f a h))
    → Holds L K' (after r f)
after-Holds L K K' (h, leave e) f p step = p
after-Holds L K K' (h, keeps a) f p step = step h a p

pub acts-append : (xs ys : List Action) (h : Hub) → acts (xs ++ ys) h ≡ acts ys (acts xs h)
unfolding acts
acts-append [] ys h = refl
acts-append (x ∷ xs) ys h = acts-append xs ys (act x h)

gate-none : (c : Option Error) (g : ℕ) (h : Hub) → gate c g h ≡ none → h.generation ≡ g
unfolding gate
gate-none none g h e = ground arith
gate-none (some x) g h e = ground arith

flow-Holds :
    {A : Type 0} (L : Hub → Type 0) (K : Hub → A → Type 0) (o : Option Error) (a : A) (h : Hub)
    → L h
    → (o ≡ none → K h a)
    → Holds L K (h, flow_of o a)
flow-Holds L K none a h l k = k refl
flow-Holds L K (some e) a h l k = l

-- A call leaves the hub to the other goroutines, and passes its gate only in its own generation.
pub call-Holds :
    {A : Type 0} (L : Hub → Type 0) (K : Hub → Reply A → Type 0) (w : Wait A) (g : ℕ) (h : Hub)
    → L (acts w.meanwhile h)
    → ((acts w.meanwhile h).generation ≡ g → K (acts w.meanwhile h) w.answer)
    → Holds L K (call w g h)
unfolding call
call-Holds L K w g h l k =
    flow-Holds L K (gate w.context g (acts w.meanwhile h)) w.answer (acts w.meanwhile h) l
      (λ e. k (gate-none w.context g (acts w.meanwhile h) e))
