-- ===== src/Manager/Token.antt =====
-- The token of the coordinator: one operation at a time.
use torrent_tv.Prelude.{
  ℕ, ◌+◌, ◌-◌, ◌≡◌, refl, sym, ap, ◌∙◌, Bool, true, false, not, ◌&&◌, Option, none, is_some, List,
  ◌∷◌, ◌++◌, length, length-append, inl, inr, Bool-cases, arith, if◌then◌else◌,
}
use torrent_tv.Prelude.Bytes.{Bytes}
use torrent_tv.Manager.{
  Status, Manager, new_manager, commit, may_begin, same_status, begin_operation, accept,
  finish_operation, Step, begins, gives_up, drafts_offer, commits_offer, declines, accepts, ends,
  drafts_check, commits_check, Reach, here, next,
}

-- The applies in flight, from the token on.
abbrev pub in_flight : Manager → ℕ
in_flight m = m.fetching + length m.drafts + length m.offers + m.installing

abbrev pub count : Bool → ℕ
count b = if b then 1 else 0

pub record IsSingle (m : Manager) : Type 0 where
  pub single : in_flight m ≡ count m.applying
  pub waits : is_some m.idle ≡ m.applying
  pub intact : m.panicked ≡ false

-- `commit` changes nothing but the status and the events.
commit-IsSingle : (st : Status) (m : Manager) → IsSingle m → IsSingle (commit st m)
unfolding commit
commit-IsSingle st m v = elim (Bool-cases (same_status st m.status)) [
  | inl e ↦ rw (e, commit) v
  | inr e ↦ rw (e, commit) (record { single = v.single; waits = v.waits; intact = v.intact })
]

-- Whoever holds the token gives it back.
finish_operation-IsSingle :
    (failure : Option Bytes) (m : Manager)
    → in_flight m + 1 ≡ count m.applying
    → is_some m.idle ≡ m.applying
    → m.panicked ≡ false
    → IsSingle (finish_operation failure m)
unfolding finish_operation
finish_operation-IsSingle failure m e w p = elim (Bool-cases m.applying) [
  | inl held ↦ record {
    single = omega (arith, e ∙ ap count held);
    waits = refl;
    intact = rw (w, held) p;
  }
  | inr free ↦ absurd (omega (arith, e ∙ ap count free))
]

length_split :
    (xs before after : List Status) (st : Status)
    → xs ≡ before ++ st ∷ after
    → length xs ≡ length (before ++ after) + 1
length_split xs before after st e =
    omega
      (arith, ap (λ ys. length ys) e, length-append before (st ∷ after), length-append before after)

begin_operation-IsSingle :
    (m : Manager) → may_begin m ≡ true → IsSingle m → IsSingle (begin_operation m)
unfolding begin_operation
begin_operation-IsSingle m h v = elim (Bool-cases m.applying) [
  | inl held ↦ absurd (clash (sym (ap (λ b. not b && m.status.self_update) held) ∙ h))
  | inr free ↦ record {
    single = omega (arith, v.single ∙ ap count free);
    waits = refl;
    intact = v.intact;
  }
]
  where
    clash : ¬ (false ≡ true)
    clash e = cc

accept-IsSingle :
    (m : Manager)
    → in_flight m + 1 ≡ count m.applying
    → is_some m.idle ≡ m.applying
    → m.panicked ≡ false
    → IsSingle (accept m)
unfolding accept
accept-IsSingle m e w p = record { single = omega (arith, e); waits = w; intact = p }

Step-IsSingle : {m n : Manager} → Step m n → IsSingle m → IsSingle n
Step-IsSingle {m} (begins h) v = begin_operation-IsSingle m h v
Step-IsSingle {m} (gives_up failure h) v =
    finish_operation-IsSingle failure (record m { fetching = m.fetching - 1 })
      (omega (arith, v.single)) v.waits v.intact
Step-IsSingle {m} (drafts_offer found h) v = record {
  single = omega (arith, v.single);
  waits = v.waits;
  intact = v.intact;
}
Step-IsSingle {m} (commits_offer st before after e) v =
    commit-IsSingle st (record m { drafts = before ++ after; offers = st ∷ m.offers })
      (record {
        single = omega (arith, v.single, length_split m.drafts before after st e);
        waits = v.waits;
        intact = v.intact;
      })
Step-IsSingle {m} (declines st before after e a) v =
    finish_operation-IsSingle none (record m { offers = before ++ after })
      (omega (arith, v.single, length_split m.offers before after st e)) v.waits v.intact
Step-IsSingle {m} (accepts st before after e a) v =
    accept-IsSingle (record m { offers = before ++ after })
      (omega (arith, v.single, length_split m.offers before after st e)) v.waits v.intact
Step-IsSingle {m} (ends failure h) v =
    finish_operation-IsSingle failure (record m { installing = m.installing - 1 })
      (omega (arith, v.single)) v.waits v.intact
Step-IsSingle {m} (drafts_check found) v = record {
  single = v.single;
  waits = v.waits;
  intact = v.intact;
}
Step-IsSingle {m} (commits_check st before after e) v =
    commit-IsSingle st (record m { checks = before ++ after })
      (record { single = v.single; waits = v.waits; intact = v.intact })

-- In every interleaving of applies and checks that a new coordinator goes through: at most one apply
-- is in flight, and one is exactly if the token is taken; the channel that WaitIdle waits for is open
-- exactly then, and no closed channel is closed.
pub Reach-IsSingle :
    (version url : Bytes) (capable : Bool) {m : Manager}
    → Reach (new_manager version url capable) m
    → IsSingle m
Reach-IsSingle version url capable here = record { single = refl; waits = refl; intact = refl }
Reach-IsSingle version url capable (next r st) =
    Step-IsSingle st (Reach-IsSingle version url capable r)
