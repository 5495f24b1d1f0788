-- ===== src/Portal/Hub/Cycle/Quiet.antt =====
-- A refresh cycle that nothing disturbs.
use torrent_tv.Prelude.{◌≡◌, refl, sym, subst, List, [], Option, none, some, arith}
use torrent_tv.Portal.Hub.{Error, Reply, Hub, HubState, note_settings, commit, gate}
use torrent_tv.Portal.Hub.Cycle.{
  acts, Wait, Script, Flow, leave, keeps, Draft, call, check_context, draft_of, close, committed,
  refresh, account_wait, read_state, begun,
}
use torrent_tv.Portal.Hub.Cycle.Flows.{Holds}
use torrent_tv.Portal.Hub.Cycle.Walk.{Always, Passes, draft_of-Holds}

-- The context lives on, and no other goroutine does anything.
abbrev pub IsQuiet : {A : Type 0} → Wait A → Type 0
IsQuiet w = (w.context ≡ none) × (w.meanwhile ≡ [])

pub record IsQuietScript (script : Script) : Type 0 where
  pub context : script.context ≡ none
  pub before_generation : script.before_generation ≡ []
  pub before_state : script.before_state ≡ []
  pub settings : IsQuiet script.settings
  pub links : IsQuiet script.links
  pub account : IsQuiet (account_wait script)
  pub delivery : IsQuiet script.delivery
  pub availability : IsQuiet script.availability
  pub recovery : IsQuiet script.recovery
  pub before_commit : script.before_commit ≡ []

abbrev Never : Hub → Type 0
Never h = ⊥

gate_open : (h : Hub) → gate none h.generation h ≡ none
unfolding gate
gate_open h = ground arith

quiet_call :
    {A : Type 0} (w : Wait A) (start : Hub)
    → IsQuiet w
    → call w start.generation start ≡ (start, keeps w.answer)
unfolding call acts
quiet_call w start (alive, alone) = rw (alone, alive, acts, gate_open start)

call-quiet :
    {A : Type 0} (w : Wait A) (start : Hub)
    → IsQuiet w
    → Passes Never (λ h. h ≡ start) start.generation w
call-quiet {A} w start q h e =
    subst (λ x. Holds {A = Reply A} Never (Always (λ h'. h' ≡ start)) (call w start.generation x))
      (sym e) (subst (Holds Never (Always (λ h'. h' ≡ start))) (sym (quiet_call w start q)) refl)

check-quiet :
    (c : Option Error) (start h : Hub)
    → c ≡ none
    → h ≡ start
    → Holds Never (Always (λ h'. h' ≡ start)) (check_context c h)
unfolding check_context
check-quiet none start h q e = e
check-quiet (some x) start h q e = cc

close-quiet :
    (script : Script) (start : Hub) (r : Hub × Flow Draft)
    → script.before_commit ≡ []
    → Holds Never (Always (λ h. h ≡ start)) r
    → (next : HubState) × (errs : List Error) × (close script r
        ≡ (commit next start, committed next errs))
unfolding close acts
close-quiet script start (h, leave e) q f = absurd f
close-quiet script start (h, keeps (next, errs)) q f = (next, errs, rw (q, f, acts, close))

quiet_begun :
    (script : Script) (h : Hub)
    → script.before_generation ≡ []
    → begun script h ≡ (note_settings script.key h).0
unfolding begun acts
quiet_begun script h q = rw (q, acts) refl

read-quiet :
    (script : Script) (start h : Hub)
    → script.before_state ≡ []
    → h ≡ start
    → Holds Never (Always (λ h'. h' ≡ start)) (read_state script h)
unfolding read_state acts
read-quiet script start h q e = rw (q, acts) e

-- A cycle that nothing disturbs (the context lives on, and no other goroutine touches the hub)
-- commits a state, whatever the client answers.
pub refresh_commits :
    (script : Script) (h : Hub)
    → IsQuietScript script
    → (next : HubState) × (errs : List Error) × (refresh script h
        ≡ (commit next (note_settings script.key h).0, committed next errs))
unfolding refresh
refresh_commits script h q =
    subst
      (λ b.
        (next : HubState) × (errs : List Error) × (close script (draft_of script b.generation b)
          ≡ (commit next (note_settings script.key h).0, committed next errs)))
      (sym (quiet_begun script h q.before_generation)) (from_noted (note_settings script.key h).0)
  where
    from_noted :
        (noted : Hub)
        → (next : HubState) × (errs : List Error) × (close script
              (draft_of script noted.generation noted)
            ≡ (commit next noted, committed next errs))
    from_noted noted =
        close-quiet script noted (draft_of script noted.generation noted) q.before_commit (
          draft_of-Holds script noted.generation Never (λ h'. h' ≡ noted) (λ h'. h' ≡ noted)
            (record {
              check = λ h' e. check-quiet script.context noted h' q.context e;
              state = λ h' e. read-quiet script noted h' q.before_state e;
              settings = call-quiet script.settings noted q.settings;
              links = call-quiet script.links noted q.links;
              account = call-quiet (account_wait script) noted q.account;
              delivery = call-quiet script.delivery noted q.delivery;
              availability = call-quiet script.availability noted q.availability;
              recovery = call-quiet script.recovery noted q.recovery;
            })
            noted refl)
