-- ===== src/Updates/Guarded.antt =====
-- What guards an update between its activation and its end, and what each change of a file does to it.
use torrent_tv.Prelude.{
  ◌≡◌, ◌⊎◌, refl, sym, ap, ◌∙◌, inl, inr, Bool, true, false, not, ◌||◌, Option, none, some,
  if◌then◌else◌,
}
use torrent_tv.Prelude.Bytes.{Bytes, eqb, eqb_refl}
use torrent_tv.Updates.{confirmed, rolled_back, Operation, awaits, acknowledge}
use torrent_tv.Updates.Transaction.{
  Site, Change, done, unflushed, not_done, restore_from, rolled, save, rollback, clear, cleanup,
  save_acknowledgement, acknowledge_site,
}

abbrev pub Held : Option Bytes → Option Operation → Bool → Type 0
Held old none acked = Unit
Held old (some op) acked = (op.prior_state ≡ old) × (op.phase ≡ confirmed → acked ≡ true)

module _ (old new : Bytes) where
  -- The live executable is the old or the new one. While it is the new one, the backup is the old one
  -- until the new one has been acknowledged.
  pub record IsGuarded (s : Site) : Type 0 where
    pub live : (s.live ≡ some old) ⊎ (s.live ≡ some new)
    pub backup : (s.backup ≡ none) ⊎ (s.backup ≡ some old)
    pub held : Held (some old) s.journal s.acknowledged
    pub guard : s.live ≡ some new → (s.backup ≡ some old) ⊎ (s.acknowledged ≡ true)

  pub cleanup-IsGuarded :
      (removes flushes : Bool) (c : Change) (s : Site)
      → (s.live ≡ some new → s.acknowledged ≡ true)
      → IsGuarded s
      → IsGuarded (cleanup removes flushes c s).1
  unfolding cleanup
  cleanup-IsGuarded removes flushes c s h v = by_flush flushes c (without removes)
    where
      without : (b : Bool) → IsGuarded (if b then record s { backup = none } else s)
      without true = record {
        live = v.live;
        backup = inl refl;
        held = v.held;
        guard = λ e. inr (h e);
      }
      without false = v

      cleared : (c : Change) (t : Site) → IsGuarded t → IsGuarded (clear c t).1
      cleared done t w = record { live = w.live; backup = w.backup; held = tt; guard = w.guard }
      cleared unflushed t w = record {
        live = w.live;
        backup = w.backup;
        held = tt;
        guard = w.guard;
      }
      cleared not_done t w = w

      by_flush :
          (b : Bool) (c : Change) {t : Site}
          → IsGuarded t
          → IsGuarded (if b then clear c t else (false, t)).1
      by_flush true c {t} w = cleared c t w
      by_flush false c w = w

  pub clear-IsGuarded : (c : Change) (s : Site) → IsGuarded s → IsGuarded (clear c s).1
  clear-IsGuarded done s v = record { live = v.live; backup = v.backup; held = tt; guard = v.guard }
  clear-IsGuarded unflushed s v = record {
    live = v.live;
    backup = v.backup;
    held = tt;
    guard = v.guard;
  }
  clear-IsGuarded not_done s v = v

  save-IsGuarded :
      (c : Change) (op : Operation) (s : Site)
      → op.prior_state ≡ some old
      → (op.phase ≡ confirmed → s.acknowledged ≡ true)
      → IsGuarded s
      → IsGuarded (save c op s)
  save-IsGuarded done op s p q v = record {
    live = v.live;
    backup = v.backup;
    held = (p, q);
    guard = v.guard;
  }
  save-IsGuarded unflushed op s p q v = record {
    live = v.live;
    backup = v.backup;
    held = (p, q);
    guard = v.guard;
  }
  save-IsGuarded not_done op s p q v = v

  module _ (eqb_differs : eqb new old ≡ false) where
    differ : ¬ (some old ≡ some new)
    differ e = clash (sym eqb_differs ∙ (ap (λ o. eqb new (content o)) e ∙ eqb_refl new))
      where
        content : Option Bytes → Bytes
        content none = old
        content (some x) = x

        clash : ¬ (false ≡ true)
        clash k = cc

    same_backup : (b : Bytes) (s : Site) → s.backup ≡ some b → IsGuarded s → some b ≡ some old
    same_backup b s e v = elim v.backup [
      | inl gone ↦ absurd (lost (sym gone ∙ e))
      | inr kept ↦ sym e ∙ kept
    ]
      where
        lost : ¬ (none ≡ some b)
        lost k = cc

    restored :
        (b : Bytes) (s : Site)
        → some b ≡ some old
        → IsGuarded s
        → IsGuarded (record s { live = some b; backup = none })
    restored b s e v = record {
      live = inl e;
      backup = inl refl;
      held = v.held;
      guard = λ k. absurd (differ (sym e ∙ k));
    }

    restore_from-IsGuarded :
        (b : Option Bytes) (c : Change) (s : Site)
        → s.backup ≡ b
        → IsGuarded s
        → IsGuarded (restore_from b c s).1 × ((restore_from b c s).1.acknowledged ≡ s.acknowledged)
    restore_from-IsGuarded none c s e v = (v, refl)
    restore_from-IsGuarded (some b) done s e v = (restored b s (same_backup b s e v) v, refl)
    restore_from-IsGuarded (some b) unflushed s e v = (restored b s (same_backup b s e v) v, refl)
    restore_from-IsGuarded (some b) not_done s e v = (v, refl)

    pub rollback-IsGuarded :
        (change saves : Change) (reason : Bytes) (op : Operation) (s : Site)
        → op.prior_state ≡ some old
        → IsGuarded s
        → IsGuarded (rollback change saves reason op s).1
    unfolding rollback
    rollback-IsGuarded change saves reason op s p v =
        let (w, e) = restore_from-IsGuarded s.backup change s refl v in
        save-IsGuarded saves (rolled (restore_from s.backup change s).0 reason op)
          (restore_from s.backup change s).1 p (λ k. absurd (other_phase k)) w
      where
        other_phase : ¬ (rolled_back ≡ confirmed)
        other_phase k = cc

    abbrev HeldOp : Option Operation → Type 0
    HeldOp none = Unit
    HeldOp (some op) = op.prior_state ≡ some old

    acknowledge-HeldOp :
        (j : Option Operation) (id version : Bytes) (acked : Bool)
        → Held (some old) j acked
        → HeldOp (acknowledge j id version)
    unfolding acknowledge
    acknowledge-HeldOp none id version acked h = tt
    acknowledge-HeldOp (some op) id version acked (p, q) =
        by_tests (not (awaits op.phase)) (not (eqb op.id id) || not (eqb op.version version))
      where
        by_tests :
            (a b : Bool)
            → HeldOp
                (if a then none else if b then none else some (record op { phase = confirmed }))
        by_tests true b = tt
        by_tests false true = tt
        by_tests false false = p

    -- A saved acknowledgement, too, is noted.
    abbrev pub Noted : Bool × Site → Type 0
    Noted (ok, t) = IsGuarded t × (ok ≡ true → t.acknowledged ≡ true)

    acknowledged_site :
        (op : Operation) (s : Site)
        → op.prior_state ≡ some old
        → IsGuarded s
        → IsGuarded (record s { journal = some op; acknowledged = true })
    acknowledged_site op s h v = record {
      live = v.live;
      backup = v.backup;
      held = (h, λ e. refl);
      guard = λ e. inr refl;
    }

    save_acknowledgement-Noted :
        (saves : Change) (o : Option Operation) (s : Site)
        → HeldOp o
        → IsGuarded s
        → Noted (save_acknowledgement saves o s)
    save_acknowledgement-Noted saves none s h v = (v, λ e. cc)
    save_acknowledgement-Noted not_done (some op) s h v = (v, λ e. cc)
    save_acknowledgement-Noted done (some op) s h v = (acknowledged_site op s h v, λ e. refl)
    save_acknowledgement-Noted unflushed (some op) s h v = (acknowledged_site op s h v, λ e. refl)

    pub acknowledge_site-Noted :
        (saves : Change) (id version : Bytes) (s : Site)
        → IsGuarded s
        → Noted (acknowledge_site saves id version s)
    unfolding acknowledge_site
    acknowledge_site-Noted saves id version s v =
        save_acknowledgement-Noted saves (acknowledge s.journal id version) s
          (acknowledge-HeldOp s.journal id version s.acknowledged v.held) v
