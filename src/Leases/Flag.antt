-- ===== src/Leases/Flag.antt =====
-- The stored flag of a download follows its count.
use torrent_tv.Prelude.{
  ℕ, ◌+◌, ◌<◌, ◌≡◌, refl, ap, subst, ◌∙◌, Bool, true, false, Option, none, some, ltb, arith,
  Bool-cases, inl, inr, if◌then◌else◌,
}
use torrent_tv.Prelude.Bytes.{Bytes, eqb, eqb_iff}
use torrent_tv.Leases.{
  set, lease_held, drop_lease, Call, acquires, reconciles, releases, retries, Waiting, calling,
  Write, System, count_up, count_down, undo, enter, written, after_failure, refused, Step, acquire,
  release, give_back, lock, write, fail, Reach, here, next,
}

-- Goroutines that have yet to write the flag.
abbrev pub due : Waiting → ℕ
due w = w.acquiring + w.reconciling + w.releasing + w.retrying + w.dropping

-- The flag, or what the writer is about to make of it.
abbrev pub coming : Option Write → (Bytes → Bool) → Bytes → Bool
coming none flags id = flags id
coming (some w) flags id = set w.id w.held flags id

abbrev Tracks : System → Bytes → Type 0
Tracks s id =
    due (s.waiting id) ≡ 0
    → s.given_up id ≡ false
    → coming s.writer s.flags id ≡ lease_held s.counts id

count_up-Tracks : (id x : Bytes) (s : System) → Tracks s x → Tracks (count_up id s) x
unfolding count_up
count_up-Tracks id x s v = elim (Bool-cases (eqb id x)) [
  | inl same ↦ rw same (λ d. absurd (omega arith))
  | inr other ↦ rw other v
]

count_down-Tracks : (id x : Bytes) (s : System) → Tracks s x → Tracks (count_down id s) x
unfolding count_down drop_lease
count_down-Tracks id x s v = elim (Bool-cases (ltb 1 (s.counts id))) [
  | inl more ↦
      rw (more, count_down)
        (elim (Bool-cases (eqb id x)) [
          | inl same ↦
              let e = (eqb_iff id x).0 same in
              rw same (λ d g. v d g ∙ ground (arith, ap s.counts e))
          | inr other ↦ rw other v
        ])
  | inr last ↦
      rw (last, count_down)
        (elim (Bool-cases (eqb id x)) [
          | inl same ↦ rw same (λ d. absurd (omega arith))
          | inr other ↦ rw other v
        ])
]

undo-Tracks : (id x : Bytes) (s : System) → Tracks s x → Tracks (undo id s) x
unfolding undo drop_lease
undo-Tracks id x s v = elim (Bool-cases (eqb id x)) [
  | inl same ↦ rw same (λ d. absurd (omega arith))
  | inr other ↦ elim (Bool-cases (ltb 1 (s.counts id))) [
    | inl more ↦ rw (more, other, drop_lease) v
    | inr last ↦ rw (last, other, drop_lease) v
  ]
]

-- What is tracked, with the writer known.
abbrev TracksWith : Option Write → System → Bytes → Type 0
TracksWith o s id =
    due (s.waiting id) ≡ 0 → s.given_up id ≡ false → coming o s.flags id ≡ lease_held s.counts id

known : (x : Bytes) (s : System) (o : Option Write) → s.writer ≡ o → Tracks s x → TracksWith o s x
known x s o e v = subst (λ o. TracksWith o s x) e v

elsewhere :
    (id x : Bytes) (held : Bool) (s : System) (call : Call)
    → s.writer ≡ some (record { call = call; id = id; held = held })
    → eqb id x ≡ false
    → Tracks s x
    → TracksWith none s x
elsewhere id x held s call e other v d g =
    subst (λ b. (if b then held else s.flags x) ≡ lease_held s.counts x) other (known x s _ e v d g)

given_up_lem :
    (call : Call) (id x : Bytes) (held : Bool) (s : System)
    → s.writer ≡ some (record { call = call; id = id; held = held })
    → Tracks s x
    → Tracks (record s { writer = none; given_up = set id true s.given_up }) x
given_up_lem call id x held s e v = elim (Bool-cases (eqb id x)) [
  | inl same ↦ rw same (λ d g. cc)
  | inr other ↦ rw other (elsewhere id x held s call e other v)
]

enter-Tracks :
    (call : Call) (id x : Bytes) (s : System)
    → 0 < calling call (s.waiting id)
    → s.writer ≡ none
    → Tracks s x
    → Tracks (enter call id s) x
unfolding enter
enter-Tracks call id x s h e v = elim (Bool-cases (eqb id x)) [
  | inl same ↦ rw same (λ d g. ap (lease_held s.counts) ((eqb_iff id x).0 same))
  | inr other ↦ rw other (known x s none e v)
]

written-Tracks :
    (w : Write) (x : Bytes) (s : System) → s.writer ≡ some w → Tracks s x → Tracks (written w s) x
unfolding written
written-Tracks w x s e v = known x s (some w) e v

refused_lem :
    (call : Call) (id x : Bytes) (held : Bool) (s : System)
    → s.writer ≡ some (record { call = call; id = id; held = held })
    → Tracks s x
    → Tracks (after_failure call id (record s { writer = none })) x
refused_lem acquires id x held s e v = elim (Bool-cases (eqb id x)) [
  | inl same ↦ rw same (λ d. absurd (omega arith))
  | inr other ↦ rw other (elsewhere id x held s acquires e other v)
]
refused_lem reconciles id x held s e v = given_up_lem reconciles id x held s e v
refused_lem releases id x held s e v = elim (Bool-cases (eqb id x)) [
  | inl same ↦ rw same (λ d. absurd (omega arith))
  | inr other ↦ rw other (elsewhere id x held s releases e other v)
]
refused_lem retries id x held s e v = given_up_lem retries id x held s e v

refused-Tracks :
    (w : Write) (x : Bytes) (s : System) → s.writer ≡ some w → Tracks s x → Tracks (refused w s) x
unfolding refused
refused-Tracks w x s e v = refused_lem w.call w.id x w.held s e v

Step-Tracks : {s t : System} (x : Bytes) → Step s t → Tracks s x → Tracks t x
Step-Tracks {s} x (acquire id) v = count_up-Tracks id x s v
Step-Tracks {s} x (release id) v = count_down-Tracks id x s v
Step-Tracks {s} x (give_back id h) v = undo-Tracks id x s v
Step-Tracks {s} x (lock call id h e) v = enter-Tracks call id x s h e v
Step-Tracks {s} x (write w e) v = written-Tracks w x s e v
Step-Tracks {s} x (fail w e) v = refused-Tracks w x s e v

Reach-Tracks : {s : System} (x : Bytes) → Reach s → Tracks s x
Reach-Tracks x here = λ d g. refl
Reach-Tracks x (next r st) = Step-Tracks x st (Reach-Tracks x r)

-- In every interleaving of streams that start and end: once no write of a download's flag is due or
-- under way, and the last one did not fail for good, the stored flag says whether a stream holds the
-- download.
pub flag_settles :
    {s : System} (id : Bytes)
    → Reach s
    → due (s.waiting id) ≡ 0
    → s.writer ≡ none
    → s.given_up id ≡ false
    → s.flags id ≡ lease_held s.counts id
flag_settles {s} id r d e g = known id s none e (Reach-Tracks id r) d g
