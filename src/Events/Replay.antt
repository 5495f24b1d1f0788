-- ===== src/Events/Replay.antt =====
-- What a client that reconnects is sent.
use torrent_tv.Prelude.{
  ℕ, zero, suc, ◌≤◌, ◌<◌, ◌≡◌, refl, sym, ap, subst, ◌∙◌, Bool, true, false, some, List, [], ◌∷◌,
  ◌++◌, All, inl, inr, length, take, keep, max, ltb, leb, arith, Bool-cases,
}
use torrent_tv.Events.{Event, Journal, newer, list_events, last_delivered, live, events}

abbrev After : List Event → Event → Type 0
After ys e = All (λ f. e.id < f.id) ys

-- Journal ids ascend.
abbrev pub Ascends : List Event → Type 0
Ascends [] = Unit
Ascends (e ∷ es) = After es e × Ascends es

abbrev UpTo : ℕ → Event → Type 0
UpTo d e = e.id ≤ d

module _ {A : Type 0} where
  All-append_left : (P : A → Type 0) (xs ys : List A) → All P (xs ++ ys) → All P xs
  All-append_left P [] ys v = tt
  All-append_left P (x ∷ xs) ys (p, v) = (p, All-append_left P xs ys v)

  All-append_right : (P : A → Type 0) (xs ys : List A) → All P (xs ++ ys) → All P ys
  All-append_right P [] ys v = v
  All-append_right P (x ∷ xs) ys (p, v) = All-append_right P xs ys v

  All-keep : (P : A → Type 0) (p : A → Bool) (xs : List A) → All P xs → All P (keep p xs)
  All-keep P p [] v = tt
  All-keep P p (x ∷ xs) (h, v) = elim (Bool-cases (p x)) [
    | inl e ↦ rw (e, All) (h, All-keep P p xs v)
    | inr e ↦ rw (e, All) (All-keep P p xs v)
  ]

  All-take : (P : A → Type 0) (n : ℕ) (xs : List A) → All P xs → All P (take n xs)
  All-take P zero xs v = tt
  All-take P (suc n) [] v = tt
  All-take P (suc n) (x ∷ xs) (h, v) = (h, All-take P n xs v)

  keep-append : (p : A → Bool) (xs ys : List A) → keep p (xs ++ ys) ≡ keep p xs ++ keep p ys
  keep-append p [] ys = refl
  keep-append p (x ∷ xs) ys = ground (arith, keep-append p xs ys)

  take_all : (n : ℕ) (xs : List A) → length xs ≤ n → take n xs ≡ xs
  take_all zero [] h = refl
  take_all zero (x ∷ xs) h = absurd (omega arith)
  take_all (suc n) [] h = refl
  take_all (suc n) (x ∷ xs) h = ap (λ t. x ∷ t) (take_all n xs (omega arith))

Ascends-append : (xs ys : List Event) → Ascends (xs ++ ys) → All (After ys) xs × Ascends ys
Ascends-append [] ys v = (tt, v)
Ascends-append (x ∷ xs) ys (h, v) =
    let (a, b) = Ascends-append xs ys v in ((All-append_right (λ f. x.id < f.id) xs ys h, a), b)

live-skip : (d : ℕ) (x y : List Event) → All (UpTo d) x → live true d (x ++ y) ≡ live true d y
live-skip d [] y v = refl
live-skip d (e ∷ x) y (h, v) = ground (arith, live-skip d x y v)

newer_whole : (d : ℕ) (ys : List Event) → All (λ f. d < f.id) ys → newer d ys ≡ ys
newer_whole d [] v = refl
newer_whole d (e ∷ es) (h, v) = ground (arith, newer_whole d es v)

above : (d n : ℕ) (ys : List Event) → d ≤ n → All (λ f. n < f.id) ys → All (λ f. d < f.id) ys
above d n [] h v = tt
above d n (e ∷ es) h (p, v) = (omega arith, above d n es h v)

live-newer : (d : ℕ) (ys : List Event) → Ascends ys → live true d ys ≡ newer d ys
live-newer d [] v = refl
live-newer d (e ∷ es) (h, v) = elim (Bool-cases (leb e.id d)) [
  | inl old ↦ ground (arith, live-newer d es v)
  | inr new ↦ ground (
    arith,
    live-newer (max d e.id) es v,
    newer_whole (max d e.id) es (above (max d e.id) e.id es (ground arith) h),
    newer_whole d es (above d e.id es (ground arith) h),
  )
]

last_delivered_le : (d : ℕ) (xs : List Event) → d ≤ last_delivered d xs
last_delivered_le d [] = omega arith
last_delivered_le d (e ∷ xs) = omega (arith, last_delivered_le (max d e.id) xs)

last_delivered_lt :
    (d b : ℕ) (xs : List Event) → d < b → All (λ e. e.id < b) xs → last_delivered d xs < b
last_delivered_lt d b [] h v = h
last_delivered_lt d b (e ∷ xs) h (p, v) = last_delivered_lt (max d e.id) b xs (omega arith) v

newer_take :
    (a : ℕ) (e : Event) (es : List Event) → ltb a e.id ≡ true → newer a (e ∷ es) ≡ e ∷ newer a es
newer_take a e es h = ground arith

newer_drop :
    (a : ℕ) (e : Event) (es : List Event) → ltb a e.id ≡ false → newer a (e ∷ es) ≡ newer a es
newer_drop a e es h = ground arith

covered :
    (a d : ℕ) (journal : Journal) → a ≤ d → All (UpTo (last_delivered d (newer a journal))) journal
covered a d [] h = tt
covered a d (e ∷ es) h = elim (Bool-cases (ltb a e.id)) [
  | inl new ↦
      subst (λ xs. All (UpTo (last_delivered d xs)) (e ∷ es)) (sym (newer_take a e es new))
        (
          omega (arith, last_delivered_le (max d e.id) (newer a es)),
          covered a (max d e.id) es (omega arith),
        )
  | inr old ↦
      subst (λ xs. All (UpTo (last_delivered d xs)) (e ∷ es)) (sym (newer_drop a e es old))
        (ground (arith, last_delivered_le d (newer a es)), covered a d es h)
]

below :
    (f : Event) (ys xs : List Event)
    → All (After (f ∷ ys)) xs
    → All (λ e. e.id < f.id) xs × All (After ys) xs
below f ys [] v = (tt, tt)
below f ys (x ∷ xs) ((p, q), v) = let (a, b) = below f ys xs v in ((p, a), (q, b))

newer-last_delivered :
    (after : ℕ) (xs ys : List Event)
    → All (After ys) xs
    → newer (last_delivered after xs) ys ≡ newer after ys
newer-last_delivered after xs [] v = refl
newer-last_delivered after xs (f ∷ ys) v =
    let (a, b) = below f ys xs v in
    elim (Bool-cases (ltb after f.id)) [
      | inl new ↦ ground (
        arith,
        newer-last_delivered after xs ys b,
        last_delivered_lt after f.id xs (ground arith) a,
      )
      | inr old ↦ ground (arith, newer-last_delivered after xs ys b, last_delivered_le after xs)
    ]

-- A client that comes back with the id of its last event, and has missed at most 200, is sent exactly
-- the newer events of the journal, each once and in order. `start` is the journal when the handler
-- subscribes, `x` what is published up to the replay, and `x ++ y` what the subscription brings.
pub events-newer :
    (after : ℕ) (start x y : List Event)
    → Ascends ((start ++ x) ++ y)
    → length (newer after (start ++ x)) ≤ 200
    → events true after (some (list_events after 200 (start ++ x))) (x ++ y)
      ≡ newer after ((start ++ x) ++ y)
unfolding events list_events
events-newer after start x y v few =
    let journal = start ++ x in
    let d = last_delivered after (newer after journal) in
    let (a, b) = Ascends-append journal y v in
    ap (λ t. t ++ live true (last_delivered after t) (x ++ y))
      (take_all 200 (newer after journal) few)
    ∙ ap (λ t. newer after journal ++ t)
        (live-skip d x y
            (All-append_right (UpTo d) start x (covered after after journal (omega arith)))
          ∙ live-newer d y b
          ∙ newer-last_delivered after (newer after journal) y
              (All-keep (After y) (λ e. ltb after e.id) journal a))
    ∙ sym (keep-append (λ e. ltb after e.id) journal y)

take-append : {A : Type 0} (n : ℕ) (xs ys : List A) → n ≤ length xs → take n (xs ++ ys) ≡ take n xs
take-append zero xs ys h = refl
take-append (suc n) [] ys h = absurd (omega arith)
take-append (suc n) (x ∷ xs) ys h = ap (λ t. x ∷ t) (take-append n xs ys (omega arith))

-- A client that had missed more than 200 events when it subscribed (`start`), with any events `x`
-- published between its subscription and the replay and `y` behind that, is sent the first 200 of the
-- missed ones, and then the events published after its subscription, and nothing else.
pub events_gap :
    (after : ℕ) (start x y : List Event)
    → Ascends (start ++ (x ++ y))
    → All (λ f. after < f.id) (x ++ y)
    → 200 < length (newer after start)
    → events true after (some (list_events after 200 (start ++ x))) (x ++ y)
      ≡ take 200 (newer after start) ++ (x ++ y)
unfolding events list_events
events_gap after start x y v h missed =
    let (a, b) = Ascends-append start (x ++ y) v in
    let first = take 200 (newer after start) in
    let cut : take 200 (newer after (start ++ x)) ≡ first =
      ap (take 200) (keep-append (λ e. ltb after e.id) start x)
      ∙ take-append 200 (newer after start) (newer after x) (omega arith) in
    ap (λ t. t ++ live true (last_delivered after t) (x ++ y)) cut
    ∙ ap (λ t. first ++ t)
        (live-newer (last_delivered after first) (x ++ y) b
          ∙ newer-last_delivered after first (x ++ y) (
              All-take (After (x ++ y)) 200 (newer after start)
                (All-keep (After (x ++ y)) (λ e. ltb after e.id) start a))
          ∙ newer_whole after (x ++ y) h)
