-- ===== src/Events/Fanout.antt =====
-- What a subscriber receives, whatever happens to the bus.
use torrent_tv.Prelude.{
  ℕ, zero, suc, ◌≡◌, refl, sym, ap, ◌∙◌, true, none, some, List, [], ◌∷◌, ◌++◌, map, append-nil,
  append_assoc, All, inl, inr, Bool-cases, length, ltb,
}
use torrent_tv.Events.{
  Event, Journal, Channel, Bus, capacity, offer, publish, subscribe_events, unsubscribed,
  close_event_streams, change, cancel, receive_from, receive, Action, publishes, subscribes, closes,
  cancels, receives, act, run, new_bus,
}

-- The events that were received or wait are those of the journal that came first after the
-- subscription; while it lasts, they are all of them.
pub record IsFed (journal : Journal) (c : Channel) : Type 0 where
  pub missed : List Event
  pub contiguous : journal ≡ (c.start ++ c.received) ++ (c.buffer ++ missed)
  pub complete : c.subscribed ≡ true → missed ≡ []

grown :
    (journal a b m : List Event) (event : Event)
    → journal ≡ a ++ (b ++ m)
    → journal ++ event ∷ [] ≡ a ++ (b ++ (m ++ event ∷ []))
grown journal a b m event h =
    ap (λ j. j ++ event ∷ []) h
    ∙ append_assoc a (b ++ m) (event ∷ [])
    ∙ ap (λ t. a ++ t) (append_assoc b m (event ∷ []))

buffered :
    (journal a b m : List Event) (event : Event)
    → journal ≡ a ++ (b ++ m)
    → m ≡ []
    → journal ++ event ∷ [] ≡ a ++ ((b ++ event ∷ []) ++ [])
buffered journal a b m event h none_left =
    grown journal a b m event h
    ∙ ap (λ t. a ++ (b ++ (t ++ event ∷ []))) none_left
    ∙ ap (λ t. a ++ t) (sym (append-nil (b ++ event ∷ [])))

offer-IsFed :
    (journal : Journal) (event : Event) (c : Channel)
    → IsFed journal c
    → IsFed (journal ++ event ∷ []) (offer event c)
offer-IsFed journal event c v = elim (Bool-cases c.subscribed) [
  | inr gone ↦
      rw (gone, offer)
        (record {
          missed = v.missed ++ event ∷ [];
          contiguous = grown journal (c.start ++ c.received) c.buffer v.missed event v.contiguous;
          complete = λ e. cc;
        })
  | inl there ↦ elim (Bool-cases (ltb (length c.buffer) capacity)) [
    | inl room ↦
        rw (there, room, offer)
          (record {
            missed = [];
            contiguous =
                buffered journal (c.start ++ c.received) c.buffer v.missed event v.contiguous
                  (v.complete there);
            complete = λ e. refl;
          })
    | inr full ↦
        rw (there, full, offer)
          (record {
            missed = v.missed ++ event ∷ [];
            contiguous = grown journal (c.start ++ c.received) c.buffer v.missed event v.contiguous;
            complete = λ e. cc;
          })
  ]
]

taken :
    (journal start received es m : List Event) (e : Event)
    → journal ≡ (start ++ received) ++ (e ∷ es ++ m)
    → journal ≡ (start ++ (received ++ e ∷ [])) ++ (es ++ m)
taken journal start received es m e h =
    h
    ∙ sym (append_assoc (start ++ received) (e ∷ []) (es ++ m))
    ∙ ap (λ t. t ++ (es ++ m)) (append_assoc start received (e ∷ []))

receive_from-IsFed :
    (journal : Journal) (c : Channel) → IsFed journal c → IsFed journal (receive_from c)
receive_from-IsFed journal c v = go c.buffer v.missed v.contiguous v.complete
  where
    go :
        (buffer missed : List Event)
        → journal ≡ (c.start ++ c.received) ++ (buffer ++ missed)
        → (c.subscribed ≡ true → missed ≡ [])
        → IsFed journal (receive_from (record c { buffer = buffer }))
    go [] missed h k = record { missed = missed; contiguous = h; complete = k }
    go (e ∷ es) missed h k = record {
      missed = missed;
      contiguous = taken journal c.start c.received es missed e h;
      complete = k;
    }

unsubscribed-IsFed :
    (journal : Journal) (c : Channel) → IsFed journal c → IsFed journal (unsubscribed c)
unsubscribed-IsFed journal c v = record {
  missed = v.missed;
  contiguous = v.contiguous;
  complete = λ e. cc;
}

module _ (journal : Journal) where
  map-All :
      (journal' : Journal) (f : Channel → Channel) (cs : List Channel)
      → ((c : Channel) → IsFed journal c → IsFed journal' (f c))
      → All (IsFed journal) cs
      → All (IsFed journal') (map f cs)
  map-All journal' f [] h v = tt
  map-All journal' f (c ∷ cs) h (p, v) = (h c p, map-All journal' f cs h v)

  change-All :
      (f : Channel → Channel) (n : ℕ) (cs : List Channel)
      → ((c : Channel) → IsFed journal c → IsFed journal (f c))
      → All (IsFed journal) cs
      → All (IsFed journal) (change f n cs)
  change-All f n [] h v = tt
  change-All f zero (c ∷ cs) h (p, v) = (h c p, v)
  change-All f (suc n) (c ∷ cs) h (p, v) = (p, change-All f n cs h v)

abbrev pub AllFed : Bus → Type 0
AllFed bus = All (IsFed bus.journal) bus.channels

act-AllFed : (a : Action) (bus : Bus) → AllFed bus → AllFed (act a bus)
unfolding act publish subscribe_events close_event_streams cancel receive
act-AllFed (publishes none) bus v = v
act-AllFed (publishes (some event)) bus v =
    map-All bus.journal (bus.journal ++ event ∷ []) (offer event) bus.channels
      (offer-IsFed bus.journal event) v
act-AllFed subscribes bus v = (
  record {
    missed = [];
    contiguous = sym (append-nil (bus.journal ++ []) ∙ append-nil bus.journal);
    complete = λ e. refl;
  },
  v,
)
act-AllFed closes bus v =
    map-All bus.journal bus.journal unsubscribed bus.channels (unsubscribed-IsFed bus.journal) v
act-AllFed (cancels n) bus v =
    change-All bus.journal unsubscribed n bus.channels (unsubscribed-IsFed bus.journal) v
act-AllFed (receives n) bus v =
    change-All bus.journal receive_from n bus.channels (receive_from-IsFed bus.journal) v

run-AllFed_from : (later : List Action) (bus : Bus) → AllFed bus → AllFed (run later bus)
unfolding run
run-AllFed_from [] bus v = v
run-AllFed_from (a ∷ later) bus v = run-AllFed_from later (act a bus) (act-AllFed a bus v)

-- After any history of the bus: what a subscriber has received and what waits for it is, in order and
-- without a gap, the part of the journal that follows its subscription, up to the last published
-- event while it is subscribed and up to some event if it was dropped.
pub run-AllFed : (later : List Action) → AllFed (run later new_bus)
run-AllFed later = run-AllFed_from later new_bus tt
