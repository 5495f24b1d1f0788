-- ===== src/Flights/Single.antt =====
-- One call at a time for each key.
use torrent_tv.Prelude.{
  ℕ, ◌+◌, ◌≤◌, ◌≡◌, refl, sym, ap, subst, ◌∙◌, Bool, true, false, none, some, inl, inr, Bool-cases,
  ◌==◌, if◌then◌else◌, arith,
}
use torrent_tv.Prelude.Bytes.{Bytes, eqb, eqb→≡, eqb_refl}
use torrent_tv.Flights.{
  Stage, unused, fetching, fetched, removed, closed, Group, set_key, set_at, zero_group, start_call,
  move_to, delete_call, Step, starts, answers, deletes, closes, Reach, here, next,
}

-- The fetch runs, or its result is stored and the call still in the table.
abbrev pub is_active : {T : Type 0} → Stage T → Bool
is_active unused = false
is_active fetching = true
is_active (fetched v) = true
is_active (removed v) = false
is_active (closed v) = false

-- The table has exactly the calls that are active, each under its key.
pub record IsFlight {T : Type 0} (g : Group T) : Type 0 where
  pub registered :
      (key : Bytes) (id : ℕ)
      → g.calls key ≡ some id
      → (is_active (g.stages id) ≡ true) × (g.key_of id ≡ key)
  pub listed : (id : ℕ) → is_active (g.stages id) ≡ true → g.calls (g.key_of id) ≡ some id
  pub fresh : (id : ℕ) → g.made ≤ id → is_active (g.stages id) ≡ false

some_injective : {A : Type 0} {a b : A} → some a ≡ some b → a ≡ b
some_injective e = cc

module _ {T : Type 0} where
  move_to-active :
      (id : ℕ) (stage : Stage T) (g : Group T)
      → is_active stage ≡ is_active (g.stages id)
      → (i : ℕ) → is_active (set_at id stage g.stages i) ≡ is_active (g.stages i)
  move_to-active id stage g e i = elim (Bool-cases (i == id)) [
    | inl h ↦ rw h (e ∙ ap (λ k. is_active (g.stages k)) (same h))
    | inr h ↦ rw h refl
  ]
    where
      same : (i == id) ≡ true → id ≡ i
      same h = ground arith

  move_to-IsFlight :
      (id : ℕ) (stage : Stage T) (g : Group T)
      → is_active stage ≡ is_active (g.stages id)
      → IsFlight g
      → IsFlight (move_to id stage g)
  move_to-IsFlight id stage g e v = record {
    registered =
        λ key i c. let (a, k) = v.registered key i c in (move_to-active id stage g e i ∙ a, k);
    listed = λ i a. v.listed i (sym (move_to-active id stage g e i) ∙ a);
    fresh = λ i le. move_to-active id stage g e i ∙ v.fresh i le;
  }

  start_call-IsFlight :
      (key : Bytes) (g : Group T) → g.calls key ≡ none → IsFlight g → IsFlight (start_call key g)
  unfolding start_call
  start_call-IsFlight key g absent v = record {
    registered = registered;
    listed = listed;
    fresh = fresh;
  }
    where
      not_new : (i : ℕ) → is_active (g.stages i) ≡ true → (i == g.made) ≡ false
      not_new i a = elim (Bool-cases (i == g.made)) [
        | inl h ↦ absurd (clash (sym a ∙ v.fresh i (ground arith)))
        | inr h ↦ h
      ]
        where
          clash : ¬ (true ≡ false)
          clash e = cc

      self : (g.made == g.made) ≡ true
      self = ground arith

      differs : (k : Bytes) (i : ℕ) → g.calls k ≡ some i → eqb k key ≡ false
      differs k i e = elim (Bool-cases (eqb k key)) [
        | inl h ↦ absurd (lost (sym absent ∙ (ap g.calls (sym (eqb→≡ k key h)) ∙ e)))
        | inr h ↦ h
      ]
        where
          lost : ¬ (none ≡ some i)
          lost k = cc

      registered :
          (k : Bytes) (i : ℕ)
          → set_key key (some g.made) g.calls k ≡ some i
          → (is_active (set_at g.made fetching g.stages i) ≡ true)
            × (set_at g.made key g.key_of i ≡ k)
      registered k i e = elim (Bool-cases (eqb k key)) [
        | inl h ↦ subst (Registered k) (some_injective (sym (branch k h) ∙ e)) (at_made k h)
        | inr h ↦
            let (a, q) = v.registered k i (sym (branch k h) ∙ e) in
            let n = not_new i a in rw n (a, q)
      ]
        where
          Registered : Bytes → ℕ → Type 0
          Registered k j =
              (is_active (set_at g.made fetching g.stages j) ≡ true)
              × (set_at g.made key g.key_of j ≡ k)

          branch :
              {b : Bool} (k : Bytes)
              → eqb k key ≡ b
              → set_key key (some g.made) g.calls k ≡ (if b then some g.made else g.calls k)
          branch k h = ap (λ b. if b then some g.made else g.calls k) h

          at_made : (k : Bytes) → eqb k key ≡ true → Registered k g.made
          at_made k h = rw self (refl, sym (eqb→≡ k key h))

      listed :
          (i : ℕ)
          → is_active (set_at g.made fetching g.stages i) ≡ true
          → set_key key (some g.made) g.calls (set_at g.made key g.key_of i) ≡ some i
      listed i a = elim (Bool-cases (i == g.made)) [
        | inl h ↦ rw (h, eqb_refl key) (ap some (same h))
        | inr h ↦ let old = v.listed i (active_before h) in rw (h, differs (g.key_of i) i old) old
      ]
        where
          same : (i == g.made) ≡ true → g.made ≡ i
          same h = ground arith

          active_before : (i == g.made) ≡ false → is_active (g.stages i) ≡ true
          active_before h = ap (λ b. is_active (if b then fetching else g.stages i)) (sym h) ∙ a

      fresh : (i : ℕ) → g.made + 1 ≤ i → is_active (set_at g.made fetching g.stages i) ≡ false
      fresh i le = ground (arith, v.fresh i (omega arith))

  delete_call-IsFlight :
      (id : ℕ) (w : T) (g : Group T)
      → g.stages id ≡ fetched w
      → IsFlight g
      → IsFlight (delete_call id w g)
  unfolding delete_call
  delete_call-IsFlight id w g e v = record {
    registered = registered;
    listed = listed;
    fresh = fresh;
  }
    where
      own : g.calls (g.key_of id) ≡ some id
      own = v.listed id (ap is_active e)

      -- A registered call under another key is another call.
      other :
          (k : Bytes) (i : ℕ) → eqb k (g.key_of id) ≡ false → g.calls k ≡ some i → (i == id) ≡ false
      other k i h c = elim (Bool-cases (i == id)) [
        | inl m ↦ absurd (
            clash (
              sym h
              ∙ (ap (λ q. eqb q (g.key_of id)) (sym (v.registered k i c).1 ∙ ap g.key_of (same m))
                  ∙ eqb_refl (g.key_of id))))
        | inr m ↦ m
      ]
        where
          same : (i == id) ≡ true → i ≡ id
          same m = ground arith

          clash : ¬ (false ≡ true)
          clash q = cc

      registered :
          (k : Bytes) (i : ℕ)
          → set_key (g.key_of id) none g.calls k ≡ some i
          → (is_active (set_at id (removed w) g.stages i) ≡ true) × (g.key_of i ≡ k)
      registered k i c = elim (Bool-cases (eqb k (g.key_of id))) [
        | inl h ↦ absurd (lost (sym (branch h) ∙ c))
        | inr h ↦
            let old = sym (branch h) ∙ c in
            let (a, q) = v.registered k i old in (rw (other k i h old) a, q)
      ]
        where
          lost : ¬ (none ≡ some i)
          lost q = cc

          branch :
              {b : Bool}
              → eqb k (g.key_of id) ≡ b
              → set_key (g.key_of id) none g.calls k ≡ (if b then none else g.calls k)
          branch h = ap (λ b. if b then none else g.calls k) h

      listed :
          (i : ℕ)
          → is_active (set_at id (removed w) g.stages i) ≡ true
          → set_key (g.key_of id) none g.calls (g.key_of i) ≡ some i
      listed i a = elim (Bool-cases (i == id)) [
        | inl m ↦
            absurd (clash (ap (λ b. is_active (if b then removed w else g.stages i)) (sym m) ∙ a))
        | inr m ↦
            let old =
              v.listed i (ap (λ b. is_active (if b then removed w else g.stages i)) (sym m) ∙ a) in
            rw (apart m old) old
      ]
        where
          clash : ¬ (false ≡ true)
          clash q = cc

          apart :
              (i == id) ≡ false
              → g.calls (g.key_of i) ≡ some i
              → eqb (g.key_of i) (g.key_of id) ≡ false
          apart m old = elim (Bool-cases (eqb (g.key_of i) (g.key_of id))) [
            | inl h ↦ absurd (
                differ m (
                  some_injective
                    (sym old ∙ (ap g.calls (eqb→≡ (g.key_of i) (g.key_of id) h) ∙ own))))
            | inr h ↦ h
          ]
            where
              differ : (i == id) ≡ false → ¬ (i ≡ id)
              differ m q = ground arith

      fresh : (i : ℕ) → g.made ≤ i → is_active (set_at id (removed w) g.stages i) ≡ false
      fresh i le = elim (Bool-cases (i == id)) [ inl m ↦ rw m refl | inr m ↦ rw m (v.fresh i le) ]

  Step-IsFlight : {g h : Group T} → Step g h → IsFlight g → IsFlight h
  Step-IsFlight {g} (starts key e) v = start_call-IsFlight key g e v
  Step-IsFlight {g} (answers id w e) v = move_to-IsFlight id (fetched w) g (sym (ap is_active e)) v
  Step-IsFlight {g} (deletes id w e) v = delete_call-IsFlight id w g e v
  Step-IsFlight {g} (closes id w e) v = move_to-IsFlight id (closed w) g (sym (ap is_active e)) v

  zero_group-IsFlight : IsFlight (zero_group {T = T})
  zero_group-IsFlight = record {
    registered = λ key id e. cc;
    listed = λ id e. cc;
    fresh = λ id le. refl;
  }

  Reach-IsFlight : {g : Group T} → Reach (zero_group {T = T}) g → IsFlight g
  Reach-IsFlight here = zero_group-IsFlight
  Reach-IsFlight (next r st) = Step-IsFlight st (Reach-IsFlight r)

  -- Two calls that are under way at once have different keys.
  abbrev pub IsAlone : Group T → Type 0
  IsAlone g =
      (i j : ℕ)
      → is_active (g.stages i) ≡ true
      → is_active (g.stages j) ≡ true
      → g.key_of i ≡ g.key_of j
      → i ≡ j

  IsFlight-IsAlone : (g : Group T) → IsFlight g → IsAlone g
  IsFlight-IsAlone g v i j a b e =
      some_injective (sym (v.listed i a) ∙ (ap g.calls e ∙ v.listed j b))

  -- In every interleaving of callers and fetches: the table holds, each under its key, exactly the
  -- calls whose fetch runs or whose result is stored but the call not yet deleted, and no two of them
  -- have the same key.
  pub Reach-IsAlone : {g : Group T} → Reach (zero_group {T = T}) g → IsFlight g × IsAlone g
  Reach-IsAlone {g} r = (Reach-IsFlight r, IsFlight-IsAlone g (Reach-IsFlight r))
