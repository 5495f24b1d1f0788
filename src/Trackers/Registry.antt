-- ===== src/Trackers/Registry.antt =====
-- What a registry that was built holds.
use torrent_tv.Prelude.{
  ◌≡◌, refl, sym, subst, ◌∙◌, ◌↔◌, inl, inr, Bool, true, false, ◌&&◌, Option, none, some, is_some,
  List, [], ◌∷◌, ◌++◌, keep-In, In-keep, null, In, In-append, In-append_left, In-append_right,
  Bool-cases, if◌then◌else◌,
}
use torrent_tv.Prelude.Bytes.{Bytes, eqb, eqb_iff, trim_space}
use torrent_tv.Trackers.{
  Adapter, TrackerRegistration, Entry, TrackerRegistry, Result, ok, fail, blank, register, entry_of,
  with_id, checked_adapter, checked, then_register, unconfigured, disabled, add_all,
  new_tracker_registry, is_eligible, eligible, eligible_ids, require_entry, require_eligible,
}

abbrev Unique : List Bytes → Type 0
Unique [] = Unit
Unique (x ∷ xs) = ¬ In x xs × Unique xs

Unique-append : (xs : List Bytes) (x : Bytes) → Unique xs → ¬ In x xs → Unique (xs ++ x ∷ [])
Unique-append [] x u n = ((λ i. i), tt)
Unique-append (y ∷ ys) x (m, u) n = (
  (λ i. elim (In-append y ys (x ∷ []) i) [
    | inl j ↦ m j
    | inr (inl e) ↦ n (inl (sym e))
    | inr (inr other) ↦ other
  ]),
  Unique-append ys x u (λ i. n (inr i)),
)

abbrev pub is_ok : Result Adapter → Bool
is_ok (ok a) = true
is_ok (fail x) = false

module _ {S : Type 0} where
  -- The ids are distinct, and are those that have an entry.
  pub record IsRegistry (reg : TrackerRegistry S) : Type 0 where
    pub distinct : Unique reg.order
    pub entered : (id : Bytes) → In id reg.order ↔ (is_some (reg.registrations id) ≡ true)

  blank-IsRegistry : IsRegistry blank
  blank-IsRegistry = record { distinct = tt; entered = λ id. ((λ i. absurd i), (λ e. cc)) }

  register-IsRegistry :
      (id : Bytes) (e : Entry S) (reg : TrackerRegistry S)
      → is_some (reg.registrations id) ≡ false
      → IsRegistry reg
      → IsRegistry (register id e reg)
  register-IsRegistry id e reg new v = record {
    distinct = Unique-append reg.order id v.distinct (λ i. clash (sym new ∙ (v.entered id).0 i));
    entered = λ x. elim (Bool-cases (eqb id x)) [
      | inl same ↦ rw same (
        (λ i. refl),
        (λ k. In-append_right x reg.order (id ∷ []) (inl (sym ((eqb_iff id x).0 same)))),
      )
      | inr other ↦ rw other (
        (λ i. elim (In-append x reg.order (id ∷ []) i) [
          | inl j ↦ (v.entered x).0 j
          | inr (inl at) ↦ absurd (clash (sym other ∙ (eqb_iff id x).1 (sym at)))
          | inr (inr none_left) ↦ absurd none_left
        ]),
        (λ k. In-append_left x reg.order (id ∷ []) ((v.entered x).1 k)),
      )
    ];
  }
    where
      clash : ¬ (false ≡ true)
      clash k = cc

  abbrev Built : Result (TrackerRegistry S) → Type 0
  Built (ok reg) = IsRegistry reg
  Built (fail x) = Unit

  -- An entry that was checked has a new id.
  abbrev IsNew : TrackerRegistry S → Result (Bytes × Entry S) → Type 0
  IsNew reg (ok (id, e)) = is_some (reg.registrations id) ≡ false
  IsNew reg (fail x) = Unit

  with_id-IsNew :
      (reg : TrackerRegistry S) (id : Bytes) (c : Result (Entry S))
      → is_some (reg.registrations id) ≡ false
      → IsNew reg (with_id id c)
  with_id-IsNew reg id (ok e) h = h
  with_id-IsNew reg id (fail x) h = tt

  checked_adapter-IsNew :
      (reg : TrackerRegistry S) (r : TrackerRegistration S) (a : Option Adapter)
      → IsNew reg (checked_adapter reg r a)
  checked_adapter-IsNew reg r none = tt
  checked_adapter-IsNew reg r (some a) = elim (Bool-cases (null (trim_space a.id))) [
    | inl empty ↦ rw empty tt
    | inr named ↦ elim (Bool-cases (is_some (reg.registrations (trim_space a.id)))) [
      | inl taken ↦ rw (named, taken) tt
      | inr new ↦
          rw (named, new)
            (with_id-IsNew reg (trim_space a.id)
              (entry_of (trim_space a.id) a r.enabled r.configured) new)
    ]
  ]

  checked-IsNew : (reg : TrackerRegistry S) (r : TrackerRegistration S) → IsNew reg (checked reg r)
  unfolding checked
  checked-IsNew reg r = checked_adapter-IsNew reg r r.adapter

  then_register-Built :
      (rest : TrackerRegistry S → Result (TrackerRegistry S)) (reg : TrackerRegistry S)
      (c : Result (Bytes × Entry S))
      → IsNew reg c
      → IsRegistry reg
      → ((g : TrackerRegistry S) → IsRegistry g → Built (rest g))
      → Built (then_register rest reg c)
  then_register-Built rest reg (fail x) n v k = tt
  then_register-Built rest reg (ok (id, e)) n v k =
      k (register id e reg) (register-IsRegistry id e reg n v)

  add_all-Built :
      (rs : List (TrackerRegistration S)) (reg : TrackerRegistry S)
      → IsRegistry reg
      → Built (add_all rs reg)
  unfolding add_all
  add_all-Built [] reg v = v
  add_all-Built (r ∷ rs) reg v =
      then_register-Built (λ g. add_all rs g) reg (checked reg r) (checked-IsNew reg r) v
        (λ g w. add_all-Built rs g w)

  -- A registry that `NewTrackerRegistry` returns has distinct ids in its order, and entries for these
  -- ids and no other.
  pub new_tracker_registry-IsRegistry :
      (rs : List (TrackerRegistration S)) (reg : TrackerRegistry S)
      → new_tracker_registry rs ≡ ok reg
      → IsRegistry reg
  unfolding new_tracker_registry
  new_tracker_registry-IsRegistry rs reg e = subst Built e (add_all-Built rs blank blank-IsRegistry)

  eligible-entered :
      (s : S) (reg : TrackerRegistry S) (id : Bytes)
      → is_eligible s (reg.registrations id) ≡ true
      → is_some (reg.registrations id) ≡ true
  eligible-entered s reg id h = go (reg.registrations id) h
    where
      go : (o : Option (Entry S)) → is_eligible s o ≡ true → is_some o ≡ true
      go none h = cc
      go (some e) h = refl

  require_entry-eligible :
      (s : S) (id : Bytes) (o : Option (Entry S)) → is_ok (require_entry s id o) ≡ is_eligible s o
  require_entry-eligible s id none = refl
  require_entry-eligible s id (some e) = by_tests (e.enabled s) (e.configured s)
    where
      by_tests :
          (a b : Bool)
          → is_ok (
              if a
              then (if b then ok e.adapter else fail (unconfigured e.adapter.name))
              else fail (disabled e.adapter.name))
            ≡ (a && b)
      by_tests true true = refl
      by_tests true false = refl
      by_tests false b = refl

  -- In a registry that was built, the ids that `EligibleIDs` lists, those that `Eligible` accepts and
  -- those for which `RequireEligible` returns an adapter are the same.
  pub eligible_ids-eligible :
      (s : S) (reg : TrackerRegistry S) (id : Bytes)
      → IsRegistry reg
      → (In id (eligible_ids s (some reg)) ↔ (eligible s (some reg) id ≡ true))
        × (is_ok (require_eligible s (some reg) id) ≡ eligible s (some reg) id)
  unfolding eligible_ids eligible require_eligible
  eligible_ids-eligible s reg id v = (
    (
      λ i. (keep-In (λ x. is_eligible s (reg.registrations x)) id reg.order i).1,
      λ h.
          In-keep (λ x. is_eligible s (reg.registrations x)) id reg.order
            ((v.entered id).1 (eligible-entered s reg id h)) h,
    ),
    require_entry-eligible s id (reg.registrations id),
  )
