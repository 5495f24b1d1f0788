-- ===== src/Archive/Contained.antt =====
-- What an accepted archive may create.
use torrent_tv.Prelude.{
  ◌+◌, ◌≡◌, refl, subst₂, ◌∙◌, Bool, true, false, not, ◌&&◌, ◌||◌, Option, none, some, List, [],
  ◌∷◌, All, inl, inr, null, any, ltb, ◌==◌, Bool-cases, arith, if◌then◌else◌,
}
use torrent_tv.Prelude.Int.{ℤ, pos, ltb_ℤ, add64}
use torrent_tv.Prelude.Bytes.{Bytes, codes, eqb, contains}
use torrent_tv.Prelude.Texts.{has_prefix, split}
use torrent_tv.Archive.{
  Paths, ArchiveRules, Fault, Kind, directory, other, regular, symlink, Member, MemberPath, refuses,
  root, below, Extraction, fails, creates, in_app, first_path_element, mark_bundle, account_size,
  clean_archive_name, place_name, member_path, check_link_target, also, sized, create,
  extract_member, extract_tar,
}

module _ (paths : Paths) where
  -- A link is relative, and its target, joined to the directory of the link and cleaned as a text,
  -- begins with the directory at the root that holds the link. No link on the way is followed.
  abbrev pub LinkInside : Bytes → Kind → Type 0
  LinkInside clean (symlink link) =
      (paths.is_abs link ≡ false)
      × (eqb (first_path_element (paths.clean (paths.join (paths.dir clean) link)))
            (first_path_element clean)
          ≡ true)
  LinkInside clean directory = Unit
  LinkInside clean other = Unit
  LinkInside clean (regular size) = Unit

  -- No part leads upwards; all of it is inside an application for the bundle flavor, and none otherwise.
  abbrev pub Inside : Bool → Member → Type 0
  Inside is_bundle m =
      (contains (split b'/' m.name) (codes "..") ≡ false)
      × (in_app m.name ≡ is_bundle)
      × LinkInside m.name m.kind

  abbrev pub Distinct : List Bytes → List Member → Type 0
  Distinct seen [] = Unit
  Distinct seen (m ∷ ms) = (contains seen m.name ≡ false) × Distinct (m.name ∷ seen) ms

  abbrev pub IsContained : Bool → List Bytes → Extraction → Type 0
  IsContained is_bundle seen (fails f) = Unit
  IsContained is_bundle seen (creates ms) = All (Inside is_bundle) ms × Distinct seen ms

  -- What a name below the root satisfies, and the rules behind it.
  abbrev Placed : ArchiveRules → MemberPath → Type 0
  Placed r (refuses f) = Unit
  Placed r (root t) = (t.is_bundle ≡ r.is_bundle) × (t.seen ≡ r.seen)
  Placed r (below clean t) =
      (t.is_bundle ≡ r.is_bundle)
      × (t.seen ≡ clean ∷ r.seen)
      × (contains r.seen clean ≡ false)
      × (contains (split b'/' clean) (codes "..") ≡ false)
      × (in_app clean ≡ r.is_bundle)

  mark_bundle-Placed :
      (clean : Bytes) (r : ArchiveRules)
      → contains r.seen clean ≡ false
      → contains (split b'/' clean) (codes "..") ≡ false
      → Placed r (mark_bundle clean (record r { seen = clean ∷ r.seen }))
  mark_bundle-Placed clean r new inside = elim (Bool-cases (in_app clean)) [
    | inr plain ↦ elim (Bool-cases r.is_bundle) [
      | inl b ↦ rw (plain, b) tt
      | inr b ↦ rw (plain, b) (refl, refl, new, inside, plain)
    ]
    | inl app ↦ elim (Bool-cases r.is_bundle) [
      | inr b ↦ rw (app, b) tt
      | inl b ↦
          elim (Bool-cases (
            eqb (if null r.bundle_name then first_path_element clean else r.bundle_name)
              (first_path_element clean))) [
                | inl same ↦ rw (app, b, same) (refl, refl, new, inside, app)
                | inr differs ↦ rw (app, b, differs) tt
              ]
    ]
  ]

  place_name-Placed : (clean : Bytes) (r : ArchiveRules) → Placed r (place_name paths clean r)
  place_name-Placed clean r = elim (Bool-cases (eqb clean (codes "."))) [
    | inl dot ↦ rw dot (refl, refl)
    | inr named ↦ elim (Bool-cases (contains (split b'/' clean) (codes ".."))) [
      | inl up ↦ rw (named, up) tt
      | inr inside ↦ elim (Bool-cases (contains r.seen clean)) [
        | inl old ↦ rw (named, inside, old) tt
        | inr new ↦ rw (named, inside, new) (mark_bundle-Placed clean r new inside)
      ]
    ]
  ]

  member_path-Placed : (name : Bytes) (r : ArchiveRules) → Placed r (member_path paths name r)
  unfolding member_path
  member_path-Placed name r = elim (Bool-cases (ltb r.limits.entries (r.entries + 1))) [
    | inl many ↦ rw many tt
    | inr a ↦ elim (Bool-cases (null name)) [
      | inl empty ↦ rw (a, empty) tt
      | inr b ↦ elim (Bool-cases (any (λ c. c == b'\\' || c == 0) name)) [
        | inl odd ↦ rw (a, b, odd) tt
        | inr c ↦ elim (Bool-cases (has_prefix name (codes "/"))) [
          | inl absolute ↦ rw (a, b, c, absolute) tt
          | inr d ↦
              rw (a, b, c, d)
                (place_name-Placed (clean_archive_name paths name)
                  (record r { entries = r.entries + 1 }))
        ]
      ]
    ]
  ]

  account_size-rules :
      (size : ℤ) (r : ArchiveRules)
      → ((account_size size r).1.is_bundle ≡ r.is_bundle) × ((account_size size r).1.seen ≡ r.seen)
  unfolding account_size
  account_size-rules size r = elim (Bool-cases (ltb_ℤ size (pos 0))) [
    | inl negative ↦ rw negative (refl, refl)
    | inr a ↦ elim (Bool-cases (ltb_ℤ r.limits.expanded (add64 r.expanded size))) [
      | inl over ↦ rw (a, over) (refl, refl)
      | inr b ↦ rw (a, b) (refl, refl)
    ]
  ]

  also-IsContained :
      (is_bundle : Bool) (seen : List Bytes) (m : Member) (e : Extraction)
      → contains seen m.name ≡ false
      → Inside is_bundle m
      → IsContained is_bundle (m.name ∷ seen) e
      → IsContained is_bundle seen (also paths m e)
  also-IsContained is_bundle seen m (fails f) new i v = tt
  also-IsContained is_bundle seen m (creates ms) new i (a, d) = ((i, a), (new, d))

  check_link_target_lem :
      (clean link : Bytes) (r : ArchiveRules)
      → check_link_target paths clean link r ≡ true
      → LinkInside clean (symlink link)
  unfolding check_link_target
  check_link_target_lem clean link r h =
      parts r.is_bundle (in_app clean) (paths.is_abs link)
        (eqb (paths.clean (paths.join (paths.dir clean) link)) (codes "."))
        (eqb (first_path_element (paths.clean (paths.join (paths.dir clean) link)))
          (first_path_element clean))
        h
    where
      parts : (a b c d e : Bool) → (a && b && not c && not d && e) ≡ true → (c ≡ false) × (e ≡ true)
      parts a b c d e h = ground arith

  module _ (rest : ArchiveRules → Extraction)
      (v : (t : ArchiveRules) → IsContained t.is_bundle t.seen (rest t)) where
    behind :
        (r t : ArchiveRules) (clean : Bytes)
        → t.is_bundle ≡ r.is_bundle
        → t.seen ≡ clean ∷ r.seen
        → IsContained r.is_bundle (clean ∷ r.seen) (rest t)
    behind r t clean b s = subst₂ (λ x y. IsContained x y (rest t)) b s (v t)

    sized-IsContained :
        (r : ArchiveRules) (clean : Bytes) (size : ℤ) (a : Option Fault × ArchiveRules)
        → a.1.is_bundle ≡ r.is_bundle
        → a.1.seen ≡ clean ∷ r.seen
        → contains r.seen clean ≡ false
        → Inside r.is_bundle (record { name = clean; kind = regular size })
        → IsContained r.is_bundle r.seen (sized paths rest clean size a)
    sized-IsContained r clean size (some f, t) b s new i = tt
    sized-IsContained r clean size (none, t) b s new i =
        also-IsContained r.is_bundle r.seen (record { name = clean; kind = regular size }) (rest t)
          new i (behind r t clean b s)

    create-IsContained :
        (r t : ArchiveRules) (clean : Bytes) (kind : Kind)
        → Placed r (below clean t)
        → IsContained r.is_bundle r.seen (create paths rest clean kind t)
    create-IsContained r t clean directory (b, s, new, up, app) =
        also-IsContained r.is_bundle r.seen (record { name = clean; kind = directory }) (rest t) new
          (up, app, tt) (behind r t clean b s)
    create-IsContained r t clean other p = tt
    create-IsContained r t clean (regular size) (b, s, new, up, app) =
        let (x, y) = account_size-rules size t in
        sized-IsContained r clean size (account_size size t) (x ∙ b) (y ∙ s) new (up, app, tt)
    create-IsContained r t clean (symlink link) (b, s, new, up, app) =
        elim (Bool-cases (check_link_target paths clean link t)) [
          | inl ok ↦ rw ok (
              also-IsContained r.is_bundle r.seen (record { name = clean; kind = symlink link })
                (rest t) new (up, app, check_link_target_lem clean link t ok)
                (behind r t clean b s))
          | inr denied ↦ rw denied tt
        ]

    member-IsContained :
        (r : ArchiveRules) (kind : Kind) (p : MemberPath)
        → Placed r p
        → IsContained r.is_bundle r.seen (extract_member paths rest kind p)
    member-IsContained r kind (refuses f) h = tt
    member-IsContained r kind (root t) (b, s) = subst₂ (λ x y. IsContained x y (rest t)) b s (v t)
    member-IsContained r kind (below clean t) h = create-IsContained r t clean kind h

  -- Whatever the members of an archive: if it is accepted, no name that it creates has a part that
  -- leads upwards, no two are the same, all are inside directories of applications for the bundle
  -- flavor and none are otherwise, and each link is relative, with a target that, joined to the
  -- directory of the link and cleaned as a text, begins with the same element as the link's own name.
  -- Where the target leads through other links is not stated.
  pub extract_tar-IsContained :
      (ms : List Member) (r : ArchiveRules)
      → IsContained r.is_bundle r.seen (extract_tar paths ms r)
  unfolding extract_tar
  extract_tar-IsContained [] r = (tt, tt)
  extract_tar-IsContained (m ∷ ms) r =
      member-IsContained (λ t. extract_tar paths ms t) (λ t. extract_tar-IsContained ms t) r m.kind
        (member_path paths m.name r) (member_path-Placed m.name r)
