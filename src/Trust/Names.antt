-- ===== src/Trust/Names.antt =====
-- Which paths are administration, and which names belong to the local network.
use torrent_tv.Prelude.{
  ◌≡◌, ◌≢◌, refl, sym, subst, subst₂, ◌∙◌, ◌↔◌, ◌⊎◌, inl, inr, Bool, true, false, not, ◌||◌, List,
  [], ◌∷◌, ◌++◌, append_assoc, arith, if◌then◌else◌, Bool-cases, In,
}
use torrent_tv.Prelude.Bytes.{Bytes, codes, eqb, eqb_iff}
use torrent_tv.Prelude.Texts.{
  has_prefix, has_suffix, has_byte, has_prefix_append, has_prefix_rest, has_suffix_append,
  has_suffix_rest,
}
use torrent_tv.Trust.{
  under_any, is_admin_path, admin_prefixes, is_lan_name, any_suffix, lan_suffixes, api_root,
}

-- A path at or below one of the prefixes.
abbrev pub Below : List Bytes → Bytes → Type 0
Below prefixes path =
    (prefix : Bytes) × In prefix prefixes
    × ((path ≡ prefix) ⊎ ((rest : Bytes) × (path ≡ prefix ++ b'/' ∷ rest)))

Below-more : (p : Bytes) (ps : List Bytes) (path : Bytes) → Below ps path → Below (p ∷ ps) path
Below-more p ps path (q, i, h) = (q, inr i, h)

under_any-Below : (path : Bytes) (ps : List Bytes) → under_any path ps ≡ true → Below ps path
unfolding under_any
under_any-Below path [] h = absurd (ground arith)
under_any-Below path (p ∷ ps) h = elim (Bool-cases (eqb path p)) [
  | inl e ↦ (p, inl refl, inl ((eqb_iff path p).0 e))
  | inr e ↦ elim (Bool-cases (has_prefix path (p ++ b'/' ∷ []))) [
    | inl f ↦
        let (r, g) = has_prefix_rest path (p ++ b'/' ∷ []) f in
        (p, inl refl, inr (r, g ∙ append_assoc p (b'/' ∷ []) r))
    | inr f ↦ Below-more p ps path (under_any-Below path ps (ground arith))
  ]
]

Below-under_any : (path : Bytes) (ps : List Bytes) → Below ps path → under_any path ps ≡ true
unfolding under_any
Below-under_any path [] (q, i, h) = absurd i
Below-under_any path (p ∷ ps) (q, inl same, inl e) = ground (arith, eqb_iff path p, e ∙ same)
Below-under_any path (p ∷ ps) (q, inl same, inr (r, e)) =
    let f : has_prefix path (p ++ b'/' ∷ []) ≡ true =
      rw (e, same, sym (append_assoc p (b'/' ∷ []) r)) (has_prefix_append (p ++ b'/' ∷ []) r) in
    ground arith
Below-under_any path (p ∷ ps) (q, inr i, h) =
    let f = Below-under_any path ps (q, i, h) in ground arith

-- A path is administration exactly if it is /api/v1/settings, /api/v1/dependencies or
-- /api/v1/updates, or one of these followed by a slash and anything.
pub is_admin_path_iff : (path : Bytes) → (is_admin_path path ≡ true) ↔ Below admin_prefixes path
unfolding is_admin_path
is_admin_path_iff path = (under_any-Below path admin_prefixes, Below-under_any path admin_prefixes)

under_api : (prefix : Bytes) → In prefix admin_prefixes → (s : Bytes) × (prefix ≡ api_root ++ s)
under_api prefix (inl e) = (codes "/settings", e)
under_api prefix (inr (inl e)) = (codes "/dependencies", e)
under_api prefix (inr (inr (inl e))) = (codes "/updates", e)
under_api prefix (inr (inr (inr i))) = absurd i

-- Administration is below the API.
pub has_prefix-is_admin_path :
    (path : Bytes) → is_admin_path path ≡ true → has_prefix path api_root ≡ true
has_prefix-is_admin_path path h =
    let (prefix, i, place) = (is_admin_path_iff path).0 h in
    let (s, f) = under_api prefix i in
    elim place [
      | inl e ↦ rw (e, f) (has_prefix_append api_root s)
      | inr (r, e) ↦
          rw (e, f, append_assoc api_root s (b'/' ∷ r)) (has_prefix_append api_root (s ++ b'/' ∷ r))
    ]

abbrev pub EndsIn : List Bytes → Bytes → Type 0
EndsIn suffixes h =
    (suffix : Bytes) × In suffix suffixes × ((front : Bytes) × (h ≡ front ++ suffix))

any_suffix-EndsIn : (h : Bytes) (ss : List Bytes) → any_suffix h ss ≡ true → EndsIn ss h
any_suffix-EndsIn h [] e = absurd (ground arith)
any_suffix-EndsIn h (s ∷ ss) e = elim (Bool-cases (has_suffix h s)) [
  | inl f ↦ (s, inl refl, has_suffix_rest h s f)
  | inr f ↦ let (t, i, g) = any_suffix-EndsIn h ss (ground arith) in (t, inr i, g)
]

EndsIn-any_suffix : (h : Bytes) (ss : List Bytes) → EndsIn ss h → any_suffix h ss ≡ true
EndsIn-any_suffix h [] (t, i, g) = absurd i
EndsIn-any_suffix h (s ∷ ss) (t, inl same, (front, e)) =
    let f : has_suffix h s ≡ true = rw (e, same) (has_suffix_append front s) in ground arith
EndsIn-any_suffix h (s ∷ ss) (t, inr i, g) =
    let f = EndsIn-any_suffix h ss (t, i, g) in ground arith

abbrev lan_test : Bool → Bool → Bytes → Bool
lan_test local dot h = if local || not dot then true else any_suffix h lan_suffixes

either : (a b : Bool) → (if a || true then true else b) ≡ true
either a b = ground arith

same_branches : (a : Bool) → (if a then true else true) ≡ true
same_branches a = ground arith

abbrev pub LanName : Bytes → Type 0
LanName h =
    (h ≢ []) × ((h ≡ codes "localhost") ⊎ ((has_byte h b'.' ≡ false) ⊎ EndsIn lan_suffixes h))

-- A name is of the local network exactly if it is not blank and is localhost, has no dot, or ends in
-- .local, .lan or .home.arpa.
pub is_lan_name_iff : (h : Bytes) → (is_lan_name h ≡ true) ↔ LanName h
unfolding is_lan_name
is_lan_name_iff [] = ((λ e. absurd (ground arith)), (λ l. absurd (l.0 refl)))
is_lan_name_iff (c ∷ h) = (to, from)
  where
    to : is_lan_name (c ∷ h) ≡ true → LanName (c ∷ h)
    to e = (
      (λ e. cc),
      elim (Bool-cases (eqb (c ∷ h) (codes "localhost"))) [
        | inl f ↦ inl ((eqb_iff (c ∷ h) (codes "localhost")).0 f)
        | inr f ↦ elim (Bool-cases (has_byte (c ∷ h) b'.')) [
          | inl dot ↦ inr (
              inr (
                any_suffix-EndsIn (c ∷ h) lan_suffixes
                  (subst₂ (λ a b. lan_test a b (c ∷ h) ≡ true) f dot e)))
          | inr dot ↦ inr (inl dot)
        ]
      ],
    )

    from : LanName (c ∷ h) → is_lan_name (c ∷ h) ≡ true
    from (n, inl f) = ground (arith, (eqb_iff (c ∷ h) (codes "localhost")).1 f)
    from (n, inr (inl dot)) =
        subst
          (λ b.
            (if eqb (c ∷ h) (codes "localhost") || not b
              then true
              else any_suffix (c ∷ h) lan_suffixes)
            ≡ true)
          (sym dot) (either (eqb (c ∷ h) (codes "localhost")) (any_suffix (c ∷ h) lan_suffixes))
    from (n, inr (inr ends)) =
        subst
          (λ b.
            (if eqb (c ∷ h) (codes "localhost") || not (has_byte (c ∷ h) b'.') then true else b)
            ≡ true)
          (sym (EndsIn-any_suffix (c ∷ h) lan_suffixes ends))
          (same_branches (eqb (c ∷ h) (codes "localhost") || not (has_byte (c ∷ h) b'.')))
