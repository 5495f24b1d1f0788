-- ===== src/Playback/Preferences.antt =====
-- `UpdatePlaybackPreferences` and `PlaybackPreferences`. Texts are ASCII.
use torrent_tv.Prelude.{
  ◌≡◌, refl, subst, arith, ap, ◌∙◌, Time, Bool, true, false, not, ◌&&◌, ◌||◌, ◌⊎◌, Option, none,
  some, [], inl, inr, Bool-cases, null, if◌then◌else◌,
}
use torrent_tv.Prelude.Int.{ℤ, negsuc, ltb_ℤ}
use torrent_tv.Prelude.Bytes.{Bytes, codes, eqb, eqb_iff, lower, trim_space}
use torrent_tv.Prelude.Trims.{trim_space-trim_space, lower-trim_space}
use torrent_tv.Playback.{Answer, found, no_rows, failed, household_profile}

pub record PlaybackPreferences : Type 0 where
  pub profile_id : Bytes
  pub source_id : Bytes
  pub audio_language : Bytes
  pub audio_track_index : ℤ
  pub subtitle_language : Bytes
  pub subtitle_provider : Bytes
  pub subtitle_candidate_id : Bytes
  pub subtitle_mode : Bytes
  pub updated_at : Time

-- The preferred languages of the settings.
pub record Languages : Type 0 where
  pub audio : Bytes
  pub subtitle : Bytes

pub data Reply : Type 0 where
  replies : PlaybackPreferences → Reply
  bad_track bad_mode no_selection : Reply
  errs : Bytes → Reply

abbrev pub defaults : Languages → Bytes → PlaybackPreferences
defaults languages id = record {
  profile_id = household_profile;
  source_id = id;
  audio_language = languages.audio;
  audio_track_index = negsuc 0;
  subtitle_language = languages.subtitle;
  subtitle_provider = [];
  subtitle_candidate_id = [];
  subtitle_mode = codes "auto";
  updated_at = 0;
}

-- What clients are told, with the answer of the repository.
unfoldable pub playback_preferences : Languages → Bytes → Answer PlaybackPreferences → Reply
playback_preferences languages id (found p) = replies p
playback_preferences languages id no_rows = replies (defaults languages id)
playback_preferences languages id (failed e) = errs e

abbrev or_default : Bytes → Bytes → Bytes
or_default value default = if null value then default else value

abbrev pub normalized : Languages → PlaybackPreferences → PlaybackPreferences
normalized languages v = record v {
  audio_language = or_default (lower (trim_space v.audio_language)) languages.audio;
  subtitle_language = or_default (lower (trim_space v.subtitle_language)) languages.subtitle;
  subtitle_provider = lower (trim_space v.subtitle_provider);
  subtitle_candidate_id = trim_space v.subtitle_candidate_id;
  subtitle_mode = or_default (lower (trim_space v.subtitle_mode)) (codes "auto");
}

abbrev pub stamped : Time → Bytes → PlaybackPreferences → PlaybackPreferences
stamped now id v = record v { profile_id = household_profile; source_id = id; updated_at = now }

abbrev pub saved_preferences : Option Bytes → PlaybackPreferences → Reply
saved_preferences none v = replies v
saved_preferences (some e) v = errs e

abbrev is_unknown : Bytes → Bool
is_unknown mode =
    not (eqb mode (codes "auto"))
    && not (eqb mode (codes "off"))
    && not (eqb mode (codes "selected"))

-- Behind the normalization.
unfoldable pub check_preferences : Time → Bytes → Option Bytes → PlaybackPreferences → Reply
unfolding eqb
check_preferences now id err v =
    if ltb_ℤ v.audio_track_index (negsuc 0)
    then bad_track
    else if is_unknown v.subtitle_mode
    then bad_mode
    else if eqb v.subtitle_mode (codes "selected")
        && (null v.subtitle_provider || null v.subtitle_candidate_id)
    then no_selection
    else saved_preferences err (stamped now id v)

-- With the error of `GetDownload` and that of the save.
unfoldable pub update_playback_preferences :
    Time → Languages → Bytes → Option Bytes → Option Bytes → PlaybackPreferences → Reply
unfolding check_preferences lower trim_space
update_playback_preferences now languages id (some e) err v = errs e
update_playback_preferences now languages id none err v =
    check_preferences now id err (normalized languages v)

abbrev pub IsMode : Bytes → Type 0
IsMode mode = (mode ≡ codes "auto") ⊎ ((mode ≡ codes "off") ⊎ (mode ≡ codes "selected"))

-- A selection names its provider and its candidate.
abbrev pub IsSelection : PlaybackPreferences → Type 0
IsSelection v = (null v.subtitle_provider ≡ false) × (null v.subtitle_candidate_id ≡ false)

abbrev pub IsChecked : Time → Bytes → Option Bytes → PlaybackPreferences → Reply → Type 0
IsChecked now id err v (replies p) =
    (err ≡ none)
    × (p ≡ stamped now id v)
    × (ltb_ℤ p.audio_track_index (negsuc 0) ≡ false)
    × IsMode p.subtitle_mode
    × (p.subtitle_mode ≡ codes "selected" → IsSelection p)
IsChecked now id err v bad_track = ltb_ℤ v.audio_track_index (negsuc 0) ≡ true
IsChecked now id err v bad_mode = ¬ IsMode v.subtitle_mode
IsChecked now id err v no_selection = (v.subtitle_mode ≡ codes "selected") × ¬ IsSelection v
IsChecked now id err v (errs e) = err ≡ some e

clash : {b : Bool} → b ≡ false → b ≡ true → ⊥
clash p q = cc

Mode-cases :
    (mode : Bytes)
    → (IsMode mode × (is_unknown mode ≡ false)) ⊎ ((¬ IsMode mode) × (is_unknown mode ≡ true))
Mode-cases mode = elim (Bool-cases (eqb mode (codes "auto"))) [
  | inl a ↦ inl (inl ((eqb_iff mode (codes "auto")).0 a), rw a refl)
  | inr a ↦ elim (Bool-cases (eqb mode (codes "off"))) [
    | inl b ↦ inl (inr (inl ((eqb_iff mode (codes "off")).0 b)), rw (a, b) refl)
    | inr b ↦ elim (Bool-cases (eqb mode (codes "selected"))) [
      | inl c ↦ inl (inr (inr ((eqb_iff mode (codes "selected")).0 c)), rw (a, b, c) refl)
      | inr c ↦ inr (
        λ m. elim m [
          | inl x ↦ clash a ((eqb_iff mode (codes "auto")).1 x)
          | inr (inl x) ↦ clash b ((eqb_iff mode (codes "off")).1 x)
          | inr (inr x) ↦ clash c ((eqb_iff mode (codes "selected")).1 x)
        ],
        rw (a, b, c) refl,
      )
    ]
  ]
]

selection_lem :
    (v : PlaybackPreferences)
    → (null v.subtitle_provider || null v.subtitle_candidate_id) ≡ false
    → IsSelection v
selection_lem v h = ground arith

unselected :
    (v : PlaybackPreferences)
    → (null v.subtitle_provider || null v.subtitle_candidate_id) ≡ true
    → ¬ IsSelection v
unselected v h (a, b) = ground arith

saved-IsChecked :
    (now : Time) (id : Bytes) (err : Option Bytes) (v : PlaybackPreferences)
    → ltb_ℤ v.audio_track_index (negsuc 0) ≡ false
    → IsMode v.subtitle_mode
    → (v.subtitle_mode ≡ codes "selected" → IsSelection v)
    → IsChecked now id err v (saved_preferences err (stamped now id v))
saved-IsChecked now id none v t m h = (refl, refl, t, m, h)
saved-IsChecked now id (some e) v t m h = refl

check_preferences-IsChecked :
    (now : Time) (id : Bytes) (err : Option Bytes) (v : PlaybackPreferences)
    → IsChecked now id err v (check_preferences now id err v)
unfolding check_preferences
check_preferences-IsChecked now id err v =
    elim (Bool-cases (ltb_ℤ v.audio_track_index (negsuc 0))) [
      | inl below ↦ rw (below, check_preferences) below
      | inr t ↦ elim (Mode-cases v.subtitle_mode) [
        | inr (n, u) ↦ rw (t, u, check_preferences) n
        | inl (m, u) ↦ elim (Bool-cases (eqb v.subtitle_mode (codes "selected"))) [
          | inr other ↦
              rw (t, u, other, check_preferences)
                (saved-IsChecked now id err v t m
                  (λ s. absurd (clash other ((eqb_iff v.subtitle_mode (codes "selected")).1 s))))
          | inl s ↦ elim (Bool-cases (null v.subtitle_provider || null v.subtitle_candidate_id)) [
            | inl blank ↦
                rw (t, u, s, blank, check_preferences)
                  ((eqb_iff v.subtitle_mode (codes "selected")).0 s, unselected v blank)
            | inr full ↦
                rw (t, u, s, full, check_preferences)
                  (saved-IsChecked now id err v t m (λ k. selection_lem v full))
          ]
        ]
      ]
    ]

-- For a download that exists: the preferences are refused for a track below -1, else for an unknown
-- subtitle mode, else for a selection without its provider or candidate, or by the save. What is
-- replied otherwise are the normalized ones, with none of these faults.
pub update_playback_preferences-IsChecked :
    (now : Time) (languages : Languages) (id : Bytes) (err : Option Bytes) (v : PlaybackPreferences)
    → IsChecked now id err
        (normalized languages v)
        (update_playback_preferences now languages id none err v)
unfolding update_playback_preferences
update_playback_preferences-IsChecked now languages id err v =
    check_preferences-IsChecked now id err (normalized languages v)

abbrev is_reply : Reply → Bool
is_reply (replies p) = true
is_reply bad_track = false
is_reply bad_mode = false
is_reply no_selection = false
is_reply (errs e) = false

abbrev preferences_of : PlaybackPreferences → Reply → PlaybackPreferences
preferences_of q (replies p) = p
preferences_of q bad_track = q
preferences_of q bad_mode = q
preferences_of q no_selection = q
preferences_of q (errs e) = q

bad : ¬ (false ≡ true)
bad h = cc

gate_open :
    (a b c : Bool) (q p : PlaybackPreferences)
    → (if a then bad_track else if b then bad_mode else if c then no_selection else replies q)
      ≡ replies p
    → (q ≡ p) × (a ≡ false) × (b ≡ false) × (c ≡ false)
gate_open false false false q p h = (ap (preferences_of q) h, refl, refl, refl)
gate_open true b c q p h = absurd (bad (ap is_reply h))
gate_open false true c q p h = absurd (bad (ap is_reply h))
gate_open false false true q p h = absurd (bad (ap is_reply h))

or_default_lem :
    (a d : Bytes)
    → lower (trim_space d) ≡ d
    → or_default (lower (trim_space (or_default (lower (trim_space a)) d))) d
      ≡ or_default (lower (trim_space a)) d
or_default_lem a d h = elim (Bool-cases (null (lower (trim_space a)))) [
  | inl blank ↦ rw (blank, h) (same_default (null d) d)
  | inr filled ↦ rw (filled, lower-trim_space a, filled) refl
]
  where
    same_default : (b : Bool) (d : Bytes) → (if b then d else d) ≡ d
    same_default true d = refl
    same_default false d = refl

normalized_twice :
    (languages : Languages) (now : Time) (id : Bytes) (v : PlaybackPreferences)
    → lower (trim_space languages.audio) ≡ languages.audio
    → lower (trim_space languages.subtitle) ≡ languages.subtitle
    → normalized languages (stamped now id (normalized languages v))
      ≡ stamped now id (normalized languages v)
unfolding lower trim_space
normalized_twice languages now id v a s =
    rw
      (
        or_default_lem v.audio_language languages.audio a,
        or_default_lem v.subtitle_language languages.subtitle s,
        lower-trim_space v.subtitle_provider,
        trim_space-trim_space v.subtitle_candidate_id,
        or_default_lem v.subtitle_mode (codes "auto") refl,
      )
      refl

-- Preferences that the service replied can be sent back: if the languages of the settings are trimmed
-- and in lower case, the same preferences are replied again, with the time of the new request.
pub update_playback_preferences_again :
    (languages : Languages) (now later : Time) (id : Bytes) (v p : PlaybackPreferences)
    → lower (trim_space languages.audio) ≡ languages.audio
    → lower (trim_space languages.subtitle) ≡ languages.subtitle
    → update_playback_preferences now languages id none none v ≡ replies p
    → update_playback_preferences later languages id none none p
      ≡ replies (record p { updated_at = later })
unfolding update_playback_preferences check_preferences
update_playback_preferences_again languages now later id v p a s h =
    let w = normalized languages v in
    let (same, t, m, c) =
      gate_open (ltb_ℤ w.audio_track_index (negsuc 0)) (is_unknown w.subtitle_mode)
        (eqb w.subtitle_mode (codes "selected")
          && (null w.subtitle_provider || null w.subtitle_candidate_id))
        (stamped now id w) p h in
    subst
      (λ q.
        update_playback_preferences later languages id none none q
        ≡ replies (record q { updated_at = later }))
      same
      (ap (check_preferences later id none) (normalized_twice languages now id v a s)
        ∙ rw (t, m, c) refl)
