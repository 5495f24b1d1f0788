-- ===== src/Playback/Progress.antt =====
-- How far a household is in a source, and when it has watched it.
use torrent_tv.Prelude.{
  ℕ, ◌*◌, ◌+◌, ◌≤◌, ◌<◌, ◌^◌, ◌≡◌, refl, Time, Bool, true, false, not, ◌&&◌, ◌||◌, Option, none,
  some, List, [], ◌∷◌, inl, inr, Bool-cases, ltb, leb, arith, if◌then◌else◌,
}
use torrent_tv.Prelude.Int.{ℤ, pos, negsuc, ltb_ℤ, mul64_pos, pos_part, neg_part}
use native.Mathlib.Nat.{mul-le-mul_left}
use torrent_tv.Prelude.Bytes.{Bytes}
use torrent_tv.Playback.{
  Answer, found, no_rows, failed, PlaybackState, Source, Saved, saved, refused, blank, save, clamp,
  watched_after, progress, update_found, update_playback, with_watched, first_row, set_watched,
  Request, updates, sets_watched, kept, run,
}

-- Inside the file, where its length is known.
abbrev pub IsPlayback : PlaybackState → Type 0
IsPlayback p =
    (neg_part p.position_ms ≡ 0)
    × (neg_part p.duration_ms ≡ 0)
    × (0 < pos_part p.duration_ms → pos_part p.position_ms ≤ pos_part p.duration_ms)

abbrev pub RowIsPlayback : Answer PlaybackState → Type 0
RowIsPlayback (found p) = IsPlayback p
RowIsPlayback no_rows = Unit
RowIsPlayback (failed e) = Unit

abbrev SavedIsPlayback : Saved → Type 0
SavedIsPlayback (saved p) = IsPlayback p
SavedIsPlayback (refused e) = Unit

save-IsPlayback :
    (err : Option Bytes) (p : PlaybackState) → IsPlayback p → SavedIsPlayback (save err p)
save-IsPlayback none p h = h
save-IsPlayback (some e) p h = tt

clamp_lem :
    (a b : ℤ)
    → neg_part a ≡ 0
    → neg_part b ≡ 0
    → (neg_part (clamp a b) ≡ 0) × (0 < pos_part b → pos_part (clamp a b) ≤ pos_part b)
clamp_lem (pos a) (pos b) h k = ground arith
clamp_lem (negsuc a) b h k = absurd (omega arith)
clamp_lem (pos a) (negsuc b) h k = absurd (omega arith)

update_found-IsPlayback :
    (now : Time) (threshold : ℤ) (id : Bytes) (d : Answer Source) (row : Answer PlaybackState)
    (err : Option Bytes)
    → (position duration : ℤ) → neg_part position ≡ 0
    → neg_part duration ≡ 0
    → (0 < pos_part duration → pos_part position ≤ pos_part duration)
    → SavedIsPlayback (update_found now threshold id d row err position duration)
update_found-IsPlayback now threshold id (failed e) row err position duration h k le = tt
update_found-IsPlayback now threshold id no_rows row err position duration h k le = tt
update_found-IsPlayback now threshold id (found d) (failed e) err position duration h k le = tt
update_found-IsPlayback now threshold id (found d) no_rows err position duration h k le =
    save-IsPlayback err (progress now threshold id d blank position duration) (h, k, le)
update_found-IsPlayback now threshold id (found d) (found p) err position duration h k le =
    save-IsPlayback err (progress now threshold id d p position duration) (h, k, le)

non_negative : (a : ℤ) → ltb_ℤ a (pos 0) ≡ false → neg_part a ≡ 0
non_negative (pos a) h = refl
non_negative (negsuc a) h = ground arith

update_playback-IsPlayback :
    (now : Time) (threshold : ℤ) (id : Bytes) (d : Answer Source) (row : Answer PlaybackState)
    (err : Option Bytes)
    → (position duration : ℤ)
    → SavedIsPlayback (update_playback now threshold id d row err position duration)
unfolding update_playback
update_playback-IsPlayback now threshold id d row err position duration =
    elim (Bool-cases (ltb_ℤ position (pos 0))) [
      | inl below ↦ rw below tt
      | inr a ↦ elim (Bool-cases (ltb_ℤ duration (pos 0))) [
        | inl below ↦ rw (a, below) tt
        | inr b ↦
            let (h, le) =
              clamp_lem position duration (non_negative position a) (non_negative duration b) in
            rw (a, b)
              (update_found-IsPlayback now threshold id d row err (clamp position duration) duration
                h (non_negative duration b) le)
      ]
    ]

with_watched-IsPlayback :
    (now : Time) (watched : Bool) (p : PlaybackState)
    → IsPlayback p
    → IsPlayback (with_watched now watched p)
with_watched-IsPlayback now false p (h, k, le) = (refl, k, λ lt. omega arith)
with_watched-IsPlayback now true p (h, k, le) = elim (Bool-cases (ltb_ℤ (pos 0) p.duration_ms)) [
  | inl long ↦ rw long (k, k, λ lt. omega arith)
  | inr short ↦ rw short (h, k, le)
]

set_watched-IsPlayback :
    (now : Time) (id : Bytes) (d : Answer Source) (row : Answer PlaybackState) (err : Option Bytes)
    (watched : Bool)
    → RowIsPlayback row
    → SavedIsPlayback (set_watched now id d row err watched)
unfolding set_watched
set_watched-IsPlayback now id d (failed e) err watched v = tt
set_watched-IsPlayback now id d (found p) err watched v =
    save-IsPlayback err (with_watched now watched p) (with_watched-IsPlayback now watched p v)
set_watched-IsPlayback now id (failed e) no_rows err watched v = tt
set_watched-IsPlayback now id no_rows no_rows err watched v = tt
set_watched-IsPlayback now id (found d) no_rows err watched v =
    save-IsPlayback err (with_watched now watched (first_row id d))
      (with_watched-IsPlayback now watched (first_row id d) (refl, refl, λ lt. omega arith))

kept-IsPlayback :
    (row : Answer PlaybackState) (s : Saved)
    → RowIsPlayback row
    → SavedIsPlayback s
    → RowIsPlayback (kept row s)
kept-IsPlayback row (saved p) v h = h
kept-IsPlayback row (refused e) v h = v

-- Whatever clients ask of a source that starts without a row or with one inside its file, its row
-- stays inside the file: position and duration are not negative, and the position is no greater than
-- the duration where there is one.
pub run-IsPlayback :
    (id : Bytes) (requests : List Request) (row : Answer PlaybackState)
    → RowIsPlayback row
    → RowIsPlayback (run id requests row)
unfolding run
run-IsPlayback id [] row v = v
run-IsPlayback id (updates now threshold d err position duration ∷ later) row v =
    run-IsPlayback id later _ (
      kept-IsPlayback row _ v
        (update_playback-IsPlayback now threshold id d row err position duration))
run-IsPlayback id (sets_watched now d err watched ∷ later) row v =
    run-IsPlayback id later _
      (kept-IsPlayback row _ v (set_watched-IsPlayback now id d row err watched v))

-- The same in exact numbers.
abbrev pub watched_exactly : ℕ → ℕ → ℕ → Bool → Bool
watched_exactly threshold position duration before =
    (ltb 0 duration && leb (duration * threshold) (position * 100))
    || (before
        && not (ltb 0 position && ltb 0 duration && ltb (position * 200) (duration * threshold)))

by_products :
    (d m x y z : ℕ) (before : Bool)
    → (if ltb (0 + 0) (d + 0) && not (ltb (y + 0) (x + 0))
        then true
        else if before && ltb (0 + 0) (m + 0) && ltb (0 + 0) (d + 0) && ltb (z + 0) (x + 0)
        then false
        else before)
      ≡ ((ltb 0 d && leb x y) || (before && not (ltb 0 m && ltb 0 d && ltb z x)))
by_products d m x y z before = ground arith

-- Behind an update of at most 2^55 milliseconds with a threshold of at most 100 percent, no product
-- wraps: a source counts as watched exactly if the position is at the threshold or above, or if it
-- did before, except that a position above 0 and below half the threshold takes it back.
pub watched_after_exact :
    (threshold position duration : ℕ) (before : Bool)
    → threshold ≤ 100
    → position ≤ 2 ^ 55
    → duration ≤ 2 ^ 55
    → watched_after (pos threshold) (pos position) (pos duration) before
      ≡ watched_exactly threshold position duration before
unfolding watched_after
watched_after_exact threshold position duration before t p d =
    rw
      (
        mul64_pos position 100 (omega arith),
        mul64_pos duration threshold (omega (arith, mul-le-mul_left duration t)),
        mul64_pos position 200 (omega arith),
      )
      (by_products duration position (duration * threshold) (position * 100) (position * 200)
        before)
