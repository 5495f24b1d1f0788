-- ===== src/Flights/Tests.antt =====
-- Two keys, and a key that is fetched again.
use torrent_tv.Prelude.{ℕ, refl}
use torrent_tv.Prelude.Bytes.{codes, eqb}
use torrent_tv.Flights.{
  Group, zero_group, start_call, move_to, delete_call, fetched, Reach, here, next, starts, answers,
  deletes,
}
use torrent_tv.Flights.Single.{IsFlight, IsAlone, Reach-IsAlone}

abbrev two_fetches : Group ℕ
two_fetches = start_call (codes "b") (start_call (codes "a") zero_group)

abbrev answered : Group ℕ
answered = delete_call 0 7 (move_to 0 (fetched 7) two_fetches)

abbrev fetched_again : Group ℕ
fetched_again = start_call (codes "a") answered

fetched_again-Reach : Reach (zero_group {T = ℕ}) fetched_again
unfolding start_call delete_call eqb
fetched_again-Reach =
    next
      (next
        (next (next (next here (starts (codes "a") refl)) (starts (codes "b") refl))
          (answers 0 7 refl))
        (deletes 0 7 refl))
      (starts (codes "a") refl)

Reach-IsAlone_example : IsFlight fetched_again × IsAlone fetched_again
Reach-IsAlone_example = Reach-IsAlone fetched_again-Reach
