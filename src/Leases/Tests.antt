-- ===== src/Leases/Tests.antt =====
-- One stream that starts and whose flag is written.
use torrent_tv.Prelude.{◌≡◌, refl, true, arith}
use torrent_tv.Prelude.Bytes.{Bytes, codes, eqb}
use torrent_tv.Leases.{
  lease_held, acquires, Write, System, started, count_up, enter, written, acquire, lock, write,
  Reach, here, next,
}
use torrent_tv.Leases.Flag.{flag_settles}

abbrev film : Bytes
film = codes "d"

abbrev held_write : Write
held_write = record { call = acquires; id = film; held = true }

abbrev streaming : System
streaming = written held_write (enter acquires film (count_up film started))

streaming-Reach : Reach streaming
unfolding count_up enter eqb
streaming-Reach =
    next {s = enter acquires film (count_up film started)}
      (next {s = count_up film started} (next {s = started} here (acquire film))
        (lock acquires film (omega arith) refl))
      (write held_write refl)

flag_settles_example : streaming.flags film ≡ lease_held streaming.counts film
unfolding count_up enter written eqb
flag_settles_example = flag_settles {s = streaming} film streaming-Reach refl refl refl
