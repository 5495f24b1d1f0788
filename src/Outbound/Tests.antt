-- ===== src/Outbound/Tests.antt =====
-- A provider that limits the rate.
use torrent_tv.Prelude.{◌≡◌, refl, false, none, some, [], arith, ◌^◌, ◌-◌, ◌*◌}
use torrent_tv.Prelude.Int.{pos, negsuc}
use torrent_tv.Prelude.Bytes.{codes, trim_space, trim_left, trim_right, is_space}
use torrent_tv.Outbound.{
  Clock, Policy, Header, answered, retry_delay, max_delay_of, attempts_of, do_request,
}
use torrent_tv.Outbound.Attempts.{Bounded, do_request-Bounded, retry_delay_wraps}

abbrev clock : Clock
clock = record {
  atoi = λ raw. some (pos 10000000000);
  until_time = λ raw. none;
  until_unix = λ raw. none;
}

abbrev policy : Policy
policy = record { attempts = pos 4; max_inline_delay = pos 0 }

abbrev header : Header
header = record { retry_after = codes " 10000000000"; rate_limit_reset = [] }

do_request-Bounded_example :
    Bounded
      (max_delay_of clock policy)
      (attempts_of clock policy)
      (do_request clock (λ n. answered 429 header) (λ n. false) (λ n. 0) policy)
do_request-Bounded_example =
    do_request-Bounded clock (λ n. answered 429 header) (λ n. false) (λ n. 0) policy

retry_delay_wraps_example :
    retry_delay clock (λ n. 0) header 1 ≡ negsuc (2 ^ 64 - 1 - 10000000000 * 10 ^ 9)
unfolding trim_space trim_left trim_right is_space
retry_delay_wraps_example =
    retry_delay_wraps clock (λ n. 0) header 1 10000000000 refl refl (omega arith) (omega arith)
