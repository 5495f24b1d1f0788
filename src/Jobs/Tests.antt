-- ===== src/Jobs/Tests.antt =====
-- Jobs of a catalog with two trackers.
use torrent_tv.Prelude.{◌≡◌, true, false, none, some, [], ◌∷◌}
use torrent_tv.Prelude.Bytes.{codes}
use torrent_tv.Jobs.{running, failed, Job, new_job, Error, enqueue, fail_or_wait, picks, stored}
use torrent_tv.Jobs.Queue.{IsEnqueued, enqueue-IsEnqueued}
use torrent_tv.Jobs.Retry.{picks-fail_or_wait}
use torrent_tv.Jobs.Recovery.{IsRecovered, recover_job, recover_job-IsRecovered}

abbrev latest : Job
latest = new_job (codes "catalog-latest") (codes "Fetch latest releases") 5

abbrev earlier : Job
earlier = record latest { state = failed; attempt = 4 }

enqueue-IsEnqueued_example : IsEnqueued latest (earlier ∷ []) (enqueue latest (earlier ∷ []))
enqueue-IsEnqueued_example = enqueue-IsEnqueued latest (earlier ∷ [])

abbrev limit : Error
limit = record {
  text = codes "rate limited";
  rate_limit = some 90;
  deadline_exceeded = false;
  canceled = false;
}

picks-fail_or_wait_example : picks true 100 (stored (fail_or_wait latest limit 7)) ≡ true
picks-fail_or_wait_example = picks-fail_or_wait true latest limit 7 100

abbrev child_refresh : Job
child_refresh = record latest {
  kind = codes "catalog-title-refresh";
  state = running;
  label = codes "Refresh FileList for dune";
  tracker_id = codes "filelist";
  dedupe_key = codes "catalog-title-refresh:filelist:t1";
}

recover_job-IsRecovered_example :
    IsRecovered (λ id. none) 9 child_refresh (recover_job (λ id. none) 9 child_refresh)
recover_job-IsRecovered_example = recover_job-IsRecovered (λ id. none) 9 child_refresh
