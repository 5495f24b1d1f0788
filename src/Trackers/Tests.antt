-- ===== src/Trackers/Tests.antt =====
-- A registry with one tracker.
use torrent_tv.Prelude.{false, refl, Bool, true, some, [], ◌∷◌}
use torrent_tv.Prelude.Bytes.{codes, trim_space}
use torrent_tv.Trackers.{
  Adapter, TrackerRegistration, TrackerRegistry, blank, register, checked, add_all,
  new_tracker_registry,
}
use torrent_tv.Trackers.Registry.{IsRegistry, new_tracker_registry-IsRegistry}

abbrev adapter : Adapter
adapter = record {
  id = codes "tpb ";
  name = codes "Pirate Bay";
  capabilities = record {
    imdb_search = false;
    season_filter = false;
    episode_filter = false;
    categories = true;
  };
}

abbrev pirate_bay : TrackerRegistration Bool
pirate_bay = record {
  adapter = some adapter;
  enabled = some (λ s. s);
  configured = some (λ s. true);
}

abbrev only : TrackerRegistry Bool
only =
    register (codes "tpb") (record { adapter = adapter; enabled = λ s. s; configured = λ s. true })
      blank

only-IsRegistry : IsRegistry only
unfolding new_tracker_registry add_all checked trim_space
only-IsRegistry = new_tracker_registry-IsRegistry (pirate_bay ∷ []) only refl

new_tracker_registry-IsRegistry_example : IsRegistry only
unfolding new_tracker_registry add_all checked trim_space
new_tracker_registry-IsRegistry_example =
    new_tracker_registry-IsRegistry (pirate_bay ∷ []) only refl
