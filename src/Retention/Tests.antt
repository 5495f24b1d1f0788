-- ===== src/Retention/Tests.antt =====
-- Runs of the retention model. A `float64` is a number of gibibytes or of hundredths here, and
-- `sort.Slice` is an insertion sort.
use torrent_tv.Prelude.{
  ℕ, ◌*◌, ◌≡◌, refl, ap, ◌∙◌, Bool, true, false, none, some, List, [], ◌∷◌, ◌↔◌, inl, inr, ltb, leb,
  In, Bool-cases, arith, if◌then◌else◌,
}
use torrent_tv.Prelude.Int.{pos, add64}
use torrent_tv.Prelude.Bytes.{Bytes, codes, eqb, cut}
use torrent_tv.Retention.Household.{
  RetentionHousehold, release_ids, retention_household, route_facts,
}
use torrent_tv.Retention.Survey.{
  Round, removed, retention_survey, group_rows, add_routes, find_household, add_row, add_owner,
  owner, make_route,
}
use torrent_tv.Retention.Survey.Routes.{IsSurvey, retention_survey-IsSurvey}
use torrent_tv.Retention.Admission.{
  IsAdmission, ensure_allocation_room, ensure_allocation_room-IsAdmission,
}
use torrent_tv.Retention.{
  less, Float, RetentionRoute, Download, DownloadStatus, Settings, RetentionPlan,
}
use torrent_tv.Retention.Order.{IsStrictTotal, less-IsStrictTotal}
use torrent_tv.Retention.Victim.{SliceSort, IsSorted, Chosen, victim_of, victim_of-Chosen}

abbrev float : Float ℕ
float = record { lt = ltb; le = leb; nought = 0; one = 100; gibi_bytes = λ n. pos (n * 1073741824) }

module _ {F : Type 0} (lt : RetentionRoute F → RetentionRoute F → Bool) where
  abbrev insert : RetentionRoute F → List (RetentionRoute F) → List (RetentionRoute F)
  insert x [] = x ∷ []
  insert x (y ∷ ys) = if lt y x then y ∷ insert x ys else x ∷ y ∷ ys

  abbrev insertion_sort : List (RetentionRoute F) → List (RetentionRoute F)
  insertion_sort [] = []
  insertion_sort (x ∷ xs) = insert x (insertion_sort xs)

  insert-In :
      (r x : RetentionRoute F) (xs : List (RetentionRoute F)) → In r (insert x xs) ↔ In r (x ∷ xs)
  insert-In r x [] = ((λ i. i), (λ i. i))
  insert-In r x (y ∷ ys) = elim (Bool-cases (lt y x)) [
    | inl e ↦ rw e (past (insert-In r x ys))
    | inr e ↦ rw e ((λ i. i), (λ i. i))
  ]
    where
      past : In r (insert x ys) ↔ In r (x ∷ ys) → In r (y ∷ insert x ys) ↔ In r (x ∷ y ∷ ys)
      past (to, from) = (
        (λ i. elim i [
          | inl e ↦ inr (inl e)
          | inr j ↦ elim (to j) [ inl e ↦ inl e | inr k ↦ inr (inr k) ]
        ]),
        (λ i. elim i [
          | inl e ↦ inr (from (inl e))
          | inr (inl e) ↦ inl e
          | inr (inr k) ↦ inr (from (inr k))
        ]),
      )

  insertion_sort-In :
      (xs : List (RetentionRoute F)) (r : RetentionRoute F) → In r (insertion_sort xs) ↔ In r xs
  insertion_sort-In [] r = ((λ i. i), (λ i. i))
  insertion_sort-In (x ∷ xs) r =
      let step = insert-In r x (insertion_sort xs) in
      let ih = insertion_sort-In xs r in
      (
        (λ i. elim (step.0 i) [ inl e ↦ inl e | inr j ↦ inr (ih.0 j) ]),
        (λ i. step.1 (elim i [ inl e ↦ inl e | inr j ↦ inr (ih.1 j) ])),
      )

  module _ (order : IsStrictTotal lt) where
    not_less : (z y x : RetentionRoute F) → lt z y ≡ false → lt y x ≡ false → lt z x ≡ false
    not_less z y x h k = ground (arith, order.trans y z x, order.ties z y x)

    insert-IsSorted :
        (x : RetentionRoute F) (xs : List (RetentionRoute F))
        → IsSorted lt xs
        → IsSorted lt (insert x xs)
    insert-IsSorted x [] s = ((λ y i. absurd i), tt)
    insert-IsSorted x (y ∷ ys) (first, s) = elim (Bool-cases (lt y x)) [
      | inl e ↦ rw e (
        (λ z i. elim ((insert-In z x ys).0 i) [
          | inl same ↦ ap (λ r. lt r y) same ∙ order.asym y x e
          | inr j ↦ first z j
        ]),
        insert-IsSorted x ys s,
      )
      | inr e ↦ rw e (
        (λ z i. elim i [
          | inl same ↦ ap (λ r. lt r x) same ∙ e
          | inr j ↦ not_less z y x (first z j) e
        ]),
        (first, s),
      )
    ]

    insertion_sort-IsSorted : (xs : List (RetentionRoute F)) → IsSorted lt (insertion_sort xs)
    insertion_sort-IsSorted [] = tt
    insertion_sort-IsSorted (x ∷ xs) =
        insert-IsSorted x (insertion_sort xs) (insertion_sort-IsSorted xs)

abbrev sorter : SliceSort ℕ
sorter = record {
  sort = insertion_sort;
  sort-In = insertion_sort-In;
  sort-IsSorted = λ lt rs o. insertion_sort-IsSorted lt o rs;
}

abbrev row : ℕ → Bytes → Download ℕ
row n engine_id = record {
  id = n ∷ [];
  release_id = codes "r";
  engine_id = engine_id;
  progress = 100;
  leased = false;
  updated_at = n;
}

abbrev sample_rows : List (Download ℕ)
sample_rows =
    row 1 (codes "q:a") ∷ row 2 (codes "q:b") ∷ row 3 (codes "q:a") ∷ row 4 (codes "x:c") ∷ []

abbrev two_gb : DownloadStatus ℕ
two_gb = record { progress = 100; total_bytes = pos 2147483648 }

abbrev registered : Bytes → Bool
registered prefix = eqb prefix (codes "q:")

abbrev quiet : Bytes → Bool
quiet id = false

abbrev sample_round : Round ℕ
sample_round = record {
  lists = true;
  titles = λ ids. some (λ r. codes "t");
  favorites = some [];
  playback = some (record { release_id = codes "r"; watched = true; updated_at = 7 } ∷ []);
  status = λ route. some two_gb;
  free = none;
  removal = λ route. removed;
  lists_rows = true;
  deletes = λ id. true;
}

abbrev sample_settings : Settings ℕ
sample_settings = record {
  allocation_gb = 3;
  reserve_gb = 0;
  eviction_rules = [];
  protect_incomplete = true;
  protect_leased = true;
  protect_favorites = true;
  protect_never_watched = false;
}

abbrev route : Bytes → Download ℕ → List (Download ℕ) → RetentionRoute ℕ
route hash first others = record {
  engine_id = first.engine_id;
  hash = hash;
  first = first;
  others = others;
  status = two_gb;
  favorite = false;
  watched = true;
  last_played = 7;
}

abbrev sample_routes : List (RetentionRoute ℕ)
sample_routes =
    route (codes "a") (row 1 (codes "q:a")) (row 3 (codes "q:a") ∷ [])
    ∷ route (codes "b") (row 2 (codes "q:b")) []
    ∷ []

abbrev sample_plan : RetentionPlan ℕ
sample_plan = record {
  routes = sample_routes;
  stored_bytes = pos 4294967296;
  free = none;
  uncertain_owners = codes "x:" ∷ [];
}

less-IsStrictTotal_example : IsStrictTotal {F = ℕ} (less (codes "largest" ∷ []))
less-IsStrictTotal_example = less-IsStrictTotal (codes "largest" ∷ [])

victim_of-Chosen_example :
    Chosen float sorter quiet sample_settings [] sample_routes
      (victim_of float sorter quiet sample_settings [] sample_routes)
victim_of-Chosen_example = victim_of-Chosen float sorter quiet sample_settings [] sample_routes

retention_survey-IsSurvey_example : IsSurvey registered sample_round sample_rows sample_routes
unfolding retention_survey group_rows add_routes find_household release_ids retention_household
    add_row add_owner owner make_route route_facts eqb cut add64
retention_survey-IsSurvey_example =
    retention_survey-IsSurvey registered sample_round sample_rows sample_plan refl

ensure_allocation_room-IsAdmission_example :
    IsAdmission float sorter registered quiet sample_settings
      (λ n. sample_round)
      (λ n. pos 0)
      (pos 5)
      (ensure_allocation_room float sorter registered quiet sample_settings
        (λ n. sample_round)
        (λ n. pos 0)
        (pos 5)
        5
        sample_rows)
ensure_allocation_room-IsAdmission_example =
    ensure_allocation_room-IsAdmission float sorter registered quiet sample_settings
      (λ n. sample_round) (λ n. pos 0) (pos 5) 5 sample_rows (omega arith)

abbrev household : RetentionHousehold
household = record {
  favorite_titles = λ t. false;
  latest_by_title = λ t. some (record { release_id = codes "r"; watched = true; updated_at = 7 });
  title_by_release = λ r. codes "t";
}
