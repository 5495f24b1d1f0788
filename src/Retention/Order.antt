-- ===== src/Retention/Order.antt =====
-- The eviction order.
use torrent_tv.Prelude.{◌≡◌, Bool, true, false, not, List, [], ◌∷◌, arith}
use torrent_tv.Prelude.Bytes.{Bytes}
use torrent_tv.Prelude.Comparators.{
  Ordering, IsComparator, compare_nat, compare_int, compare_bytes, compare_bytes-eq,
  compare_nat-IsComparator, compare_int-IsComparator, compare_bytes-IsComparator, key-IsComparator,
  swap-IsComparator, or_else-IsComparator,
}
use torrent_tv.Retention.{
  RetentionRoute, Rule, oldest_completed, newest_completed, least_recently_played,
  most_recently_played, watched_first, never_watched_first, largest, smallest, completed_at,
  last_activity, bool_first, rule_of, compare_by, compare_routes, less,
}

bool_first-IsComparator : IsComparator bool_first
bool_first-IsComparator = record {
  flip = λ a b. ground arith;
  trans = λ a b c h k. ground arith;
  ties = λ a b c e. ground arith;
}

module _ {F : Type 0} where
  compare_by-IsComparator : (rule : Rule) → IsComparator {A = RetentionRoute F} (compare_by rule)
  unfolding compare_by
  compare_by-IsComparator newest_completed =
      swap-IsComparator _ (key-IsComparator completed_at compare_nat compare_nat-IsComparator)
  compare_by-IsComparator least_recently_played =
      key-IsComparator last_activity compare_nat compare_nat-IsComparator
  compare_by-IsComparator most_recently_played =
      swap-IsComparator _ (key-IsComparator last_activity compare_nat compare_nat-IsComparator)
  compare_by-IsComparator watched_first =
      key-IsComparator (λ (r : RetentionRoute F). r.watched) bool_first bool_first-IsComparator
  compare_by-IsComparator never_watched_first =
      key-IsComparator (λ (r : RetentionRoute F). not r.watched) bool_first bool_first-IsComparator
  compare_by-IsComparator largest = swap-IsComparator _ (
      key-IsComparator (λ (r : RetentionRoute F). r.status.total_bytes) compare_int
        compare_int-IsComparator)
  compare_by-IsComparator smallest =
      key-IsComparator (λ (r : RetentionRoute F). r.status.total_bytes) compare_int
        compare_int-IsComparator
  compare_by-IsComparator oldest_completed =
      key-IsComparator completed_at compare_nat compare_nat-IsComparator

  pub compare_routes-IsComparator :
      (rules : List Bytes) → IsComparator {A = RetentionRoute F} (compare_routes rules)
  unfolding compare_routes
  compare_routes-IsComparator [] =
      or_else-IsComparator _ _ (key-IsComparator completed_at compare_nat compare_nat-IsComparator)
        (key-IsComparator (λ (r : RetentionRoute F). r.engine_id) compare_bytes
          compare_bytes-IsComparator)
  compare_routes-IsComparator (rule ∷ rules) =
      or_else-IsComparator _ _ (compare_by-IsComparator (rule_of rule))
        (compare_routes-IsComparator rules)

  -- A tie under every rule is a tie on the engine route.
  compare_routes-eq :
      (rules : List Bytes) (a b : RetentionRoute F)
      → compare_routes rules a b ≡ Ordering.eq
      → a.engine_id ≡ b.engine_id
  unfolding compare_routes
  compare_routes-eq [] a b e = compare_bytes-eq a.engine_id b.engine_id (ground arith)
  compare_routes-eq (rule ∷ rules) a b e = compare_routes-eq rules a b (ground arith)

  -- What `sort.Slice` asks of a less function (a strict weak order), and that it leaves no tie between
  -- different engine routes.
  pub record IsStrictTotal (lt : RetentionRoute F → RetentionRoute F → Bool) : Type 0 where
    pub irrefl : (a : RetentionRoute F) → lt a a ≡ false
    pub trans : (a b c : RetentionRoute F) → lt a b ≡ true → lt b c ≡ true → lt a c ≡ true
    pub asym : (a b : RetentionRoute F) → lt a b ≡ true → lt b a ≡ false
    pub ties : (a b c : RetentionRoute F) → lt a b ≡ false → lt b a ≡ false → lt a c ≡ lt b c
    pub total :
        (a b : RetentionRoute F) → lt a b ≡ false → lt b a ≡ false → a.engine_id ≡ b.engine_id

  -- For every list of rules the eviction order is a strict weak order that ties different engine
  -- routes nowhere.
  pub less-IsStrictTotal : (rules : List Bytes) → IsStrictTotal (less rules)
  unfolding less
  less-IsStrictTotal rules = record {
    irrefl = λ a. ground (arith, v.flip a a);
    trans = λ a b c h k. ground (arith, v.trans a b c);
    asym = λ a b h. ground (arith, v.flip a b);
    ties = λ a b c h k. ground (arith, v.flip a b, v.ties a b c);
    total = λ a b h k. compare_routes-eq rules a b (ground (arith, v.flip a b));
  }
    where
      v : IsComparator {A = RetentionRoute F} (compare_routes rules)
      v = compare_routes-IsComparator rules
