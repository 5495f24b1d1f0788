-- ===== src/Archive/Sizes.antt =====
-- The sum of the sizes that an archive declares.
use torrent_tv.Prelude.{ℕ, ◌+◌, ◌-◌, ◌^◌, ◌<◌, ◌≡◌, refl, ap, ◌∙◌, false, none, arith}
use torrent_tv.Prelude.Int.{pos, negsuc, ltb_ℤ, add64, of_word, to_word, sub_ℕ, ◌+ℤ◌}
use torrent_tv.Archive.{ArchiveRules, account_size}

-- Added to a sum above 0, the largest int64 gives a negative one.
add64_wraps : (e : ℕ) → 0 < e → e < 2 ^ 63 → add64 (pos e) (pos (2 ^ 63 - 1)) ≡ negsuc (2 ^ 63 - e)
unfolding add64 ◌+ℤ◌
add64_wraps e a b = ap (λ z. of_word (to_word z)) whole ∙ wrapped
  where
    whole : sub_ℕ (e + (2 ^ 63 - 1)) (0 + 0) ≡ pos (e + (2 ^ 63 - 1))
    whole = ground arith

    wrapped : of_word (to_word (pos (e + (2 ^ 63 - 1)))) ≡ negsuc (2 ^ 63 - e)
    wrapped = ground arith

above : (l x : ℕ) → ltb_ℤ (pos l) (negsuc x) ≡ false
above l x = ground arith

-- With some content behind it and any limit, a member that declares the largest size of an int64 is
-- accepted, and the sum is negative from then on.
pub account_size_wraps :
    (r : ArchiveRules) (e l : ℕ)
    → r.expanded ≡ pos e
    → r.limits.expanded ≡ pos l
    → 0 < e
    → e < 2 ^ 63
    → ((account_size (pos (2 ^ 63 - 1)) r).0 ≡ none)
      × ((account_size (pos (2 ^ 63 - 1)) r).1.expanded ≡ negsuc (2 ^ 63 - e))
unfolding account_size
account_size_wraps r e l h k a b = rw (h, k, add64_wraps e a b, above l (2 ^ 63 - e)) (refl, refl)
