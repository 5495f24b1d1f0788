-- ===== src/Prelude/Comparators.antt =====
-- Three-way comparators, as `cmp.Compare` and `time.Time.Compare` return them, and their
-- lexicographic composition.
use Prim.Native.Nat.{compare, Ordering}
use torrent_tv.Prelude.{ℕ, ◌+◌, ◌≡◌, refl, Bool, true, false, [], ◌∷◌, arith}
use torrent_tv.Prelude.Int.{ℤ, pos_part, neg_part}
use torrent_tv.Prelude.Bytes.{Bytes}
pub use Prim.Native.Nat.{Ordering}

abbrev pub swap : Ordering → Ordering
swap Ordering.lt = Ordering.gt
swap Ordering.eq = Ordering.eq
swap Ordering.gt = Ordering.lt

abbrev pub is_less : Ordering → Bool
is_less Ordering.lt = true
is_less Ordering.eq = false
is_less Ordering.gt = false

-- The first comparator decides, and the second where the first ties.
abbrev pub or_else : Ordering → Ordering → Ordering
or_else Ordering.lt c = Ordering.lt
or_else Ordering.eq c = c
or_else Ordering.gt c = Ordering.gt

pub record IsComparator {ℓ} {A : Type ℓ} (cmp : A → A → Ordering) : Type ℓ where
  pub flip : (a b : A) → cmp b a ≡ swap (cmp a b)
  pub trans : (a b c : A) → cmp a b ≡ Ordering.lt → cmp b c ≡ Ordering.lt → cmp a c ≡ Ordering.lt
  pub ties : (a b c : A) → cmp a b ≡ Ordering.eq → cmp a c ≡ cmp b c

abbrev pub compare_nat : ℕ → ℕ → Ordering
compare_nat = compare

abbrev pub compare_int : ℤ → ℤ → Ordering
compare_int a b = compare (pos_part a + neg_part b) (pos_part b + neg_part a)

-- The order of strings: byte by byte, a prefix first.
unfoldable pub compare_bytes : Bytes → Bytes → Ordering
compare_bytes [] [] = Ordering.eq
compare_bytes [] (y ∷ ys) = Ordering.lt
compare_bytes (x ∷ xs) [] = Ordering.gt
compare_bytes (x ∷ xs) (y ∷ ys) = or_else (compare x y) (compare_bytes xs ys)

compare_bytes-flip : (a b : Bytes) → compare_bytes b a ≡ swap (compare_bytes a b)
unfolding compare_bytes
compare_bytes-flip [] [] = refl
compare_bytes-flip [] (y ∷ ys) = refl
compare_bytes-flip (x ∷ xs) [] = refl
compare_bytes-flip (x ∷ xs) (y ∷ ys) = ground (arith, compare_bytes-flip xs ys)

pub compare_bytes-eq : (a b : Bytes) → compare_bytes a b ≡ Ordering.eq → a ≡ b
unfolding compare_bytes
compare_bytes-eq [] [] h = refl
compare_bytes-eq [] (y ∷ ys) h = cc
compare_bytes-eq (x ∷ xs) [] h = cc
compare_bytes-eq (x ∷ xs) (y ∷ ys) h = ground (arith, compare_bytes-eq xs ys)

compare_bytes_trans :
    (a b c : Bytes)
    → compare_bytes a b ≡ Ordering.lt
    → compare_bytes b c ≡ Ordering.lt
    → compare_bytes a c ≡ Ordering.lt
unfolding compare_bytes
compare_bytes_trans [] [] c h k = cc
compare_bytes_trans [] (y ∷ ys) [] h k = cc
compare_bytes_trans [] (y ∷ ys) (z ∷ zs) h k = refl
compare_bytes_trans (x ∷ xs) [] c h k = cc
compare_bytes_trans (x ∷ xs) (y ∷ ys) [] h k = cc
compare_bytes_trans (x ∷ xs) (y ∷ ys) (z ∷ zs) h k =
    ground (arith, compare_bytes_trans xs ys zs, compare_bytes-eq xs ys, compare_bytes-eq ys zs)

pub compare_bytes-IsComparator : IsComparator compare_bytes
compare_bytes-IsComparator = record {
  flip = compare_bytes-flip;
  trans = compare_bytes_trans;
  ties = λ a b c e. rw (compare_bytes-eq a b e);
}

module _ {ℓ} {A : Type ℓ} where
  -- A comparator by a key.
  pub key-IsComparator {κ} :
      {K : Type κ} (key : A → K) (cmp : K → K → Ordering)
      → IsComparator cmp
      → IsComparator (λ (a b : A). cmp (key a) (key b))
  key-IsComparator key cmp v = record {
    flip = λ a b. v.flip (key a) (key b);
    trans = λ a b c. v.trans (key a) (key b) (key c);
    ties = λ a b c. v.ties (key a) (key b) (key c);
  }

  pub swap-IsComparator :
      (cmp : A → A → Ordering) → IsComparator cmp → IsComparator (λ (a b : A). cmp b a)
  swap-IsComparator cmp v = record {
    flip = λ a b. v.flip b a;
    trans = λ a b c h k. v.trans c b a k h;
    ties = λ a b c e. ground (arith, v.flip b a, v.flip b c, v.flip a c, v.ties a b c);
  }

  pub or_else-IsComparator :
      (f g : A → A → Ordering)
      → IsComparator f
      → IsComparator g
      → IsComparator (λ (a b : A). or_else (f a b) (g a b))
  or_else-IsComparator f g v w = record {
    flip = λ a b. ground (arith, v.flip a b, w.flip a b);
    trans = λ a b c h k. ground (
      arith,
      v.trans a b c,
      w.trans a b c,
      v.ties a b c,
      v.ties c b a,
      v.flip b c,
      v.flip a c,
      v.flip a b,
    );
    ties = λ a b c e. ground (arith, v.ties a b c, w.ties a b c);
  }

pub compare_nat-IsComparator : IsComparator compare_nat
compare_nat-IsComparator = record {
  flip = λ a b. ground arith;
  trans = λ a b c h k. ground arith;
  ties = λ a b c e. ground arith;
}

pub compare_int-IsComparator : IsComparator compare_int
compare_int-IsComparator = record {
  flip = λ a b. ground arith;
  trans = λ a b c h k. ground arith;
  ties = λ a b c e. ground arith;
}
