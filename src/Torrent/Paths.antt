-- ===== src/Torrent/Paths.antt =====
-- The paths that `safeTorrentPath` lets through.
use torrent_tv.Prelude.{
  ℕ, ◌≡◌, ◌≢◌, subst, refl, ap, ◌∙◌, Bool, true, false, ◌||◌, inl, inr, none, some, List, [], ◌∷◌,
  map, any, null, if◌then◌else◌, arith, In,
}
use torrent_tv.Prelude.Bytes.{Bytes, codes, eqb}
use torrent_tv.Prelude.Texts.{drop_left, drop_right, split, has_byte}
use torrent_tv.Torrent.Files.{forward, is_slash, trimmed, is_unsafe, safe_torrent_path}

-- A path that stays below the directory that it is joined to: it has no backslash, and each of its
-- parts is a name that does not lead upwards or nowhere.
abbrev pub IsBelow : Bytes → Type 0
IsBelow path =
    (has_byte path b'\\' ≡ false)
    × ((part : Bytes)
        → In part (split b'/' path)
        → (part ≢ []) × (part ≢ codes ".") × (part ≢ codes ".."))

or_false : (a b : Bool) → (a || b) ≡ false → b ≡ false
or_false true b k = absurd cc
or_false false b k = k

any-In :
    (p : Bytes → Bool) (xs : List Bytes) → any p xs ≡ false → (x : Bytes) → In x xs → p x ≡ false
any-In p [] h x i = absurd i
any-In p (y ∷ ys) h x (inl e) = ap p e ∙ first (p y) (any p ys) h
  where
    first : (a b : Bool) → (a || b) ≡ false → a ≡ false
    first true b k = k
    first false b k = refl
any-In p (y ∷ ys) h x (inr i) = any-In p ys (or_false (p y) (any p ys) h) x i

is_unsafe_lem :
    (part : Bytes) → is_unsafe part ≡ false → (part ≢ []) × (part ≢ codes ".") × (part ≢ codes "..")
unfolding eqb
is_unsafe_lem part h =
    (λ e. clash [] refl e, λ e. clash (codes ".") refl e, λ e. clash (codes "..") refl e)
  where
    clash : (name : Bytes) → is_unsafe name ≡ true → part ≢ name
    clash name k e = cc

map-forward : (s : Bytes) → has_byte (map forward s) b'\\' ≡ false
unfolding has_byte
map-forward [] = refl
map-forward (c ∷ s) = ground (arith, map-forward s)

drop_left-has_byte :
    (p : ℕ → Bool) (s : Bytes) (b : ℕ) → has_byte s b ≡ false → has_byte (drop_left p s) b ≡ false
unfolding drop_left has_byte
drop_left-has_byte p [] b h = h
drop_left-has_byte p (c ∷ s) b h = ground (arith, drop_left-has_byte p s b)

drop_right-has_byte :
    (p : ℕ → Bool) (s : Bytes) (b : ℕ) → has_byte s b ≡ false → has_byte (drop_right p s) b ≡ false
unfolding drop_right has_byte
drop_right-has_byte p [] b h = h
drop_right-has_byte p (c ∷ s) b h = ground (arith, drop_right-has_byte p s b)

trimmed-IsBelow :
    (path : Bytes) → any is_unsafe (split b'/' (trimmed path)) ≡ false → IsBelow (trimmed path)
unfolding trimmed
trimmed-IsBelow path h = (
  drop_right-has_byte is_slash (drop_left is_slash (map forward path)) b'\\'
      (drop_left-has_byte is_slash (map forward path) b'\\' (map-forward path)),
  λ part i. is_unsafe_lem part (any-In is_unsafe (split b'/' (trimmed path)) h part i),
)

pub safe_torrent_path-IsBelow :
    (path clean : Bytes) → safe_torrent_path path ≡ some clean → IsBelow clean
unfolding safe_torrent_path
safe_torrent_path-IsBelow path clean e =
    by_test (null (trimmed path) || any is_unsafe (split b'/' (trimmed path))) refl e
  where
    by_test :
        (b : Bool)
        → (null (trimmed path) || any is_unsafe (split b'/' (trimmed path))) ≡ b
        → (if b then none else some (trimmed path)) ≡ some clean
        → IsBelow clean
    by_test true t k = absurd cc
    by_test false t k = below clean (content k)
      where
        parts_safe : any is_unsafe (split b'/' (trimmed path)) ≡ false
        parts_safe = or_false (null (trimmed path)) (any is_unsafe (split b'/' (trimmed path))) t

        below : (q : Bytes) → trimmed path ≡ q → IsBelow q
        below q m = subst IsBelow m (trimmed-IsBelow path parts_safe)

        content : some (trimmed path) ≡ some clean → trimmed path ≡ clean
        content m = cc
