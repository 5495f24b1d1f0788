-- ===== src/Torrent/RoundTrip.antt =====
-- The reader over what the format prescribes for a value.
use torrent_tv.Prelude.{
  ℕ, zero, suc, ◌+◌, ◌*◌, ◌-◌, ◌^◌, ◌≤◌, ◌<◌, ◌≡◌, refl, ap, ◌∙◌, false, Option, some, [], ◌∷◌,
  ◌++◌, length, length-append, ◌==◌, arith,
}
use torrent_tv.Prelude.Int.{ℤ, pos, add64, ltb_ℤ, ◌+ℤ◌}
use torrent_tv.Prelude.Bytes.{Bytes}
use torrent_tv.Torrent.{
  value, done, value_of, text, kind_of, sized, as_list, as_dict, then_read, also, also_entry,
  read_node, read_items, read_entries,
}
use torrent_tv.Torrent.Format.{
  Value, number, string, array, table, Values, nothing, first, Pairs, empty, pair, numeral,
  enc_string, enc, enc_items, enc_pairs, node_of, nodes_of, entries_of, Fits, FitsAll, FitsPairs,
}
use torrent_tv.Torrent.Numerals.{
  AllDigits, digits-AllDigits, NonEmpty, numeral-NonEmpty, AllDigits-NoByte, cut-append,
  take-append, drop-append,
}

-- The fuel that the reader needs.
unfoldable mutual
  weight : Value → ℕ
  weight (number d) = 1
  weight (string v) = 1
  weight (array xs) = suc (weight_items xs)
  weight (table es) = suc (weight_pairs es)

  weight_items : Values → ℕ
  weight_items nothing = 1
  weight_items (first x xs) = suc (weight x + weight_items xs)

  weight_pairs : Pairs → ℕ
  weight_pairs empty = 1
  weight_pairs (pair k x es) = suc (suc (weight x + weight_pairs es))

digit_kind : (c : ℕ) → b'0' ≤ c → c ≤ b'9' → kind_of c ≡ text
digit_kind c l u = ground arith

-- A byte that does not end a list.
abbrev Starts : Bytes → Type 0
Starts [] = ⊥
Starts (c ∷ s) = (c == b'e') ≡ false

numeral-Starts : (s t : Bytes) → AllDigits s → NonEmpty s → Starts (s ++ t)
numeral-Starts [] t d n = absurd n
numeral-Starts (c ∷ s) t (l, u, d) n = ground arith

enc_string-Starts : (v rest : Bytes) → Starts (enc_string v rest)
unfolding enc_string numeral
enc_string-Starts v rest =
    numeral-Starts (numeral (length v)) (b':' ∷ (v ++ rest))
      (digits-AllDigits (suc (length v)) (length v)) (numeral-NonEmpty (length v))

enc-Starts : (x : Value) (rest : Bytes) → Starts (enc x rest)
unfolding enc
enc-Starts (number d) rest = refl
enc-Starts (string v) rest = enc_string-Starts v rest
enc-Starts (array xs) rest = refl
enc-Starts (table es) rest = refl

weight_pos : (x : Value) → 1 ≤ weight x
unfolding weight
weight_pos (number d) = omega arith
weight_pos (string v) = omega arith
weight_pos (array xs) = omega arith
weight_pos (table es) = omega arith

enc_string-length :
    (v rest : Bytes)
    → length (enc_string v rest) ≡ length (numeral (length v)) + 1 + length v + length rest
unfolding enc_string numeral
enc_string-length v rest =
    omega (arith, length-append (numeral (length v)) (b':' ∷ (v ++ rest)), length-append v rest)

mutual
  unfolding enc weight

  weight-le : (x : Value) (rest : Bytes) → weight x + 1 + 2 * length rest ≤ 2 * length (enc x rest)
  weight-le (number d) rest = omega (arith, length-append d (b'e' ∷ rest))
  weight-le (string v) rest = omega (arith, enc_string-length v rest)
  weight-le (array xs) rest = omega (arith, weight_items-le xs (b'e' ∷ rest))
  weight-le (table es) rest = omega (arith, weight_pairs-le es (b'e' ∷ rest))

  weight_items-le :
      (xs : Values) (rest : Bytes)
      → weight_items xs + 2 * length rest ≤ 2 * length (enc_items xs rest) + 1
  weight_items-le nothing rest = omega arith
  weight_items-le (first x xs) rest =
      omega (arith, weight-le x (enc_items xs rest), weight_items-le xs rest)

  weight_pairs-le :
      (es : Pairs) (rest : Bytes)
      → weight_pairs es + 2 * length rest ≤ 2 * length (enc_pairs es rest) + 1
  weight_pairs-le empty rest = omega arith
  weight_pairs-le (pair k x es) rest = omega (
    arith,
    enc_string-length k (enc x (enc_pairs es rest)),
    weight-le x (enc_pairs es rest),
    weight_pairs-le es rest,
  )

enc-length-le : (x : Value) (rest : Bytes) → length rest ≤ length (enc x rest)
enc-length-le x rest = omega (arith, weight-le x rest)

pub add64-in_range : (a b : ℕ) → a + b < 2 ^ 63 → add64 (pos a) (pos b) ≡ pos (a + b)
unfolding add64 ◌+ℤ◌
add64-in_range a b h = ground arith

module _ (atoi : Bytes → Option ℤ) (whole : ℕ) where
  pub text_lem :
      (f : ℕ) (s t : Bytes)
      → AllDigits s
      → NonEmpty s
      → read_node atoi whole (suc f) (s ++ b':' ∷ t) ≡ sized whole (atoi s) t
  unfolding read_node
  text_lem f [] t d n = absurd n
  text_lem f (c ∷ s) t (l, u, d) n =
      rw
        (
          digit_kind c l u,
          cut-append b':' (c ∷ s) t (AllDigits-NoByte b':' (c ∷ s) (omega arith) (l, u, d)),
          read_node,
        )
        refl

module _ (atoi : Bytes → Option ℤ) (whole : ℕ) (small : whole < 2 ^ 63)
    (atoi-numeral : (n : ℕ) → n < 2 ^ 63 → atoi (numeral n) ≡ some (pos n)) where
  sized-append :
      (v rest : Bytes)
      → length (v ++ rest) ≤ whole
      → sized whole (some (pos (length v))) (v ++ rest) ≡ done (value v) rest
  unfolding sized
  sized-append v rest h = rw (sum, within, ordered, take-append v rest, drop-append v rest) refl
    where
      sum :
          add64 (pos (whole - length (v ++ rest))) (pos (length v))
          ≡ pos (whole - length (v ++ rest) + length v)
      sum =
          add64-in_range (whole - length (v ++ rest)) (length v)
            (omega (arith, length-append v rest))

      within : ltb_ℤ (pos whole) (pos (whole - length (v ++ rest) + length v)) ≡ false
      within = ground (arith, length-append v rest)

      ordered :
          ltb_ℤ (pos (whole - length (v ++ rest) + length v)) (pos (whole - length (v ++ rest)))
          ≡ false
      ordered = ground arith

  read_string :
      (f : ℕ) (v rest : Bytes)
      → length (enc_string v rest) ≤ whole
      → read_node atoi whole (suc f) (enc_string v rest) ≡ done (value v) rest
  unfolding enc_string numeral
  read_string f v rest h =
      text_lem atoi whole f (numeral (length v)) (v ++ rest)
        (digits-AllDigits (suc (length v)) (length v)) (numeral-NonEmpty (length v))
      ∙ (ap (λ o. sized whole o (v ++ rest))
            (atoi-numeral (length v) (omega (arith, enc_string-length v rest)))
          ∙ sized-append v rest (omega (arith, enc_string-length v rest, length-append v rest)))

  items_step :
      (f : ℕ) (s : Bytes)
      → Starts s
      → read_items atoi whole (suc f) s
        ≡ then_read (λ x rest. also x (read_items atoi whole f rest)) (read_node atoi whole f s)
  unfolding read_node
  items_step f [] h = absurd h
  items_step f (c ∷ s) h = rw (h, read_items) refl

  entries_step :
      (f : ℕ) (s : Bytes)
      → Starts s
      → read_entries atoi whole (suc f) s
        ≡ then_read
            (λ k rest.
              then_read
                (λ x rest. also_entry (value_of k) x (read_entries atoi whole f rest))
                (read_node atoi whole f rest))
            (read_node atoi whole f s)
  unfolding read_node
  entries_step f [] h = absurd h
  entries_step f (c ∷ s) h = rw (h, read_entries) refl

  mutual
    unfolding read_node enc node_of Fits weight

    read_enc :
        (f : ℕ) (x : Value) (rest : Bytes)
        → weight x ≤ f
        → length (enc x rest) ≤ whole
        → Fits x
        → read_node atoi whole f (enc x rest) ≡ done (node_of x) rest
    read_enc zero x rest w l h = absurd (omega (arith, weight_pos x))
    read_enc (suc f) (number d) rest w l h = rw (cut-append b'e' d rest h) refl
    read_enc (suc f) (string v) rest w l h = read_string f v rest l
    read_enc (suc f) (array xs) rest w l h =
        ap as_list (read_enc_items f xs rest (omega arith) (omega arith) h)
    read_enc (suc f) (table es) rest w l h =
        ap as_dict (read_enc_pairs f es rest (omega arith) (omega arith) h)

    read_enc_items :
        (f : ℕ) (xs : Values) (rest : Bytes)
        → weight_items xs ≤ f
        → length (enc_items xs (b'e' ∷ rest)) ≤ whole
        → FitsAll xs
        → read_items atoi whole f (enc_items xs (b'e' ∷ rest)) ≡ done (nodes_of xs) rest
    read_enc_items zero nothing rest w l h = absurd (omega arith)
    read_enc_items zero (first x xs) rest w l h = absurd (omega arith)
    read_enc_items (suc f) nothing rest w l h = refl
    read_enc_items (suc f) (first x xs) rest w l (h, hs) =
        items_step f (enc x (enc_items xs (b'e' ∷ rest)))
          (enc-Starts x (enc_items xs (b'e' ∷ rest)))
        ∙ (ap (then_read (λ x rest. also x (read_items atoi whole f rest)))
              (read_enc f x (enc_items xs (b'e' ∷ rest)) (omega arith) l h)
            ∙ ap (also (node_of x)) (
                read_enc_items f xs rest (omega arith)
                  (omega (arith, enc-length-le x (enc_items xs (b'e' ∷ rest)))) hs))

    read_enc_pairs :
        (f : ℕ) (es : Pairs) (rest : Bytes)
        → weight_pairs es ≤ f
        → length (enc_pairs es (b'e' ∷ rest)) ≤ whole
        → FitsPairs es
        → read_entries atoi whole f (enc_pairs es (b'e' ∷ rest)) ≡ done (entries_of es) rest
    read_enc_pairs zero empty rest w l h = absurd (omega arith)
    read_enc_pairs zero (pair k x es) rest w l h = absurd (omega arith)
    read_enc_pairs (suc f) empty rest w l h = refl
    read_enc_pairs (suc zero) (pair k x es) rest w l h = absurd (omega arith)
    read_enc_pairs (suc (suc f)) (pair k x es) rest w l (hx, hs) =
        let last = enc_pairs es (b'e' ∷ rest) in
        let after_key : length (enc x last) ≤ whole =
          omega (arith, enc_string-length k (enc x last)) in
        entries_step (suc f) (enc_string k (enc x last)) (enc_string-Starts k (enc x last))
        ∙ (ap
              (then_read (λ k rest.
                then_read
                  (λ x rest. also_entry (value_of k) x (read_entries atoi whole (suc f) rest))
                  (read_node atoi whole (suc f) rest)))
              (read_string f k (enc x last) l)
            ∙ (ap (then_read (λ x rest. also_entry k x (read_entries atoi whole (suc f) rest)))
                  (read_enc (suc f) x last (omega arith) after_key hx)
                ∙ ap (also_entry k (node_of x)) (
                    read_enc_pairs (suc f) es rest (omega arith)
                      (omega (arith, after_key, enc-length-le x last)) hs)))

-- Where Atoi reads decimal numbers below 2^63: in data of fewer than 2^63 bytes, and with more than
-- twice as much fuel as there are bytes left, the reader returns for a value in the format, whatever
-- stands behind it, its node and the rest, if no integer has an `e`.
pub read_node-enc :
    (atoi : Bytes → Option ℤ)
    → ((n : ℕ) → n < 2 ^ 63 → atoi (numeral n) ≡ some (pos n))
    → (whole f : ℕ) (x : Value) (rest : Bytes) → whole < 2 ^ 63
    → length (enc x rest) ≤ whole
    → 2 * length (enc x rest) < f
    → Fits x
    → read_node atoi whole f (enc x rest) ≡ done (node_of x) rest
read_node-enc atoi reads whole f x rest small l h =
    read_enc atoi whole small reads f x rest (omega (arith, weight-le x rest)) l
