-- ===== src/Naming/FileNames/Suffixes.antt =====
-- Suffixes, separators and decimal numbers in a name.
use distributed_jbod.Common.{
  ℕ, zero, suc, ◌-◌, ◌*◌, ◌/◌, ◌%◌, ◌^◌, ◌<◌, ◌≡◌, ◌≢◌, refl, sym, ap, ◌∙◌, inl, inr, true, false,
  none, some, List, [], ◌∷◌, ◌++◌, length, length-append, get_or, take, drop, take-append_left,
  drop-append_left, take-append-drop, le→leb, ◌==◌, ==_iff, if◌then◌else◌, bytes_eq_refl,
  bytes_eq→eq, All, Bool-cases, &&_split, arith, every_below, every_below_lem,
}
use distributed_jbod.Naming.{Text, alphabet, text_digits, to_text, text_len}
use distributed_jbod.Naming.RoundTrip.{is_just, is_just_lem}
use distributed_jbod.Naming.FileNames.{
  ends_with, starts_with, strip_suffix, split_once, show_u8, read_u8, parse_u8,
}

pub strip_suffix-append : (suffix name : Text) → strip_suffix suffix (name ++ suffix) ≡ some name
unfolding strip_suffix
strip_suffix-append suffix name =
    let size = length-append name suffix in
    let cut : length (name ++ suffix) - length suffix ≡ length name = omega arith in
    let fits = le→leb (length suffix) (length (name ++ suffix)) (omega arith) in
    let end = drop-append_left name suffix (length (name ++ suffix) - length suffix) cut in
    let front = take-append_left name suffix (length (name ++ suffix) - length suffix) cut in
    rw (fits, end, bytes_eq_refl suffix, front)

pub ends_with-append : (suffix name : Text) → ends_with suffix (name ++ suffix) ≡ true
ends_with-append suffix name =
    let size = length-append name suffix in
    let cut : length (name ++ suffix) - length suffix ≡ length name = omega arith in
    let fits = le→leb (length suffix) (length (name ++ suffix)) (omega arith) in
    let end = drop-append_left name suffix (length (name ++ suffix) - length suffix) cut in
    rw (fits, end, bytes_eq_refl suffix)

pub ends_with-eq :
    (suffix name : Text) → ends_with suffix name ≡ true → (front : Text) × (name ≡ front ++ suffix)
ends_with-eq suffix name h =
    let (fits, same) = &&_split _ _ h in
    let n = length name - length suffix in
    let end = bytes_eq→eq (drop n name) suffix same in
    (take n name, sym (ap (λ t. take n name ++ t) (sym end) ∙ take-append-drop n name))

pub starts_with-append : (prefix name : Text) → starts_with prefix (prefix ++ name) ≡ true
starts_with-append [] name = refl
starts_with-append (c ∷ prefix) name = rw ((==_iff c c).1 refl) (starts_with-append prefix name)

-- The last character, or `0`.
abbrev pub last : Text → ℕ
last [] = 0
last (c ∷ []) = c
last (c ∷ d ∷ name) = last (d ∷ name)

pub last-append : (name : Text) (c : ℕ) (end : Text) → last (name ++ c ∷ end) ≡ last (c ∷ end)
last-append [] c end = refl
last-append (d ∷ []) c end = refl
last-append (d ∷ e ∷ name) c end = last-append (e ∷ name) c end

-- A name ends in one suffix only, when the suffixes end in different characters.
pub ends_with_apart :
    (a : ℕ) (suffix : Text) (b : ℕ) (other name : Text)
    → last (a ∷ suffix) ≢ last (b ∷ other)
    → ends_with (a ∷ suffix) (name ++ b ∷ other) ≡ false
ends_with_apart a suffix b other name differ =
    elim (Bool-cases (ends_with (a ∷ suffix) (name ++ b ∷ other))) [
      | inr no_end ↦ no_end
      | inl end ↦ absurd (
          let (front, same) = ends_with-eq (a ∷ suffix) (name ++ b ∷ other) end in
          differ (sym (last-append front a suffix) ∙ sym (ap last same) ∙ last-append name b other))
    ]

pub strip_suffix_apart :
    (a : ℕ) (suffix : Text) (b : ℕ) (other name : Text)
    → last (a ∷ suffix) ≢ last (b ∷ other)
    → strip_suffix (a ∷ suffix) (name ++ b ∷ other) ≡ none
unfolding strip_suffix
strip_suffix_apart a suffix b other name differ = rw (ends_with_apart a suffix b other name differ)

-- A separator that the first part does not hold.
pub split_once-append :
    (c : ℕ) (front end : Text)
    → All (λ d. (d == c) ≡ false) front
    → split_once c (front ++ c ∷ end) ≡ some (front, end)
unfolding split_once
split_once-append c [] end h = rw ((==_iff c c).1 refl)
split_once-append c (d ∷ front) end (h, hs) = rw (h, split_once-append c front end hs)

pub starts_with-front :
    (c : ℕ) (front other rest : Text)
    → All (λ d. (d == c) ≡ false) front
    → All (λ d. (d == c) ≡ false) other
    → starts_with (front ++ c ∷ []) (other ++ c ∷ rest) ≡ true
    → front ≡ other
starts_with-front c [] [] rest hf ho h = refl
starts_with-front c [] (d ∷ other) rest hf (ho, hos) h = ground arith
starts_with-front c (d ∷ front) [] rest (hf, hfs) ho h = ground arith
starts_with-front c (d ∷ front) (e ∷ other) rest (hf, hfs) (ho, hos) h =
    let (same, more) = &&_split (d == e) (starts_with (front ++ c ∷ []) (other ++ c ∷ rest)) h in
    let first : d ≡ e = (==_iff d e).0 same in
    let later = starts_with-front c front other rest hfs hos more in cc

-- No letter of a version's text is a dot.
letter-ne-dot : (d : ℕ) → d < 32 → (get_or alphabet d 0 == b'.') ≡ false
unfolding every_below
letter-ne-dot d lt =
    ground (
      arith,
      every_below_lem (λ x. if get_or alphabet x 0 == b'.' then false else true) 32 refl d lt,
    )

text_digits-dotless : (n value : ℕ) → All (λ d. (d == b'.') ≡ false) (text_digits n value)
unfolding text_digits
text_digits-dotless zero value = tt
text_digits-dotless (suc n) value =
    (letter-ne-dot (value / 2 ^ (5 * n) % 2 ^ 5) (omega arith), text_digits-dotless n value)

pub to_text-dotless : (v : List ℕ) → All (λ d. (d == b'.') ≡ false) (to_text v)
unfolding to_text
to_text-dotless v = text_digits-dotless text_len _

pub parse_u8-show_u8 : (n : ℕ) → n < 256 → parse_u8 (show_u8 n) ≡ some n
unfolding every_below show_u8 parse_u8 read_u8
parse_u8-show_u8 n lt =
    is_just_lem (parse_u8 (show_u8 n)) n
      (every_below_lem (λ x. is_just (parse_u8 (show_u8 x)) x) 256 checked n lt)
  where
    checked : every_below (λ x. is_just (parse_u8 (show_u8 x)) x) 256 ≡ true
    checked = refl
