-- ===== src/Cluster/Names.antt =====
-- Labels and cluster names, as `validate_label` and `validate_cluster_name` check them. A `str` is the
-- list of its Unicode scalar values; `char::is_whitespace` is the property White_Space and
-- `char::is_control` the category Cc.
use distributed_jbod.Common.{
  ℕ, ◌+◌, ◌≤◌, ◌≡◌, refl, Bool, true, false, not, ◌&&◌, ◌||◌, Option, none, some, List, [], ◌∷◌,
  Outcome, ok, ◌>>◌, fail_if, fail_if-eq-ok, is_empty, leb, ltb, ◌==◌, if◌then◌else◌, bytes_eq,
  bytes_eq→eq, bytes_eq_refl, le→ltb, ltb→le, ||_split, not-false,
}

abbrev pub Text : Type 0
Text = List ℕ

-- `Uuid`, as a `u128`.
abbrev pub Uuid : Type 0
Uuid = ℕ

abbrev within : ℕ → ℕ → ℕ → Bool
within low high c = leb low c && leb c high

unfoldable pub is_whitespace : ℕ → Bool
is_whitespace c =
    within 9 13 c
    || c == 32
    || c == 133
    || c == 160
    || c == 5760
    || within 8192 8202 c
    || within 8232 8233 c
    || c == 8239
    || c == 8287
    || c == 12288

unfoldable pub is_control : ℕ → Bool
is_control c = leb c 31 || within 127 159 c

-- The length of a character in UTF-8.
abbrev utf8_width : ℕ → ℕ
utf8_width c = if ltb c 128 then 1 else if ltb c 2048 then 2 else if ltb c 65536 then 3 else 4

-- `s.len()`.
abbrev pub byte_length : Text → ℕ
byte_length [] = 0
byte_length (c ∷ s) = utf8_width c + byte_length s

-- `s.chars().any(test)`.
abbrev pub any : (ℕ → Bool) → Text → Bool
any test [] = false
any test (c ∷ s) = test c || any test s

abbrev trim_start : Text → Text
trim_start [] = []
trim_start (c ∷ s) = if is_whitespace c then trim_start s else c ∷ s

-- A character goes if nothing but whitespace is left after it.
abbrev trim_end : Text → Text
trim_end [] = []
trim_end (c ∷ s) =
    let rest = trim_end s in if is_empty rest && is_whitespace c then [] else c ∷ rest

abbrev pub trim : Text → Text
trim s = trim_end (trim_start s)

abbrev pub max_label_bytes : ℕ
max_label_bytes = 128

pub data BadReason : Type 0 where
  bad_length : BadReason
  whitespace_or_control : BadReason
  control : BadReason
  looks_like_uuid : BadReason
  outer_whitespace : BadReason

abbrev is_some {ℓ} : {A : Type ℓ} → Option A → Bool
is_some none = false
is_some (some a) = true

not_some {ℓ} : {A : Type ℓ} (o : Option A) → is_some o ≡ false → o ≡ none
not_some none h = refl
not_some (some a) h = absurd (cc)

module _ {E : Type 0} (parse_uuid : Text → Option Uuid) (bad_label : Text → BadReason → E) where
  unfoldable pub validate_label : Text → Outcome E (Unit {0})
  validate_label label = do
    fail_if (is_empty label || ltb max_label_bytes (byte_length label)) (bad_label label bad_length)
    fail_if (any (λ c. is_whitespace c || is_control c) label)
        (bad_label label whitespace_or_control)
    fail_if (is_some (parse_uuid label)) (bad_label label looks_like_uuid)
    ok tt

  -- Text that may name a device or a node.
  pub record IsLabel (label : Text) : Type 0 where
    pub not_empty : is_empty label ≡ false
    pub at_most : byte_length label ≤ max_label_bytes
    pub printable : any (λ c. is_whitespace c || is_control c) label ≡ false
    pub no_uuid : parse_uuid label ≡ none

  pub validate_label-IsLabel : (label : Text) → validate_label label ≡ ok tt → IsLabel label
  unfolding validate_label
  validate_label-IsLabel label e =
      let bad_size = is_empty label || ltb max_label_bytes (byte_length label) in
      let odd = any (λ c. is_whitespace c || is_control c) label in
      let done : Outcome E (Unit {0}) = ok tt in
      let last = fail_if (is_some (parse_uuid label)) (bad_label label looks_like_uuid) >> done in
      let middle = fail_if odd (bad_label label whitespace_or_control) >> last in
      let (size, e1) = fail_if-eq-ok bad_size (bad_label label bad_length) middle e in
      let (plain, e2) = fail_if-eq-ok odd (bad_label label whitespace_or_control) last e1 in
      let (no_id, e3) =
        fail_if-eq-ok (is_some (parse_uuid label)) (bad_label label looks_like_uuid) done e2 in
      record {
        not_empty = (||_split (is_empty label) _ size).0;
        at_most = ltb→le _ _ (||_split (is_empty label) _ size).1;
        printable = plain;
        no_uuid = not_some (parse_uuid label) no_id;
      }

  pub validate_label_lem : (label : Text) → IsLabel label → validate_label label ≡ ok tt
  unfolding validate_label
  validate_label_lem label v = rw (v.not_empty, le→ltb _ _ v.at_most, v.printable, v.no_uuid)

module _ {E : Type 0} (bad_cluster_name : Text → BadReason → E) where
  unfoldable pub validate_cluster_name : Text → Outcome E (Unit {0})
  validate_cluster_name name = do
    fail_if (is_empty name || ltb max_label_bytes (byte_length name))
        (bad_cluster_name name bad_length)
    fail_if (any is_control name) (bad_cluster_name name control)
    fail_if (not (bytes_eq (trim name) name)) (bad_cluster_name name outer_whitespace)
    ok tt

  -- Text that may name a cluster.
  pub record IsClusterName (name : Text) : Type 0 where
    pub not_empty : is_empty name ≡ false
    pub at_most : byte_length name ≤ max_label_bytes
    pub printable : any is_control name ≡ false
    pub trimmed : trim name ≡ name

  pub validate_cluster_name-IsClusterName :
      (name : Text) → validate_cluster_name name ≡ ok tt → IsClusterName name
  unfolding validate_cluster_name
  validate_cluster_name-IsClusterName name e =
      let bad_size = is_empty name || ltb max_label_bytes (byte_length name) in
      let same = bytes_eq (trim name) name in
      let done : Outcome E (Unit {0}) = ok tt in
      let last = fail_if (not same) (bad_cluster_name name outer_whitespace) >> done in
      let middle = fail_if (any is_control name) (bad_cluster_name name control) >> last in
      let (size, e1) = fail_if-eq-ok bad_size (bad_cluster_name name bad_length) middle e in
      let (plain, e2) =
        fail_if-eq-ok (any is_control name) (bad_cluster_name name control) last e1 in
      let (trimmed, e3) =
        fail_if-eq-ok (not same) (bad_cluster_name name outer_whitespace) done e2 in
      record {
        not_empty = (||_split (is_empty name) _ size).0;
        at_most = ltb→le _ _ (||_split (is_empty name) _ size).1;
        printable = plain;
        trimmed = bytes_eq→eq (trim name) name (not-false same trimmed);
      }

  pub validate_cluster_name_lem :
      (name : Text) → IsClusterName name → validate_cluster_name name ≡ ok tt
  unfolding validate_cluster_name
  validate_cluster_name_lem name v =
      rw (v.not_empty, le→ltb _ _ v.at_most, v.printable, v.trimmed, bytes_eq_refl name)
