-- ===== src/Device/Identity/Initialise/Blank.antt =====
-- A directory that `Device::initialise` accepts, and what stands in it after each step.
use distributed_jbod.Common.{
  ◌≡◌, ◌≢◌, sym, ◌∙◌, true, false, Option, none, some, [], ◌∷◌, Bool-cases, inl, inr, bytes_eq,
  bytes_eq_iff, bytes_eq→eq,
}
use distributed_jbod.Common.Seen.{IsIn}
use distributed_jbod.Common.Find.{filter}
use distributed_jbod.Common.Members.{All-of_IsIn, filter_none}
use distributed_jbod.Naming.{Text}
use distributed_jbod.Device.{Entry, dir}
use distributed_jbod.Device.Tree.{Entries, paths_eq, entry_at, child_of, children_of}
use distributed_jbod.Device.Store.{bucket_path}
use distributed_jbod.Device.Identity.Initialise.{lost_and_found, is_stray}

-- The directory is there, holds nothing but `lost+found`, and there is no bucket without a directory of
-- objects.
pub record IsBlank (entries : Entries) : Type 0 where
  pub root : entry_at [] entries ≡ some dir
  pub bare : (name : Text) → name ≢ lost_and_found → entry_at (name ∷ []) entries ≡ none
  pub no_bucket : entry_at bucket_path entries ≡ none

-- A name that is found in the root stands for an entry.
pub children_of-entry :
    (name : Text) (entries : Entries)
    → IsIn name (children_of [] entries)
    → entry_at (name ∷ []) entries ≢ none
unfolding children_of child_of entry_at paths_eq
children_of-entry name [] i e = i
children_of-entry name (([], entry) ∷ entries) i e = children_of-entry name entries i e
children_of-entry name ((a ∷ b ∷ q, entry) ∷ entries) i e = elim (Bool-cases (bytes_eq a name)) [
  | inl here ↦ children_of-entry name entries i (rw here at e)
  | inr there ↦ children_of-entry name entries i (rw there at e)
]
children_of-entry name ((a ∷ [], entry) ∷ entries) (inl same) e =
    let there : Path (Option Entry) (some entry) none = rw ((bytes_eq_iff a name).1 same) at e in cc
children_of-entry name ((a ∷ [], entry) ∷ entries) (inr i) e = elim (Bool-cases (bytes_eq a name)) [
  | inl here ↦ (let there : Path (Option Entry) (some entry) none = rw here at e in cc)
  | inr there ↦ children_of-entry name entries i (rw there at e)
]

-- An entry in the root is found by its name.
pub entry-children_of :
    (name : Text) (entry : Entry) (entries : Entries)
    → entry_at (name ∷ []) entries ≡ some entry
    → IsIn name (children_of [] entries)
unfolding children_of child_of entry_at paths_eq
entry-children_of name entry [] e = absurd (cc)
entry-children_of name entry (([], other) ∷ entries) e = entry-children_of name entry entries e
entry-children_of name entry ((a ∷ b ∷ q, other) ∷ entries) e =
    elim (Bool-cases (bytes_eq a name)) [
      | inl here ↦ entry-children_of name entry entries (rw here at e)
      | inr there ↦ entry-children_of name entry entries (rw there at e)
    ]
entry-children_of name entry ((a ∷ [], other) ∷ entries) e = elim (Bool-cases (bytes_eq a name)) [
  | inl here ↦ inl (bytes_eq→eq a name here)
  | inr there ↦ inr (entry-children_of name entry entries (rw there at e))
]

-- `initialise` finds nothing to refuse.
pub IsBlank-strays :
    (entries : Entries) → IsBlank entries → filter is_stray (children_of [] entries) ≡ []
IsBlank-strays entries blank = filter_none is_stray (children_of [] entries) (
    All-of_IsIn _ (children_of [] entries) (λ name i.
      elim (Bool-cases (bytes_eq name lost_and_found)) [
        | inl same ↦ rw same
        | inr other ↦ absurd (
            children_of-entry name entries i (
              blank.bare name (λ e.
                (let wrong : true ≡ false = sym ((bytes_eq_iff name lost_and_found).1 e) ∙ other in
                  absurd (cc)))))
      ]))
