-- ===== src/Impacted/Sorted.antt =====
-- compare/commands/compare/interactors/fetch_impacted_files.py: the sorted list has the same
-- files, in the order of the parameter, and those without a value last.
use mathlib.Core.List.{Perm, perm_middle}
use mathlib.Core.List.Perm
use codecov_api.Base.{
  All, Bool, Bool-cases, List, Option, Option-cases, String, [], any, ap, arith, false,
  if◌then◌else◌, inl, inr, is_some, last_str, map, none, not, refl, select, some, split, subst, sym,
  true, ◌++◌, ◌∙◌, ◌∷◌, ◌≡◌,
}
use codecov_api.Impacted.{
  Direction, ImpactedFile, ImpactedFileParameter, Key, Parts, add_file, ascending,
  by_change_coverage, by_file_name, by_head_coverage, by_misses_count, by_patch_coverage,
  descending, file_name, get_attribute, in_order, join_parts, key_le, name_key, number_key, place,
  put_file, separate, sort_impacted_files, sorted, text_le,
}
use codecov_api.Store.{attribute_error, err, ok}

text_le-total : (s t : String) → text_le s t ≡ false → text_le t s ≡ true
unfolding text_le
text_le-total String.[] t h = cc
text_le-total (String.◌∷◌ c s) String.[] h = refl
text_le-total (String.◌∷◌ c s) (String.◌∷◌ d t) h = ground (arith, text_le-total s t)

key_le-total : (a b : Key) → key_le a b ≡ false → key_le b a ≡ true
unfolding key_le
key_le-total (name_key s) (name_key t) h = text_le-total s t h
key_le-total (number_key a) (number_key b) h = ground arith
key_le-total (name_key s) (number_key b) h = cc
key_le-total (number_key a) (name_key t) h = refl

in_order-total : (d : Direction) (a b : Key) → in_order d a b ≡ false → in_order d b a ≡ true
unfolding in_order
in_order-total ascending a b h = key_le-total a b h
in_order-total descending a b h = key_le-total b a h

-- No file comes before one that it should come after.
abbrev pub IsInOrder : Direction → List (Key × ImpactedFile) → Type 0
IsInOrder d [] = Unit
IsInOrder d (x ∷ []) = Unit
IsInOrder d (x ∷ y ∷ ys) = (in_order d x.0 y.0 ≡ true) × IsInOrder d (y ∷ ys)

place-IsInOrder :
    (d : Direction) (x : Key × ImpactedFile) (xs : List (Key × ImpactedFile))
    → IsInOrder d xs
    → IsInOrder d (place d x xs)
unfolding place
place-IsInOrder d x [] s = tt
place-IsInOrder d x (y ∷ []) s = elim (Bool-cases (in_order d x.0 y.0)) [
  | inl e ↦ rw e (e, tt)
  | inr e ↦ rw e (in_order-total d x.0 y.0 e, tt)
]
place-IsInOrder d x (y ∷ z ∷ zs) (a, s) = elim (Bool-cases (in_order d x.0 y.0)) [
  | inl e ↦ rw e (e, (a, s))
  | inr e ↦ rw e (after (in_order-total d x.0 y.0 e) (place-IsInOrder d x (z ∷ zs) s))
]
  where
    after :
        (in_order d y.0 x.0 ≡ true)
        → IsInOrder d (place d x (z ∷ zs))
        → IsInOrder d (y ∷ place d x (z ∷ zs))
    after b t = elim (Bool-cases (in_order d x.0 z.0)) [
      | inl e ↦ rw e (b, rw e at t)
      | inr e ↦ rw e (a, rw e at t)
    ]

sorted-IsInOrder : (d : Direction) (xs : List (Key × ImpactedFile)) → IsInOrder d (sorted d xs)
unfolding sorted
sorted-IsInOrder d [] = tt
sorted-IsInOrder d (x ∷ xs) = place-IsInOrder d x (sorted d xs) (sorted-IsInOrder d xs)

place-perm :
    (d : Direction) (x : Key × ImpactedFile) (xs : List (Key × ImpactedFile))
    → Perm (place d x xs) (x ∷ xs)
unfolding place
place-perm d x [] = Perm.rfl
place-perm d x (y ∷ ys) = elim (Bool-cases (in_order d x.0 y.0)) [
  | inl e ↦ rw e Perm.rfl
  | inr e ↦ rw e (Perm.trans (Perm.cons y (place-perm d x ys)) (Perm.swap x y ys))
]

sorted-perm : (d : Direction) (xs : List (Key × ImpactedFile)) → Perm (sorted d xs) xs
unfolding sorted
sorted-perm d [] = Perm.rfl
sorted-perm d (x ∷ xs) = Perm.trans (place-perm d x (sorted d xs)) (Perm.cons x (sorted-perm d xs))

abbrev pub lacks : ImpactedFileParameter → ImpactedFile → Bool
lacks p f = elim (get_attribute f p) [ err e ↦ false | ok key ↦ not (is_some key) ]

-- The files with a value, each with its own, and those without, in the order that they had.
abbrev pub Separated : ImpactedFileParameter → List ImpactedFile → Parts → Type 0
Separated p files parts =
    All (λ x. get_attribute x.1 p ≡ ok (some x.0)) parts.0
    × (parts.1 ≡ select (lacks p) files)
    × Perm (map (λ x. x.1) parts.0 ++ parts.1) files

lacks-eq :
    (p : ImpactedFileParameter) (f : ImpactedFile) (key : Option Key)
    → get_attribute f p ≡ ok key
    → lacks p f ≡ not (is_some key)
lacks-eq p f key e = rw (e, lacks) refl

select-keeps :
    (p : ImpactedFileParameter) (f : ImpactedFile) (fs : List ImpactedFile) (k : Key)
    → get_attribute f p ≡ ok (some k)
    → select (lacks p) (f ∷ fs) ≡ select (lacks p) fs
select-keeps p f fs k e =
    ap (λ b. if b then f ∷ select (lacks p) fs else select (lacks p) fs) (lacks-eq p f (some k) e)

select-lacks :
    (p : ImpactedFileParameter) (f : ImpactedFile) (fs : List ImpactedFile)
    → get_attribute f p ≡ ok none
    → select (lacks p) (f ∷ fs) ≡ f ∷ select (lacks p) fs
select-lacks p f fs e =
    ap (λ b. if b then f ∷ select (lacks p) fs else select (lacks p) fs) (lacks-eq p f none e)

put_file-Separated :
    (p : ImpactedFileParameter) (f : ImpactedFile) (fs : List ImpactedFile) (key : Option Key)
    (parts : Parts)
    → get_attribute f p ≡ ok key
    → Separated p fs parts
    → (more : Parts) × (put_file f key (ok parts) ≡ ok more) × Separated p (f ∷ fs) more
put_file-Separated p f fs (some k) (keyed, rest) e (a, b, c) =
    (((k, f) ∷ keyed, rest), refl, ((e, a), b ∙ sym (select-keeps p f fs k e), Perm.cons f c))
put_file-Separated p f fs none (keyed, rest) e (a, b, c) = (
  (keyed, f ∷ rest),
  refl,
  (a, ap (◌∷◌ f) b ∙ sym (select-lacks p f fs e), Perm.trans (perm_middle _ _) (Perm.cons f c)),
)

abbrev Readable : ImpactedFileParameter → ImpactedFile → Type 0
Readable p f = (key : Option Key) × (get_attribute f p ≡ ok key)

separate-Separated :
    (p : ImpactedFileParameter) (files : List ImpactedFile)
    → All (Readable p) files
    → (parts : Parts) × (separate p files ≡ ok parts) × Separated p files parts
unfolding separate
separate-Separated p [] a = (([], []), refl, (tt, refl, Perm.rfl))
separate-Separated p (f ∷ fs) ((key, e), a) =
    let (parts, s, sep) = separate-Separated p fs a in
    let (more, t, sep') = put_file-Separated p f fs key parts e sep in
    (more, ap (λ r. add_file f r (separate p fs)) e ∙ ap (put_file f key) s ∙ t, sep')

get_attribute-Readable :
    (p : ImpactedFileParameter) (f : ImpactedFile) → is_some f.head_name ≡ true → Readable p f
unfolding get_attribute file_name
get_attribute-Readable by_file_name f h = elim (Option-cases f.head_name) [
  | inl e ↦ cc
  | inr (name, e) ↦ (some (name_key (last_str "" (split b'/' name))), rw e refl)
]
get_attribute-Readable by_change_coverage f h = (_, refl)
get_attribute-Readable by_head_coverage f h = (_, refl)
get_attribute-Readable by_misses_count f h = (_, refl)
get_attribute-Readable by_patch_coverage f h = (_, refl)

All-Readable :
    (p : ImpactedFileParameter) (files : List ImpactedFile)
    → All (λ f. is_some f.head_name ≡ true) files
    → All (Readable p) files
All-Readable p [] a = tt
All-Readable p (f ∷ fs) (h, a) = (get_attribute-Readable p f h, All-Readable p fs a)

module _ (P : Key × ImpactedFile → Type 0) (d : Direction) where
  All-place :
      (x : Key × ImpactedFile) (xs : List (Key × ImpactedFile))
      → P x
      → All P xs
      → All P (place d x xs)
  unfolding place
  All-place x [] px a = (px, tt)
  All-place x (y ∷ ys) px (py, a) = elim (Bool-cases (in_order d x.0 y.0)) [
    | inl e ↦ rw e (px, (py, a))
    | inr e ↦ rw e (py, All-place x ys px a)
  ]

  All-sorted : (xs : List (Key × ImpactedFile)) → All P xs → All P (sorted d xs)
  unfolding sorted
  All-sorted [] a = tt
  All-sorted (x ∷ xs) (px, a) = All-place x (sorted d xs) px (All-sorted xs a)

-- Where every file has a name in the head, the sort ends well, whatever the parameter: first the
-- files that have a value, each one in order with the next by its own value, then those that have
-- none, as they stood in the list. Together they are the files of the list, each as often.
pub sort_impacted_files-sorted :
    (files : List ImpactedFile) (p : ImpactedFileParameter) (d : Direction)
    → All (λ f. is_some f.head_name ≡ true) files
    → (keyed : List (Key × ImpactedFile)) × (sort_impacted_files files p d
        ≡ ok (map (λ x. x.1) keyed ++ select (lacks p) files))
      × IsInOrder d keyed
      × All (λ x. get_attribute x.1 p ≡ ok (some x.0)) keyed
      × Perm (map (λ x. x.1) keyed ++ select (lacks p) files) files
unfolding sort_impacted_files join_parts
sort_impacted_files-sorted files p d named =
    let ((keyed, rest), e, (a, b, c)) = separate-Separated p files (All-Readable p files named) in
    (
      sorted d keyed,
      ap (join_parts d) e ∙ ap (λ r. ok (map (λ x. x.1) (sorted d keyed) ++ r)) b,
      sorted-IsInOrder d keyed,
      All-sorted (λ x. get_attribute x.1 p ≡ ok (some x.0)) d keyed a,
      Perm.trans
          (Perm.append_right (select (lacks p) files) (Perm.map (λ x. x.1) (sorted-perm d keyed)))
          (subst (λ r. Perm (map (λ x. x.1) keyed ++ r) files) b c),
    )

separate-deleted :
    (files : List ImpactedFile)
    → any (λ f. not (is_some f.head_name)) files ≡ true
    → separate by_file_name files ≡ err attribute_error
unfolding separate get_attribute file_name
separate-deleted [] h = cc
separate-deleted (f ∷ fs) h = elim (Option-cases f.head_name) [
  | inl e ↦ rw e refl
  | inr (name, e) ↦
      ap (add_file f (get_attribute f by_file_name)) (separate-deleted fs (rw e at h)) ∙ rw e refl
]

-- A file that the head does not have makes a sort by file names fail.
pub sort_impacted_files-deleted :
    (files : List ImpactedFile) (d : Direction)
    → any (λ f. not (is_some f.head_name)) files ≡ true
    → sort_impacted_files files by_file_name d ≡ err attribute_error
unfolding sort_impacted_files join_parts
sort_impacted_files-deleted files d h = ap (join_parts d) (separate-deleted files h)
