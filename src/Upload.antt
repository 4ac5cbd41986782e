-- ===== src/Upload.antt =====
-- upload/helpers.py: what an upload's parameters and headers say.
pub mod Limits
pub mod Bounds
pub mod Roots
pub mod Validate
pub mod Commits
use Prim.Native.Char.{code}
use text.Mathlib.Text.{starts_with}
use codecov_api.Base.{
  Bool, Bool-cases, IsIn, List, Option, Option-cases, String, [], ap, arith, eq_iff, false,
  if◌then◌else◌, inl, inr, is_some, leading, leb, mem_str, mem_str_iff, none, not, opt_str_eq, refl,
  skip, some, str_eq, subst, true, truthy, ℕ, ◌&&◌, ◌==◌, ◌||◌, ◌∷◌, ◌≡◌, ◌⊎◌,
}
use codecov_api.Store.{Outcome, err, ok, validation_error}

abbrev pub is_digit : ℕ → Bool
is_digit c = leb b'0' c && leb c b'9'

-- The digits that a text starts with.
abbrev pub digits : String → String
digits String.[] = ""
digits (String.◌∷◌ c s) =
    let rest = digits s in elim (is_digit (code c)) [ true ↦ String.◌∷◌ c rest | false ↦ "" ]

-- (pull|pr)\/(\d+) at the start of a text: the digits.
abbrev pub note_at : String → Option String
note_at s =
    let number =
      if starts_with s "pull/"
      then digits (skip 5 s)
      else if starts_with s "pr/"
      then digits (skip 3 s)
      else "" in
    if str_eq number "" then none else some number

-- The match that starts last wins: the first `.*` takes as much as it can, within the line.
unfoldable pub pull_noted_in_branch : String → Option String
pull_noted_in_branch String.[] = none
pull_noted_in_branch (String.◌∷◌ c s) =
    let later = if code c == 10 then none else pull_noted_in_branch s in
    elim later [ some number ↦ some number | none ↦ note_at (String.◌∷◌ c s) ]

-- The parameters of an upload that the helpers read.
pub record UploadParams : Type 0 where
  pub branch : Option String
  pub pr : Option String
  pub package_name : Option String
  pub version : Option String

-- The coercion of "branch" in parse_params.
unfoldable pub coerce_branch : String → Option String
coerce_branch value =
    if str_eq value "HEAD"
    then none
    else if str_eq (leading 7 value) "origin/"
    then some (skip 7 value)
    else if str_eq (leading 11 value) "refs/heads/"
    then some (skip 11 value)
    else some value

-- The coercion of "pr".
abbrev pub coerce_pr : String → Option String
coerce_pr value = if mem_str value ("false" ∷ "null" ∷ "undefined" ∷ []) then none else some value

-- The coercion of "pull_request".
abbrev pub coerce_pull_request : String → Option String
coerce_pull_request value =
    if mem_str value ("false" ∷ "null" ∷ "undefined" ∷ "true" ∷ []) then none else some value

-- The coercion of "build".
abbrev pub coerce_build : String → Option String
coerce_build value =
    if mem_str value ("null" ∷ "undefined" ∷ "none" ∷ "nil" ∷ []) then none else some value

-- determine_upload_branch_to_use
unfoldable pub determine_upload_branch_to_use : UploadParams → String → Option String
determine_upload_branch_to_use p repo_default_branch =
    if not (truthy p.branch) && not (truthy p.pr) then some repo_default_branch else elim p.branch [
      | none ↦ none
      | some branch ↦
          if truthy (some branch) && not (is_some (pull_noted_in_branch branch))
          then some branch
          else none
    ]

-- upload_params.get("branch") or ""
abbrev pub branch_or_empty : Option String → String
branch_or_empty none = ""
branch_or_empty (some s) = s

abbrev pub pr_or : Option String → Option String → Option String
pr_or (some number) pr = some number
pr_or none pr = if opt_str_eq pr (some "true") then none else pr

-- determine_upload_pr_to_use
unfoldable pub determine_upload_pr_to_use : UploadParams → Option String
determine_upload_pr_to_use p = pr_or (pull_noted_in_branch (branch_or_empty p.branch)) p.pr

-- The headers of an upload.
pub record Headers : Type 0 where
  pub content_disposition : Option String
  pub x_content_type : Option String
  pub x_reduced_redundancy : Option String

-- `"node" in text`
abbrev pub contains : String → String → Bool
contains word String.[] = starts_with "" word
contains word (String.◌∷◌ c s) = starts_with (String.◌∷◌ c s) word || contains word s

abbrev pub known_types : List String
known_types = "text/plain" ∷ "application/x-gzip" ∷ "plain/text" ∷ []

abbrev pub stated_type : UploadParams → Headers → String
stated_type p h =
    if opt_str_eq p.version (some "v2") then "application/x-gzip" else elim h.x_content_type [
      | none ↦ "text/plain"
      | some t ↦ if str_eq t "text/html" then "text/plain" else t
    ]

abbrev pub reduces : UploadParams → Headers → Bool
reduces p h =
    if opt_str_eq p.version (some "v2")
    then false
    else if contains "node" (branch_or_empty p.package_name)
    then false
    else elim h.x_reduced_redundancy [ none ↦ true | some t ↦ str_eq t "true" ]

-- A type that could be executed by a browser is replaced.
abbrev pub safe_type : String → String
safe_type t = if mem_str t known_types then t else "text/plain"

-- parse_headers: the content type and whether the redundancy is reduced.
unfoldable pub parse_headers : UploadParams → Headers → Outcome (String × Bool)
parse_headers p h =
    if opt_str_eq h.content_disposition none || opt_str_eq h.content_disposition (some "inline")
    then ok (safe_type (stated_type p h), reduces p h)
    else err validation_error

-- Where a type comes from that is not plain text: the upload is of version 2 and the type that of an
-- archive, or the header states it.
abbrev pub IsStated : UploadParams → Headers → String → Type 0
IsStated p h t =
    (t ≡ "text/plain")
    ⊎ ((p.version ≡ some "v2") × (t ≡ "application/x-gzip"))
    ⊎ (h.x_content_type ≡ some t)

-- The three types under which reports are stored.
abbrev pub IsInert : String → Type 0
IsInert t = (t ≡ "text/plain") ⊎ (t ≡ "application/x-gzip") ⊎ (t ≡ "plain/text")

stated_type-IsStated : (p : UploadParams) (h : Headers) → IsStated p h (stated_type p h)
stated_type-IsStated p h = elim (Bool-cases (opt_str_eq p.version (some "v2"))) [
  | inl v ↦ rw v (inr (inl (of_version p.version v, refl)))
  | inr n ↦ elim (Option-cases h.x_content_type) [
    | inl e ↦ rw (n, e) (inl refl)
    | inr (t, e) ↦ elim (Bool-cases (str_eq t "text/html")) [
      | inl html ↦ rw (n, e, html) (inl refl)
      | inr other ↦ rw (n, e, other) (inr (inr refl))
    ]
  ]
]
  where
    of_version : (v : Option String) → opt_str_eq v (some "v2") ≡ true → v ≡ some "v2"
    of_version none e = cc
    of_version (some s) e = ap (λ (x : String). some x) ((eq_iff s "v2").0 e)

safe_type-known : (t : String) → IsInert (safe_type t)
safe_type-known t = elim (Bool-cases (mem_str t known_types)) [
  | inr e ↦ rw e (inl refl)
  | inl e ↦ rw e (among ((mem_str_iff t known_types).0 e))
]
  where
    among : IsIn t known_types → IsInert t
    among (inl e) = inl e
    among (inr (inl e)) = inr (inl e)
    among (inr (inr (inl e))) = inr (inr e)
    among (inr (inr (inr e))) = absurd e

safe_type-IsStated :
    (p : UploadParams) (h : Headers) (t : String) → IsStated p h t → IsStated p h (safe_type t)
safe_type-IsStated p h t s = elim (Bool-cases (mem_str t known_types)) [
  | inl e ↦ rw e s
  | inr e ↦ rw e (inl refl)
]

accepted :
    (p : UploadParams) (h : Headers) (t : String) (r : Bool)
    → parse_headers p h ≡ ok (t, r)
    → (safe_type (stated_type p h) ≡ t)
      × ((opt_str_eq h.content_disposition none || opt_str_eq h.content_disposition (some "inline"))
          ≡ true)
unfolding parse_headers
accepted p h t r e = (ground arith, ground arith)

inline_or_none :
    (d : Option String)
    → (opt_str_eq d none || opt_str_eq d (some "inline")) ≡ true
    → (d ≡ none) ⊎ (d ≡ some "inline")
inline_or_none none e = inl refl
inline_or_none (some s) e = inr (ap (λ (x : String). some x) ((eq_iff s "inline").0 e))

-- The headers of an upload are accepted only without a content disposition or with "inline". The
-- type under which its reports are then stored is "text/plain", "application/x-gzip" or
-- "plain/text", whatever the upload states; and one that is not "text/plain" is the type that the
-- header states, or "application/x-gzip" for an upload of version 2.
pub parse_headers-known :
    (p : UploadParams) (h : Headers) (t : String) (r : Bool)
    → parse_headers p h ≡ ok (t, r)
    → IsInert t
      × IsStated p h t
      × ((h.content_disposition ≡ none) ⊎ (h.content_disposition ≡ some "inline"))
parse_headers-known p h t r e =
    let (same, shown) = accepted p h t r e in
    (
      subst IsInert same (safe_type-known (stated_type p h)),
      subst (IsStated p h) same
          (safe_type-IsStated p h (stated_type p h) (stated_type-IsStated p h)),
      inline_or_none h.content_disposition shown,
    )

pr_or_given :
    (number pr : Option String)
    → truthy pr ≡ true
    → ((n : String) × (pr_or number pr ≡ some n)) ⊎ (pr ≡ some "true")
pr_or_given (some number) pr e = inl (number, refl)
pr_or_given none none e = absurd (ground arith)
pr_or_given none (some s) e = elim (Bool-cases (str_eq s "true")) [
  | inl e' ↦ inr (ap (λ (x : String). some x) ((eq_iff s "true").0 e'))
  | inr e' ↦ inl (s, rw e' refl)
]

noted :
    (branch : String) (number pr : Option String)
    → (if not (str_eq branch "") && not (is_some number) then some branch else none) ≡ none
    → (str_eq branch "" ≡ false)
    → (n : String) × (pr_or number pr ≡ some n)
noted branch (some number) pr e f = (number, refl)
noted branch none pr e f = absurd (ground arith)

-- An upload without a branch of its own is for a pull request, unless it states only that it is for
-- one, by "true".
pub determine_upload_pr_lem :
    (p : UploadParams) (default : String)
    → determine_upload_branch_to_use p default ≡ none
    → ((number : String) × (determine_upload_pr_to_use p ≡ some number)) ⊎ (p.pr ≡ some "true")
unfolding determine_upload_branch_to_use determine_upload_pr_to_use
determine_upload_pr_lem p default e = elim (Bool-cases (truthy p.pr)) [
  | inl given ↦ pr_or_given (pull_noted_in_branch (branch_or_empty p.branch)) p.pr given
  | inr missing ↦ elim (Option-cases p.branch) [
    | inl b ↦ absurd (ground arith)
    | inr (branch, b) ↦
        inl (rw b (noted branch (pull_noted_in_branch branch) p.pr (ground arith) (ground arith)))
  ]
]
