-- ===== src/Compare.antt =====
-- services/comparison.py: `FileComparisonTraverseManager`, which walks the lines of a file in two
-- revisions along the diff between them.
pub mod Reference
pub mod Walk
pub mod Whole
pub mod Lines
pub mod Segments
pub mod Summary
pub mod Files
pub mod Stuck
pub mod Reports
use Prim.Native.Char.{code}
use codecov_api.Base.{
  Bool, List, Option, String, [], false, get_elem?, if◌then◌else◌, leb, length, ltb, min, none,
  some, suc, true, zero, ℕ, ◌&&◌, ◌+◌, ◌-◌, ◌==◌, ◌||◌, ◌∷◌,
}
use codecov_api.Store.{Error, Outcome, err, index_error, ok}

-- One hunk of a diff. A count that is left out in the header is none.
pub record Segment : Type 0 where
  pub base_start : ℕ
  pub base_count : Option ℕ
  pub head_start : ℕ
  pub head_count : Option ℕ
  pub lines : List String

abbrev pub starts_by : ℕ → String → Bool
starts_by c String.[] = false
starts_by c (String.◌∷◌ d s) = code d == c

-- _is_added
abbrev pub is_added : Option String → Bool
is_added none = false
is_added (some s) = starts_by b'+' s

-- _is_removed
abbrev pub is_removed : Option String → Bool
is_removed none = false
is_removed (some s) = starts_by b'-' s

-- The fields that a traversal does not change.
pub record File : Type 0 where
  pub head_file_eof : ℕ
  pub base_file_eof : ℕ
  pub src : List String

pub record Traversal : Type 0 where
  pub segments : List Segment
  pub base_ln : ℕ
  pub head_ln : ℕ

-- FileComparisonTraverseManager.__init__
unfoldable pub init : List Segment → Traversal
init [] = record { segments = []; base_ln = 1; head_ln = 1 }
init (s ∷ segments) = record {
  segments = s ∷ segments;
  base_ln = min 1 s.base_start;
  head_ln = min 1 s.head_start;
}

-- FileComparisonTraverseManager.traverse_finished
unfoldable pub traverse_finished : File → Traversal → Bool
traverse_finished f t = elim t.segments [
  | s ∷ rest ↦ false
  | [] ↦ elim f.src [
    | l ∷ ls ↦ ltb (length f.src) t.head_ln
    | [] ↦ leb f.head_file_eof t.head_ln && leb f.base_file_eof t.base_ln
  ]
]

-- int(header[…] or 1)
abbrev pub width : Option ℕ → ℕ
width none = 1
width (some n) = n

abbrev pub within : ℕ → ℕ → ℕ → Bool
within start count ln = leb start ln && ltb ln (start + count)

abbrev pub in_segment : Segment → ℕ → ℕ → Bool
in_segment s base_ln head_ln =
    within s.base_start (width s.base_count) base_ln
    || within s.head_start (width s.head_count) head_ln

-- FileComparisonTraverseManager.traversing_diff
unfoldable pub traversing_diff : Traversal → Bool
traversing_diff t = elim t.segments [ [] ↦ false | s ∷ rest ↦ in_segment s t.base_ln t.head_ln ]

-- src[ln - 1]: the line number 0 reads the last line.
abbrev pub line_at : List String → ℕ → Outcome (Option String)
line_at src ln = elim (get_elem? src (if ln == 0 then length src - 1 else ln - 1)) [
  | none ↦ err index_error
  | some l ↦ ok (some l)
]

-- FileComparisonTraverseManager.pop_line: the line, and the segments that are left.
unfoldable pub pop_line : File → Traversal → Outcome (Option String × List Segment)
unfolding traversing_diff
pop_line f t =
    if traversing_diff t
    then (elim t.segments [
      | [] ↦ err index_error
      | s ∷ rest ↦ elim s.lines [
        | [] ↦ err index_error
        | l ∷ ls ↦ ok (some l, record s { lines = ls } ∷ rest)
      ]
    ])
    else (elim f.src [
      | [] ↦ ok (none, t.segments)
      | l ∷ ls ↦ elim (line_at f.src t.head_ln) [ err e ↦ err e | ok line ↦ ok (line, t.segments) ]
    ])

-- The arguments of a visitor's call.
pub record Visit : Type 0 where
  pub base : Option ℕ
  pub head : Option ℕ
  pub value : Option String
  pub is_diff : Bool

abbrev pub visit : ℕ → ℕ → Option String → Bool → Visit
visit base_ln head_ln value is_diff = record {
  base = if is_diff && is_added value then none else some base_ln;
  head = if is_diff && is_removed value then none else some head_ln;
  value = value;
  is_diff = is_diff;
}

-- A first segment whose lines are all visited is dropped.
abbrev pub drop_empty : List Segment → List Segment
drop_empty [] = []
drop_empty (s ∷ rest) = elim s.lines [ [] ↦ rest | l ∷ ls ↦ s ∷ rest ]

abbrev pub advance : Traversal → List Segment → Option String → Bool → Traversal
advance t segments value is_diff =
    if is_diff && is_added value
    then record { segments = drop_empty segments; base_ln = t.base_ln; head_ln = t.head_ln + 1 }
    else if is_diff && is_removed value
    then record { segments = drop_empty segments; base_ln = t.base_ln + 1; head_ln = t.head_ln }
    else record { segments = drop_empty segments; base_ln = t.base_ln + 1; head_ln = t.head_ln + 1 }

-- The body of the loop of `apply`: what the visitors are called with, and the next state.
unfoldable pub step : File → Traversal → Outcome (Visit × Traversal)
step f t = elim (pop_line f t) [
  | err e ↦ err e
  | ok (value, segments) ↦
      (let diff : Bool =
          traversing_diff
            (record { segments = segments; base_ln = t.base_ln; head_ln = t.head_ln }) in
        ok (visit t.base_ln t.head_ln value diff, advance t segments value diff))
]

-- How a traversal ends: at the end of the file, by an exception, or not within the fuel.
pub data Ending : Type 0 where
  finished unfinished : Ending
  failed : Error → Ending

pub record Trace : Type 0 where
  pub visits : List Visit
  pub ending : Ending

abbrev pub cons_visit : Visit → Trace → Trace
cons_visit v r = record r { visits = v ∷ r.visits }

-- FileComparisonTraverseManager.apply: the calls of the visitors, in order.
unfoldable pub apply : ℕ → File → Traversal → Trace
unfolding traverse_finished step
apply zero f t = record { visits = []; ending = unfinished }
apply (suc fuel) f t = elim (traverse_finished f t) [
  | true ↦ record { visits = []; ending = finished }
  | false ↦ elim (step f t) [
    | err e ↦ record { visits = []; ending = failed e }
    | ok (v, t') ↦ cons_visit v (apply fuel f t')
  ]
]
