-- ===== src/Compare/Reference.antt =====
-- What a traversal should visit, read off a diff whose hunks are laid out one after another.
use codecov_api.Base.{
  List, String, [], false, if◌then◌else◌, max, none, some, suc, true, zero, ℕ, ◌++◌, ◌+◌, ◌-◌, ◌∷◌,
  ◌≡◌, ◌≢◌, ◌≤◌, ◌⊎◌,
}
use codecov_api.Compare.{File, Segment, Visit, is_added, is_removed, visit, width}

-- Unchanged lines outside the hunks.
abbrev pub plain : ℕ → ℕ → ℕ → List Visit
plain b h zero = []
plain b h (suc n) = visit b h none false ∷ plain (b + 1) (h + 1) n

-- Lines that a hunk has in the base file: those that are not added.
abbrev pub base_lines : List String → ℕ
base_lines [] = 0
base_lines (l ∷ ls) = (if is_added (some l) then 0 else 1) + base_lines ls

-- Lines that a hunk has in the head file: those that are not removed.
abbrev pub head_lines : List String → ℕ
head_lines [] = 0
head_lines (l ∷ ls) =
    (if is_added (some l) then 1 else if is_removed (some l) then 0 else 1) + head_lines ls

-- The lines of a hunk that begins at these lines of the two files.
abbrev pub hunk : ℕ → ℕ → List String → List Visit
hunk b h [] = []
hunk b h (l ∷ ls) =
    visit b h (some l) true
    ∷ hunk (if is_added (some l) then b else b + 1)
        (if is_added (some l) then h + 1 else if is_removed (some l) then h else h + 1) ls

-- A side of a hunk at the line `ln`: it has no lines there, or starts there and has as many as
-- its header says.
abbrev pub Side : ℕ → ℕ → ℕ → ℕ → Type 0
Side start count ln n = (n ≡ 0) ⊎ ((start ≤ ln) × (ln + n ≡ start + count))

-- Hunks, each behind a number of unchanged lines, laid out from these lines of the two files on.
abbrev pub Laid : ℕ → ℕ → List (ℕ × Segment) → Type 0
Laid b h [] = Unit {0}
Laid b h ((gap, s) ∷ rest) =
    (s.lines ≢ [])
    × ((b + gap ≤ s.base_start) ⊎ (width s.base_count ≡ 0))
    × ((h + gap ≤ s.head_start) ⊎ (width s.head_count ≡ 0))
    × Side s.base_start (width s.base_count) (b + gap) (base_lines s.lines)
    × Side s.head_start (width s.head_count) (h + gap) (head_lines s.lines)
    × Laid (b + gap + base_lines s.lines) (h + gap + head_lines s.lines) rest

abbrev pub segments_of : List (ℕ × Segment) → List Segment
segments_of [] = []
segments_of ((gap, s) ∷ rest) = s ∷ segments_of rest

-- The visits of the whole file: behind the last hunk, up to the ends of both files.
abbrev pub expected : File → ℕ → ℕ → List (ℕ × Segment) → List Visit
expected f b h [] = plain b h (max (f.head_file_eof - h) (f.base_file_eof - b))
expected f b h ((gap, s) ∷ rest) =
    plain b h gap
    ++ (hunk (b + gap) (h + gap) s.lines
        ++ expected f (b + gap + base_lines s.lines) (h + gap + head_lines s.lines) rest)
