-- ===== src/Compare/Segments/Windows.antt =====
-- services/comparison.py: the segments of a file lie apart, in order, and hold every changed line.
use codecov_api.Compare.Lines.{LineComparison}
use codecov_api.Compare.Segments.{
  LineType, ReportLine, grow, is_changed, last_of, line_numbers, segment_windows, segmented_lines,
  window, windows,
}
use codecov_api.Base.{
  Bool, Bool-cases, List, Option, [], ap, arith, false, get_elem?, inl, inr, leb, length, mem, min,
  refl, some, subst, suc, sym, true, zero, ℕ, ◌&&◌, ◌++◌, ◌+◌, ◌-◌, ◌<◌, ◌==◌, ◌||◌, ◌∙◌, ◌∷◌, ◌≡◌,
  ◌≤◌, ◌⊎◌,
}

-- Windows one behind the other, from the index `low` on and below `count`.
abbrev pub AreApart : ℕ → ℕ → List (ℕ × ℕ) → Type 0
AreApart low count [] = Unit {0}
AreApart low count ((start, end) ∷ ws) =
    (low ≤ start) × (start ≤ end) × (end < count) × AreApart (end + 1) count ws

abbrev pub holds_index : ℕ → List (ℕ × ℕ) → Bool
holds_index i [] = false
holds_index i ((start, end) ∷ ws) = (leb start i && leb i end) || holds_index i ws

-- Numbers that rise from `low` on, all below `count`.
abbrev Rising : ℕ → ℕ → List ℕ → Type 0
Rising low count [] = Unit {0}
Rising low count (n ∷ ns) = (low ≤ n) × (n < count) × Rising (n + 1) count ns

Rising-mem : (low count i : ℕ) (ns : List ℕ) → Rising low count ns → mem i ns ≡ true → low ≤ i
Rising-mem low count i [] h m = absurd (ground arith)
Rising-mem low count i (n ∷ ns) h m = ground (arith, Rising-mem (n + 1) count i ns, h)

last_of-append : (a n : ℕ) (ms : List ℕ) → last_of a (ms ++ n ∷ []) ≡ n
last_of-append a n [] = refl
last_of-append a n (m ∷ ms) = last_of-append m n ms

append_cons :
    (xs : List (List ℕ)) (g : List ℕ) (ys : List (List ℕ)) → (xs ++ g ∷ []) ++ ys ≡ xs ++ g ∷ ys
append_cons [] g ys = refl
append_cons (x ∷ xs) g ys = ap (λ (k : List (List ℕ)). x ∷ k) (append_cons xs g ys)

grow_near :
    (done : List (List ℕ)) (group : List ℕ) (z n : ℕ) (ns : List ℕ)
    → leb (n - z) 6 ≡ true
    → grow done group z (n ∷ ns) ≡ grow done (group ++ n ∷ []) n ns
grow_near done group z n ns e = rw (e, grow) refl

grow_far :
    (done : List (List ℕ)) (group : List ℕ) (z n : ℕ) (ns : List ℕ)
    → leb (n - z) 6 ≡ false
    → grow done group z (n ∷ ns) ≡ grow (done ++ group ∷ []) (n ∷ []) n ns
grow_far done group z n ns e = rw (e, grow) refl

-- Groups that are finished stay as they are.
grow_done :
    (done : List (List ℕ)) (group : List ℕ) (z : ℕ) (ns : List ℕ)
    → grow done group z ns ≡ done ++ grow [] group z ns
grow_done done group z [] = refl
grow_done done group z (n ∷ ns) = elim (Bool-cases (leb (n - z) 6)) [
  | inl e ↦
      grow_near done group z n ns e
      ∙ grow_done done (group ++ n ∷ []) n ns
      ∙ sym (ap (λ (k : List (List ℕ)). done ++ k) (grow_near [] group z n ns e))
  | inr e ↦
      grow_far done group z n ns e
      ∙ grow_done (done ++ group ∷ []) (n ∷ []) n ns
      ∙ append_cons done group (grow [] (n ∷ []) n ns)
      ∙ sym (
          ap (λ (k : List (List ℕ)). done ++ k)
            (grow_far [] group z n ns e ∙ grow_done (group ∷ []) (n ∷ []) n ns))
]

-- A group ends at a wide gap.
grow_split :
    (group : List ℕ) (z n : ℕ) (ns : List ℕ)
    → leb (n - z) 6 ≡ false
    → grow [] group z (n ∷ ns) ≡ group ∷ grow [] (n ∷ []) n ns
grow_split group z n ns e = grow_far [] group z n ns e ∙ grow_done (group ∷ []) (n ∷ []) n ns

member : (n i : ℕ) (ns : List ℕ) → mem i (n ∷ ns) ≡ true → (i ≤ n) ⊎ (mem i ns ≡ true)
member n i ns h = elim (Bool-cases (i == n)) [
  | inl e ↦ inl (ground arith)
  | inr e ↦ inr (ground arith)
]

member_above :
    (count n i : ℕ) (ns : List ℕ) → Rising (n + 1) count ns → mem i (n ∷ ns) ≡ true → n ≤ i
member_above count n i ns r h = ground (arith, Rising-mem (n + 1) count i ns)

sooner :
    (z n i : ℕ) (ns : List ℕ)
    → z + 1 ≤ n
    → (i ≤ z) ⊎ (mem i (n ∷ ns) ≡ true)
    → (i ≤ n) ⊎ (mem i ns ≡ true)
sooner z n i ns above (inl h) = inl (omega arith)
sooner z n i ns above (inr h) = member n i ns h

later :
    (i : ℕ) (ws : List (ℕ × ℕ)) (w : ℕ × ℕ)
    → holds_index i ws ≡ true
    → holds_index i (w ∷ ws) ≡ true
later i ws (start, end) h = ground arith

module _ (count : ℕ) where
  grow-AreApart :
      (low a z : ℕ) (ms ns : List ℕ)
      → last_of a ms ≡ z
      → low ≤ a - 3
      → a ≤ z
      → z < count
      → Rising (z + 1) count ns
      → AreApart low count (windows count (grow [] (a ∷ ms) z ns))
  grow-AreApart low a z ms [] e l p q r = (l, ground arith, ground arith, tt)
  grow-AreApart low a z ms (n ∷ ns) e l p q (above, below, rest) =
      elim (Bool-cases (leb (n - z) 6)) [
        | inl near ↦
            subst (λ (x : List (List ℕ)). AreApart low count (windows count x))
              (sym (grow_near [] (a ∷ ms) z n ns near))
              (grow-AreApart low a n (ms ++ n ∷ []) ns (last_of-append a n ms) l (omega arith) below
                rest)
        | inr far ↦
            subst (λ (x : List (List ℕ)). AreApart low count (windows count x))
              (sym (grow_split (a ∷ ms) z n ns far))
              (
                l,
                ground arith,
                ground arith,
                grow-AreApart (min (last_of a ms + 3) (count - 1) + 1) n n [] ns refl (ground arith)
                    (omega arith) below rest,
              )
      ]

  holds-grow :
      (i a z : ℕ) (ms ns : List ℕ)
      → last_of a ms ≡ z
      → a ≤ i
      → i < count
      → (i ≤ z) ⊎ (mem i ns ≡ true)
      → Rising (z + 1) count ns
      → holds_index i (windows count (grow [] (a ∷ ms) z ns)) ≡ true
  holds-grow i a z ms [] e l b (inl h) r = ground arith
  holds-grow i a z ms [] e l b (inr h) r = absurd (ground arith)
  holds-grow i a z ms (n ∷ ns) e l b h (above, below, rest) = elim (Bool-cases (leb (n - z) 6)) [
    | inl near ↦
        subst (λ (x : List (List ℕ)). holds_index i (windows count x) ≡ true)
          (sym (grow_near [] (a ∷ ms) z n ns near))
          (holds-grow i a n (ms ++ n ∷ []) ns (last_of-append a n ms) l b (sooner z n i ns above h)
            rest)
    | inr far ↦
        subst (λ (x : List (List ℕ)). holds_index i (windows count x) ≡ true)
          (sym (grow_split (a ∷ ms) z n ns far))
          (elim h [
            | inl p ↦ ground arith
            | inr m ↦ later i (windows count (grow [] (n ∷ []) n ns)) (window count (a ∷ ms)) (
                holds-grow i n n [] ns refl (member_above count n i ns rest m) b (member n i ns m)
                  rest)
          ])
  ]

  segmented-AreApart :
      (ns : List ℕ) → Rising 0 count ns → AreApart 0 count (windows count (segmented_lines ns))
  unfolding segmented_lines
  segmented-AreApart [] r = tt
  segmented-AreApart (n ∷ ns) (above, below, rest) =
      grow-AreApart 0 n n [] ns refl (omega arith) (omega arith) below rest

  holds-segmented :
      (i : ℕ) (ns : List ℕ)
      → Rising 0 count ns
      → i < count
      → mem i ns ≡ true
      → holds_index i (windows count (segmented_lines ns)) ≡ true
  unfolding segmented_lines
  holds-segmented i [] r b m = absurd (ground arith)
  holds-segmented i (n ∷ ns) (above, below, rest) b m =
      holds-grow i n n [] ns refl (member_above count n i ns rest m) b (member n i ns m) rest

module _ {C : Type 0} (line_type : C → Option LineType) where
  taken :
      (i : ℕ) (x : LineComparison (ReportLine C)) (lines : List (LineComparison (ReportLine C)))
      → is_changed line_type x ≡ true
      → line_numbers line_type i (x ∷ lines) ≡ i ∷ line_numbers line_type (i + 1) lines
  taken i x lines c = rw c refl

  passed :
      (i : ℕ) (x : LineComparison (ReportLine C)) (lines : List (LineComparison (ReportLine C)))
      → is_changed line_type x ≡ false
      → line_numbers line_type i (x ∷ lines) ≡ line_numbers line_type (i + 1) lines
  passed i x lines c = rw c refl

  line_numbers-Rising :
      (low i count : ℕ) (lines : List (LineComparison (ReportLine C)))
      → low ≤ i
      → i + length lines ≡ count
      → Rising low count (line_numbers line_type i lines)
  line_numbers-Rising low i count [] l e = tt
  line_numbers-Rising low i count (x ∷ lines) l e = elim (Bool-cases (is_changed line_type x)) [
    | inl c ↦ subst (Rising low count) (sym (taken i x lines c)) (
      l,
      omega arith,
      line_numbers-Rising (i + 1) (i + 1) count lines (omega arith) (omega arith),
    )
    | inr c ↦
        subst (Rising low count) (sym (passed i x lines c))
          (line_numbers-Rising low (i + 1) count lines (omega arith) (omega arith))
  ]

  mem-line_numbers :
      (i j : ℕ) (lines : List (LineComparison (ReportLine C))) (l : LineComparison (ReportLine C))
      → get_elem? lines j ≡ some l
      → is_changed line_type l ≡ true
      → mem (i + j) (line_numbers line_type i lines) ≡ true
  mem-line_numbers i j [] l f c = absurd (ground arith)
  mem-line_numbers i zero (x ∷ lines) l f c =
      subst (λ (k : List ℕ). mem (i + 0) k ≡ true)
        (sym (taken i x lines (subst (λ y. is_changed line_type y ≡ true) (ground arith) c)))
        (ground arith)
  mem-line_numbers i (suc j) (x ∷ lines) l f c = elim (Bool-cases (is_changed line_type x)) [
    | inl d ↦
        subst (λ (k : List ℕ). mem (i + suc j) k ≡ true) (sym (taken i x lines d))
          (ground (arith, mem-line_numbers (i + 1) j lines l f c))
    | inr d ↦
        subst (λ (k : List ℕ). mem (i + suc j) k ≡ true) (sym (passed i x lines d))
          (ground (arith, mem-line_numbers (i + 1) j lines l f c))
  ]

  index_below :
      (j : ℕ) (lines : List (LineComparison (ReportLine C))) (l : LineComparison (ReportLine C))
      → get_elem? lines j ≡ some l
      → j < length lines
  index_below j [] l f = absurd (ground arith)
  index_below zero (x ∷ lines) l f = omega arith
  index_below (suc j) (x ∷ lines) l f = omega (arith, index_below j lines l f)

  -- The windows of the segments follow each other without overlap, each with at least one line, and
  -- lie within the file.
  pub segment_windows-AreApart :
      (lines : List (LineComparison (ReportLine C)))
      → AreApart 0 (length lines) (segment_windows line_type lines)
  unfolding segment_windows
  segment_windows-AreApart lines =
      segmented-AreApart (length lines) (line_numbers line_type 0 lines)
        (line_numbers-Rising 0 0 (length lines) lines (omega arith) (omega arith))

  -- Every line whose coverage or code changed lies in the window of a segment.
  pub holds-segment_windows :
      (lines : List (LineComparison (ReportLine C))) (j : ℕ) (l : LineComparison (ReportLine C))
      → get_elem? lines j ≡ some l
      → is_changed line_type l ≡ true
      → holds_index j (segment_windows line_type lines) ≡ true
  unfolding segment_windows
  holds-segment_windows lines j l f c =
      holds-segmented (length lines) j (line_numbers line_type 0 lines)
        (line_numbers-Rising 0 0 (length lines) lines (omega arith) (omega arith))
        (index_below j lines l f)
        (let e : 0 + j ≡ j = omega arith in
          subst (λ (k : ℕ). mem k (line_numbers line_type 0 lines) ≡ true) e
            (mem-line_numbers 0 j lines l f c))
