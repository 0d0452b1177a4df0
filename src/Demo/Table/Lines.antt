-- ===== src/Demo/Table/Lines.antt =====
-- The lines of the table.
use Prim.Native.Nat.{max}
use rt_csp.Base.{
  ℕ, ◌+◌, ◌-◌, ◌≤◌, ◌≡◌, refl, ap, ◌∙◌, List, [], ◌∷◌, ◌++◌, append_assoc, length, length-append,
  length-replicate, replicate, map, arith,
}
use rt_csp.Serialize.Elements.{until_nul}
use rt_csp.Demo.Table.{Column, width, row_length, print_row, print_rows, print_table}

-- Lines, each with its end.
abbrev pub unlines : List (List ℕ) → List ℕ
unlines [] = []
unlines (l ∷ ls) = l ++ (b'\n' ∷ unlines ls)

-- The texts, as C strings, are not longer than the columns are wide, and there is one for each.
abbrev pub IsFitting : List Column → List (List ℕ) → Type 0
IsFitting [] [] = Unit {0}
IsFitting [] (s ∷ cells) = ⊥
IsFitting (f ∷ fs) [] = ⊥
IsFitting (f ∷ fs) (s ∷ cells) = length (until_nul s) ≤ width f × IsFitting fs cells

-- Of two lists of lines the first line of the second goes on behind the last of the first.
row_lines : List Column → List (List (List ℕ)) → List (List ℕ)
row_lines fs [] = []
row_lines fs (cells ∷ rows) =
    print_row fs cells ∷ replicate (row_length fs) b'-' ∷ row_lines fs rows

pub table_lines : List Column → List (List (List ℕ)) → List (List ℕ)
unfolding row_lines
table_lines fs rows =
    replicate (row_length fs) b'='
    ∷ print_row fs (map (λ f. f.name) fs)
    ∷ replicate (row_length fs) b'='
    ∷ row_lines fs rows

print_rows-lines :
    (fs : List Column) (rows : List (List (List ℕ)))
    → print_rows fs rows ≡ unlines (row_lines fs rows)
unfolding print_rows row_lines
print_rows-lines fs [] = refl
print_rows-lines fs (cells ∷ rows) =
    ap (λ t. print_row fs cells ++ (b'\n' ∷ t))
      (append_assoc (replicate (row_length fs) b'-') (b'\n' ∷ []) (print_rows fs rows)
        ∙ ap (λ t. replicate (row_length fs) b'-' ++ (b'\n' ∷ t)) (print_rows-lines fs rows))

-- How long a row is: each text takes the width of its column, or its own length if that is more.
abbrev pub spread : List Column → List (List ℕ) → ℕ
spread [] cells = 0
spread (f ∷ fs) [] = 0
spread (f ∷ fs) (s ∷ cells) = max (width f) (length (until_nul s)) + spread fs cells

abbrev pub row_lengths : List Column → List (List (List ℕ)) → List ℕ
row_lengths fs [] = []
row_lengths fs (cells ∷ rows) = spread fs cells ∷ row_length fs ∷ row_lengths fs rows

-- The lengths of the lines of a table.
abbrev pub line_lengths : List Column → List (List (List ℕ)) → List ℕ
line_lengths fs rows =
    row_length fs ∷ spread fs (map (λ f. f.name) fs) ∷ row_length fs ∷ row_lengths fs rows

length-print_row :
    (fs : List Column) (cells : List (List ℕ)) → length (print_row fs cells) ≡ spread fs cells
unfolding print_row
length-print_row [] cells = refl
length-print_row (f ∷ fs) [] = refl
length-print_row (f ∷ fs) (s ∷ cells) =
    let pads : List ℕ = replicate (width f - length (until_nul s)) b' ' in
    omega (
      arith,
      length-append (pads ++ until_nul s) (print_row fs cells),
      length-append pads (until_nul s),
      length-replicate {A = ℕ} (width f - length (until_nul s)) b' ',
      length-print_row fs cells,
    )

spread_fitting :
    (fs : List Column) (cells : List (List ℕ))
    → IsFitting fs cells
    → spread fs cells ≡ row_length fs
spread_fitting [] [] h = refl
spread_fitting [] (s ∷ cells) h = absurd h
spread_fitting (f ∷ fs) [] h = absurd h
spread_fitting (f ∷ fs) (s ∷ cells) h = omega (arith, h.0, spread_fitting fs cells h.1)

spread_even :
    (fs : List Column) (cells : List (List ℕ))
    → length cells ≡ length fs
    → (row_length fs ≤ spread fs cells) × (spread fs cells ≡ row_length fs → IsFitting fs cells)
spread_even [] [] h = (omega arith, λ e. tt)
spread_even [] (s ∷ cells) h = absurd (omega (arith, h))
spread_even (f ∷ fs) [] h = absurd (omega (arith, h))
spread_even (f ∷ fs) (s ∷ cells) h =
    let r = spread_even fs cells (omega (arith, h)) in
    (omega (arith, r.0), λ e. (omega (arith, e, r.0), r.1 (omega (arith, e, r.0))))

row_lines-lengths :
    (fs : List Column) (rows : List (List (List ℕ)))
    → map length (row_lines fs rows) ≡ row_lengths fs rows
unfolding row_lines
row_lines-lengths fs [] = refl
row_lines-lengths fs (cells ∷ rows) =
    rw
      (
        length-print_row fs cells,
        length-replicate {A = ℕ} (row_length fs) b'-',
        row_lines-lengths fs rows,
      )
      refl

-- The table is a list of lines: a ruler, the names of the columns, a ruler, and for each row the row and
-- a ruler. The rulers are as long as the columns are wide together. A row with a text for each column,
-- and the line of the names, is not shorter than that, and just as long exactly if no text, up to a
-- NUL, is longer than its column is wide.
pub print_table-line_lengths :
    (fs : List Column) (rows : List (List (List ℕ)))
    → (print_table fs rows ≡ unlines (table_lines fs rows))
      × (map length (table_lines fs rows) ≡ line_lengths fs rows)
      × ((cells : List (List ℕ))
          → length cells ≡ length fs
          → (row_length fs ≤ spread fs cells)
            × (spread fs cells ≡ row_length fs → IsFitting fs cells)
            × (IsFitting fs cells → spread fs cells ≡ row_length fs))
unfolding print_table table_lines
print_table-line_lengths fs rows =
    let rule : List ℕ = replicate (row_length fs) b'=' in
    let head = print_row fs (map (λ f. f.name) fs) in
    (
      append_assoc rule (b'\n' ∷ []) _
          ∙ ap (λ t. rule ++ (b'\n' ∷ (head ++ (b'\n' ∷ t))))
              (append_assoc rule (b'\n' ∷ []) (print_rows fs rows)
                ∙ ap (λ t. rule ++ (b'\n' ∷ t)) (print_rows-lines fs rows)),
      rw
          (
            length-replicate {A = ℕ} (row_length fs) b'=',
            length-print_row fs (map (λ f. f.name) fs),
            row_lines-lengths fs rows,
          )
          refl,
      λ cells h. ((spread_even fs cells h).0, (spread_even fs cells h).1, spread_fitting fs cells),
    )
