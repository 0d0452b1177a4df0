-- ===== src/Demo/Table.antt =====
-- demo.c: the table that demo_mysql writes of the rows of a query.
pub mod Lines
use rt_csp.Base.{
  ℕ, zero, suc, ◌+◌, ◌-◌, Bool, List, [], ◌∷◌, ◌++◌, if◌then◌else◌, length, replicate, map,
}
use rt_csp.Serialize.Elements.{until_nul}

-- A column: its name, whether it is a TIMESTAMP or DATETIME, and the greatest length of its values.
pub record Column : Type 0 where
  pub name : List ℕ
  pub is_time : Bool
  pub max_length : ℕ

abbrev pub width : Column → ℕ
width f = if f.is_time then 20 else f.max_length + 1

abbrev pub row_length : List Column → ℕ
row_length [] = 0
row_length (f ∷ fs) = width f + row_length fs

-- "%Ns"
abbrev pub padded : ℕ → List ℕ → List ℕ
padded w s = replicate (w - length (until_nul s)) b' ' ++ until_nul s

-- The texts of a row, each by the format of its column.
unfoldable pub print_row : List Column → List (List ℕ) → List ℕ
print_row [] cells = []
print_row (f ∷ fs) [] = []
print_row (f ∷ fs) (s ∷ cells) = padded (width f) s ++ print_row fs cells

-- `line`, filled with a character.
abbrev pub ruler : ℕ → ℕ → List ℕ
ruler c n = replicate n c ++ b'\n' ∷ []

-- The loop over the rows fetched.
unfoldable pub print_rows : List Column → List (List (List ℕ)) → List ℕ
unfolding print_row
print_rows fs [] = []
print_rows fs (cells ∷ rows) =
    print_row fs cells ++ (b'\n' ∷ (ruler b'-' (row_length fs) ++ print_rows fs rows))

unfoldable pub print_table : List Column → List (List (List ℕ)) → List ℕ
unfolding print_row print_rows
print_table fs rows =
    ruler b'=' (row_length fs)
    ++ (print_row fs (map (λ f. f.name) fs)
        ++ (b'\n' ∷ (ruler b'=' (row_length fs) ++ print_rows fs rows)))
