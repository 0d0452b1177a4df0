-- ===== src/Demo/Queries/Blocks.antt =====
-- The calls on statements and blocks, counted.
use rt_csp.Base.{
  ℕ, zero, suc, ◌+◌, ◌≤◌, ◌≡◌, refl, ap, sym, append_assoc, ◌∙◌, Bool, true, false, ◌&&◌, ◌⊎◌, inl,
  inr, Option, none, some, List, [], ◌∷◌, ◌++◌, ◌==◌, ltb, leb, if◌then◌else◌, replicate, arith,
}
use rt_csp.Database.Query.{
  Act, message, stmt_init, stmt_close, stmt_bind_result, stmt_fetch, result_metadata, free_result,
  malloc, free, Answers, each_cell, first_cell, result_blocks,
}

-- A statement as the library's manual has it.
pub data Stmt : Type 0 where
  absent live gone : Stmt

abbrev pub on_stmt : Stmt → Act → Option Stmt
on_stmt s (malloc k) = some s
on_stmt s (free k) = some s
on_stmt s free_result = some s
on_stmt s result_metadata = some s
on_stmt absent (stmt_init null) = some (if null then absent else live)
on_stmt live (stmt_init null) = none
on_stmt live stmt_close = some gone
on_stmt live c = some live
on_stmt s c = none

-- What the calls make of the statement; `none` is a use before it is made or after it is closed.
unfoldable pub stmt_after : Stmt → List Act → Option Stmt
stmt_after s [] = some s
stmt_after s (c ∷ cs) = elim (on_stmt s c) [ none ↦ none | some t ↦ stmt_after t cs ]

-- The calls of malloc and free for a block: true for malloc.
abbrev pub about_block : ℕ → Act → List Bool
about_block k (malloc j) = if j == k then true ∷ [] else []
about_block k (free j) = if j == k then false ∷ [] else []
about_block k c = []

unfoldable pub block_calls : ℕ → List Act → List Bool
block_calls k [] = []
block_calls k (c ∷ cs) = about_block k c ++ block_calls k cs

pub stmt_after-append :
    (s t : Stmt) (cs ds : List Act)
    → stmt_after s cs ≡ some t
    → stmt_after s (cs ++ ds) ≡ stmt_after t ds
unfolding stmt_after
stmt_after-append s t [] ds e = let d : s ≡ t = cc e in ap (λ x. stmt_after x ds) d
stmt_after-append s t (c ∷ cs) ds e = go (on_stmt s c) (λ x. stmt_after-append x t cs ds) e
  where
    go :
        (o : Option Stmt)
        → ((x : Stmt) → stmt_after x cs ≡ some t → stmt_after x (cs ++ ds) ≡ stmt_after t ds)
        → elim o as (λ _. Option Stmt) [ none ↦ none | some x ↦ stmt_after x cs ] ≡ some t
        → elim o as (λ _. Option Stmt) [ none ↦ none | some x ↦ stmt_after x (cs ++ ds) ]
          ≡ stmt_after t ds
    go none ih e = cc
    go (some x) ih e = ih x e

pub stmt_after-fault :
    (s : Stmt) (cs ds : List Act) → stmt_after s cs ≡ none → stmt_after s (cs ++ ds) ≡ none
unfolding stmt_after
stmt_after-fault s [] ds e = cc
stmt_after-fault s (c ∷ cs) ds e = go (on_stmt s c) (λ x. stmt_after-fault x cs ds) e
  where
    go :
        (o : Option Stmt)
        → ((x : Stmt) → stmt_after x cs ≡ none → stmt_after x (cs ++ ds) ≡ none)
        → elim o as (λ _. Option Stmt) [ none ↦ none | some x ↦ stmt_after x cs ] ≡ none
        → elim o as (λ _. Option Stmt) [ none ↦ none | some x ↦ stmt_after x (cs ++ ds) ] ≡ none
    go none ih e = refl
    go (some x) ih e = ih x e

pub block_calls-append :
    (k : ℕ) (cs ds : List Act) → block_calls k (cs ++ ds) ≡ block_calls k cs ++ block_calls k ds
unfolding block_calls
block_calls-append k [] ds = refl
block_calls-append k (c ∷ cs) ds =
    ap (λ t. about_block k c ++ t) (block_calls-append k cs ds)
    ∙ sym (append_assoc (about_block k c) (block_calls k cs) (block_calls k ds))

-- The loops over the cells.
in_cells : ℕ → ℕ → ℕ → Bool
in_cells k i n = leb i k && ltb k (i + n)

cells_malloc :
    (k i n : ℕ) → block_calls k (each_cell malloc i n) ≡ (if in_cells k i n then true ∷ [] else [])
unfolding block_calls in_cells
cells_malloc k i zero = ground arith
cells_malloc k i (suc n) = ground (arith, cells_malloc k (suc i) n)

cells_free :
    (k i n : ℕ) → block_calls k (each_cell free i n) ≡ (if in_cells k i n then false ∷ [] else [])
unfolding block_calls in_cells
cells_free k i zero = ground arith
cells_free k i (suc n) = ground (arith, cells_free k (suc i) n)

cells_live :
    (act : ℕ → Act) (i n : ℕ)
    → ((k : ℕ) → on_stmt live (act k) ≡ some live)
    → stmt_after live (each_cell act i n) ≡ some live
unfolding stmt_after
cells_live act i zero h = refl
cells_live act i (suc n) h = rw (stmt_after, h i) (cells_live act (suc i) n h)

fetches_live : (n : ℕ) → stmt_after live (replicate n stmt_fetch) ≡ some live
unfolding stmt_after
fetches_live zero = refl
fetches_live (suc n) = fetches_live n

fetches_none : (k n : ℕ) → block_calls k (replicate n stmt_fetch) ≡ []
unfolding block_calls
fetches_none k zero = refl
fetches_none k (suc n) = fetches_none k n

-- The block is allocated and then freed, each once, or not at all.
abbrev pub IsFreed : ℕ → List Act → Type 0
IsFreed k cs = (block_calls k cs ≡ []) ⊎ (block_calls k cs ≡ true ∷ false ∷ [])

pub message_live : (b : Bool) → stmt_after live (message b) ≡ some live
unfolding stmt_after
message_live true = refl
message_live false = refl

pub message_none : (k : ℕ) (b : Bool) → block_calls k (message b) ≡ []
unfolding block_calls
message_none k true = refl
message_none k false = refl

-- What stands between the allocations and the releases.
abbrev fetched : Answers → ℕ → List Act
fetched a n =
    if a.bind_result_fails then message true else replicate n stmt_fetch ++ message a.rows_left

if_live :
    (b c : Bool) (n : ℕ)
    → stmt_after live (if b then message true else replicate n stmt_fetch ++ message c) ≡ some live
unfolding stmt_after
if_live true c n = refl
if_live false c n =
    stmt_after-append live live (replicate n stmt_fetch) (message c) (fetches_live n)
    ∙ message_live c

if_none :
    (k : ℕ) (b c : Bool) (n : ℕ)
    → block_calls k (if b then message true else replicate n stmt_fetch ++ message c) ≡ []
unfolding block_calls
if_none k true c n = refl
if_none k false c n =
    block_calls-append k (replicate n stmt_fetch) (message c)
    ∙ ap (λ t. t ++ block_calls k (message c)) (fetches_none k n)
    ∙ message_none k c

pub result_blocks-live : (a : Answers) (n f : ℕ) → stmt_after live (result_blocks a n f) ≡ some live
unfolding result_blocks stmt_after
result_blocks-live a n f =
    let ends : List Act = free 0 ∷ free 3 ∷ free 1 ∷ free 2 ∷ free_result ∷ [] in
    let frees =
      stmt_after-append live live (each_cell free first_cell n) ends
        (cells_live free first_cell n (λ k. refl)) in
    let fetches =
      stmt_after-append live live (fetched a (f + 1)) (each_cell free first_cell n ++ ends)
        (if_live a.bind_result_fails a.rows_left (f + 1)) in
    stmt_after-append live live (each_cell malloc first_cell n) _
      (cells_live malloc first_cell n (λ k. refl))
    ∙ fetches
    ∙ frees

abbrev ends : List Act
ends = free 0 ∷ free 3 ∷ free 1 ∷ free 2 ∷ free_result ∷ []

middle :
    (k n : ℕ) (fetches : List Act)
    → block_calls k fetches ≡ []
    → block_calls k
        (each_cell malloc 4 n ++ (stmt_bind_result ∷ (fetches ++ (each_cell free 4 n ++ ends))))
      ≡ (if in_cells k 4 n then true ∷ [] else [])
        ++ ((if in_cells k 4 n then false ∷ [] else []) ++ block_calls k ends)
unfolding block_calls
middle k n fetches e =
    block_calls-append k (each_cell malloc 4 n)
      (stmt_bind_result ∷ (fetches ++ (each_cell free 4 n ++ ends)))
    ∙ ap (λ t. t ++ block_calls k (fetches ++ (each_cell free 4 n ++ ends))) (cells_malloc k 4 n)
    ∙ ap (λ t. (if in_cells k 4 n then true ∷ [] else []) ++ t)
        (block_calls-append k fetches (each_cell free 4 n ++ ends)
          ∙ ap (λ t. t ++ block_calls k (each_cell free 4 n ++ ends)) e
          ∙ block_calls-append k (each_cell free 4 n) ends
          ∙ ap (λ t. t ++ block_calls k ends) (cells_free k 4 n))

-- The four blocks, and what stands between.
whole : ℕ → Bool → List Bool
whole k b =
    about_block k (malloc 0)
    ++ (about_block k (malloc 1)
        ++ (about_block k (malloc 2)
            ++ (about_block k (malloc 3)
                ++ ((if b then true ∷ [] else [])
                    ++ ((if b then false ∷ [] else [])
                        ++ (about_block k (free 0)
                            ++ (about_block k (free 3)
                                ++ (about_block k (free 1) ++ (about_block k (free 2) ++ [])))))))))

whole_paired :
    (k : ℕ) (b : Bool) → (b ≡ true → 4 ≤ k) → (whole k b ≡ []) ⊎ (whole k b ≡ true ∷ false ∷ [])
unfolding whole
whole_paired zero false h = inr refl
whole_paired (suc zero) false h = inr refl
whole_paired (suc (suc zero)) false h = inr refl
whole_paired (suc (suc (suc zero))) false h = inr refl
whole_paired (suc (suc (suc (suc k)))) false h = inl (ground arith)
whole_paired (suc (suc (suc (suc k)))) true h = inr (ground arith)
whole_paired zero true h = absurd (omega (arith, h refl))
whole_paired (suc zero) true h = absurd (omega (arith, h refl))
whole_paired (suc (suc zero)) true h = absurd (omega (arith, h refl))
whole_paired (suc (suc (suc zero))) true h = absurd (omega (arith, h refl))

pub result_blocks-IsFreed : (a : Answers) (n f k : ℕ) → IsFreed k (result_blocks a n f)
unfolding result_blocks block_calls whole in_cells
result_blocks-IsFreed a n f k =
    rw (middle k n (fetched a (f + 1)) (if_none k a.bind_result_fails a.rows_left (f + 1)))
      (whole_paired k (in_cells k 4 n) (λ e. ground (arith, e)))
