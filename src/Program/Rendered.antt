-- ===== src/Program/Rendered.antt =====
-- The loop over the options, on a command line of long options with their values.
use rt_csp.Base.{
  ℕ, suc, ◌+◌, ◌≡◌, refl, ap, sym, ◌∙◌, false, Option, some, List, [], ◌∷◌, ◌++◌, append_assoc,
  append-nil, length, length-append, get_elem?, arith,
}
use rt_csp.Getopt.{Opt, State}
use rt_csp.Getopt.Long.{dashes, IsLong, after, rtcsp_getopt-long, rtcsp_getopt-end}
use rt_csp.Program.{Choice, goes_on, shows, crashes, Options, ended, shown, crashed, options_loop}

-- An option that takes a value, by its place in the table, with the value.
pub record Given : Type 0 where
  pub name : List ℕ
  pub index : ℕ
  pub opt : Opt
  pub value : List ℕ

abbrev pub render : List Given → List (List ℕ)
render [] = []
render (g ∷ gs) = dashes g.name ∷ g.value ∷ render gs

abbrev pub AllLong : List Opt → List Given → Type 0
AllLong opts [] = Unit {0}
AllLong opts (g ∷ gs) = IsLong opts g.name g.index g.opt × AllLong opts gs

-- The choices for the options one by one.
abbrev pub choose_all :
    {A : Type 0} → (ℕ → Option (List ℕ) → A → Choice A) → List Given → A → Options A
choose_all choose [] a = ended a
choose_all choose (g ∷ gs) a = elim (choose (g.opt).opt_char (some g.value) a) [
  | goes_on b ↦ choose_all choose gs b
  | shows page ↦ shown page a
  | crashes ↦ crashed
]

get_elem?-append :
    (pre rest : List (List ℕ)) (x : List ℕ) → get_elem? (pre ++ x ∷ rest) (length pre) ≡ some x
get_elem?-append [] rest x = refl
get_elem?-append (y ∷ pre) rest x = get_elem?-append pre rest x

-- After the arguments `pre`, the loop makes the choices for the options that are rendered behind them.
pub options_loop-render :
    {A : Type 0} (choose : ℕ → Option (List ℕ) → A → Choice A) (opts : List Opt) (gs : List Given)
    (pre argv : List (List ℕ)) (s : State) (a : A)
    → AllLong opts gs
    → argv ≡ pre ++ render gs
    → s.dash ≡ false
    → s.optind ≡ length pre
    → options_loop (suc (length gs)) choose argv opts s a ≡ choose_all choose gs a
unfolding options_loop
options_loop-render choose opts [] pre argv s a l e no_dash at =
    let size = ap length (e ∙ append-nil pre) in
    rw (options_loop, rtcsp_getopt-end argv opts s (omega arith)) refl
options_loop-render {A} choose opts (g ∷ gs) pre argv s a l e no_dash at =
    let here : get_elem? argv s.optind ≡ some (dashes g.name) =
      rw (e, at) (get_elem?-append pre (g.value ∷ render gs) (dashes g.name)) in
    let pre' = pre ++ dashes g.name ∷ [] in
    let size : length pre' ≡ s.optind + 1 = omega (arith, length-append pre (dashes g.name ∷ [])) in
    let split : argv ≡ pre' ++ g.value ∷ render gs =
      e ∙ sym (append_assoc pre (dashes g.name ∷ []) (g.value ∷ render gs)) in
    let next : get_elem? argv (s.optind + 1) ≡ some g.value =
      rw (split, ← size) (get_elem?-append pre' (render gs) g.value) in
    let pre'' = pre' ++ g.value ∷ [] in
    let size' : s.optind + 2 ≡ length pre'' = omega (arith, length-append pre' (g.value ∷ [])) in
    let split' : argv ≡ pre'' ++ render gs =
      split ∙ sym (append_assoc pre' (g.value ∷ []) (render gs)) in
    let step = rtcsp_getopt-long argv opts s g.name g.value g.index g.opt l.0 no_dash here next in
    let left : (b : A)
        → options_loop (suc (length gs)) choose argv opts (after s g.index g.value) b
          ≡ choose_all choose gs b =
      λ b.
        options_loop-render choose opts gs pre'' argv (after s g.index g.value) b l.1 split' refl
          size' in
    let k = suc (length gs) in
    rw (options_loop, step)
      (elim (choose (g.opt).opt_char (some g.value) a)
        as (λ r.
          elim r [
            | goes_on b ↦ options_loop k choose argv opts (after s g.index g.value) b
            | shows page ↦ shown page a
            | crashes ↦ crashed
          ]
          ≡ elim r [
            | goes_on b ↦ choose_all choose gs b
            | shows page ↦ shown page a
            | crashes ↦ crashed
          ]) [ goes_on b ↦ left b | shows page ↦ refl | crashes ↦ refl ])
