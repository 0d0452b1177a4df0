-- ===== src/Program/Service.antt =====
-- RtCSP.c: which calls `main` makes, for every command line.
use rt_csp.Base.{
  ℕ, ◌≡◌, refl, ap, Bool, true, false, Option, none, some, List, [], ◌∷◌, if◌then◌else◌, str_eq,
  if_cases, ℤ,
}
use mathlib.Core.Path.{subst}
use rt_csp.Program.{usage, Options, ended, shown, crashed, out_of_fuel}
use rt_csp.Program.Server.{
  Settings, hide_args, hide_arg, Call, server_start, server_stop, server_status, Done, Outcome,
  done, faulty, starving, start_text, stop_text, restart_text, status_text, control, serve,
  after_options, main,
}

abbrev is_status : Call → Bool
is_status server_status = true
is_status server_start = false
is_status server_stop = false

abbrev pub has_status : List Call → Bool
has_status [] = false
has_status (c ∷ cs) = if is_status c then true else has_status cs

-- What holds of the outcome if the program comes to its end.
abbrev IfDone : (Done → Type 0) → Outcome → Type 0
IfDone P (done d) = P d
IfDone P faulty = Unit {0}
IfDone P starving = Unit {0}

-- A property of all outcomes is one of those for each end of the loop.
main_rule :
    (P : Done → Type 0)
    → ((r : Options Settings) → IfDone P (after_options r))
    → (fuel : ℕ) (atoi : List ℕ → ℤ) (processors : ℕ) (argv : List (List ℕ)) (s : Settings)
      (d : Done)
    → main fuel atoi processors argv s ≡ done d
    → P d
unfolding main
main_rule P h fuel atoi processors argv s d e = subst (IfDone P) e (h _)

-- A property of all that the chain of comparisons leads to.
control_rule :
    (P : Done → Type 0) (t : List ℕ) (s : Settings)
    → P (record {
      calls = server_stop ∷ server_start ∷ [];
      page = none;
      exit_status = 0;
      settings = s;
    })
    → P (record { calls = server_stop ∷ []; page = none; exit_status = 0; settings = s })
    → P (record { calls = server_start ∷ []; page = none; exit_status = 0; settings = s })
    → P (record { calls = []; page = some usage; exit_status = 1; settings = s })
    → P (control t s)
unfolding control
control_rule P t s both stop start neither =
    if_cases P (str_eq t restart_text) _ _ (λ _. both)
      (λ _.
        if_cases P (str_eq t stop_text) _ _ (λ _. stop)
          (λ _.
            if_cases P (str_eq t start_text) _ _ (λ _. start)
              (λ _. if_cases P (str_eq t status_text) _ _ (λ _. stop) (λ _. neither))))

serve-no_status : (o : Option (List ℕ)) (s : Settings) → has_status (serve o s).calls ≡ false
unfolding serve
serve-no_status none s = refl
serve-no_status (some t) s = control_rule (λ d. has_status d.calls ≡ false) t s refl refl refl refl

after_options-no_status :
    (r : Options Settings) → IfDone (λ d. has_status d.calls ≡ false) (after_options r)
unfolding after_options
after_options-no_status (ended s) =
    serve-no_status (if s.hide_argv then hide_args s else s).serv_opt
      (if s.hide_argv then hide_args s else s)
after_options-no_status (shown page s) = refl
after_options-no_status crashed = tt
after_options-no_status out_of_fuel = tt

-- No command line makes the program call `server_status`, the one with `-s status` included.
pub main-no_status :
    (fuel : ℕ) (atoi : List ℕ → ℤ) (processors : ℕ) (argv : List (List ℕ)) (s : Settings) (d : Done)
    → main fuel atoi processors argv s ≡ done d
    → has_status d.calls ≡ false
main-no_status = main_rule (λ d. has_status d.calls ≡ false) after_options-no_status

serve-settings : (o : Option (List ℕ)) (s : Settings) → (serve o s).settings ≡ s
unfolding serve
serve-settings none s = refl
serve-settings (some t) s = control_rule (λ d. d.settings ≡ s) t s refl refl refl refl

-- What is left of a service option in an overwritten `argv` is the empty text.
serve-hidden : (o : Option (List ℕ)) (s : Settings) → (serve (hide_arg o) s).calls ≡ []
unfolding serve control
serve-hidden none s = refl
serve-hidden (some t) s = refl

abbrev QuietIfHidden : Done → Type 0
QuietIfHidden d = d.settings.hide_argv ≡ true → d.calls ≡ []

after_options-hidden : (r : Options Settings) → IfDone QuietIfHidden (after_options r)
unfolding after_options hide_args
after_options-hidden (ended s) =
    if_cases (λ u. QuietIfHidden (serve u.serv_opt u)) s.hide_argv (hide_args s) s
      (λ _ _. serve-hidden s.serv_opt (hide_args s))
      (λ in_view h. absurd (let e = ap (λ u. u.hide_argv) (serve-settings s.serv_opt s) in cc))
after_options-hidden (shown page s) = λ h. refl
after_options-hidden crashed = tt
after_options-hidden out_of_fuel = tt

-- If the program hides its arguments, it makes no call: the service option is overwritten before it is
-- looked at.
pub main-hidden :
    (fuel : ℕ) (atoi : List ℕ → ℤ) (processors : ℕ) (argv : List (List ℕ)) (s : Settings) (d : Done)
    → main fuel atoi processors argv s ≡ done d
    → d.settings.hide_argv ≡ true
    → d.calls ≡ []
main-hidden = main_rule QuietIfHidden after_options-hidden
