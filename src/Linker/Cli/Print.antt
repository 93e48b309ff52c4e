-- ===== src/Linker/Cli/Print.antt =====
-- A command line written out and parsed.
use aic_lib.Base.{
  ℕ, suc, ◌+◌, ◌≡◌, refl, arith, true, false, List, [], ◌∷◌, ◌++◌, some, length, ◌∙◌, ap,
}
use aic_lib.Linker.Strings.{Str, scmp, same_string, sncmp, is_zero}
use aic_lib.Linker.Cli.Text
use aic_lib.Linker.Cli.{Settings, ready, target, is_option, classify, cli_loop, cli_parse}

-- A setting that the command line can make.
pub data Choice : Type 0 where
  choose_list : Choice
  choose_verify : Choice
  choose_path : Str → Choice
  choose_preload : Str → Choice

unfoldable pub choice_text : Choice → List Str
choice_text choose_list = Text.list ∷ []
choice_text choose_verify = Text.verify ∷ []
choice_text (choose_path path) = Text.library_path ∷ path ∷ []
choice_text (choose_preload names) = Text.preload ∷ names ∷ []

unfoldable pub choices_text : List Choice → List Str
unfolding choice_text
choices_text [] = []
choices_text (c ∷ cs) = choice_text c ++ choices_text cs

unfoldable pub set_choice : Choice → Settings → Settings
set_choice choose_list s = record s { list_mode = true }
set_choice choose_verify s = record s { verify_mode = true }
set_choice (choose_path path) s = record s { library_path = some path }
set_choice (choose_preload names) s = record s { preload_path = some names }

unfoldable pub set_choices : List Choice → Settings → Settings
unfolding set_choice
set_choices [] s = s
set_choices (c ∷ cs) s = set_choices cs (set_choice c s)

same_string-plain :
    (a : Str) (y : ℕ) (b : Str) → is_option a ≡ false → same_string a (b'-' ∷ y ∷ b) ≡ false
unfolding is_option same_string scmp is_zero
same_string-plain [] y b h = refl
same_string-plain (c ∷ []) y b h = ground arith
same_string-plain (c ∷ d ∷ a) y b h = ground arith

sncmp-plain :
    (a : Str) (y : ℕ) (b : Str) (n : ℕ)
    → is_option a ≡ false
    → is_zero (sncmp a (b'-' ∷ y ∷ b) (suc (suc n))) ≡ false
unfolding is_option sncmp is_zero
sncmp-plain [] y b n h = refl
sncmp-plain (c ∷ []) y b n h = ground arith
sncmp-plain (c ∷ d ∷ a) y b n h = ground arith

classify-plain : (a : Str) → is_option a ≡ false → classify a ≡ target
unfolding classify
classify-plain a h =
    let no_text : (y : ℕ) (b : Str) → same_string a (b'-' ∷ y ∷ b) ≡ false =
      λ y b. same_string-plain a y b h in
    let no_path : is_zero (sncmp a Text.library_path_is 15) ≡ false = sncmp-plain a _ _ 13 h in
    let no_preload : is_zero (sncmp a Text.preload_is 10) ≡ false = sncmp-plain a _ _ 8 h in
    simp (no_text, no_path, no_preload, h) refl

plus_zero : (i : ℕ) → i ≡ i + 0
plus_zero i = omega arith

plus_one : (i n : ℕ) → suc i + n ≡ i + suc n
plus_one i n = omega arith

plus_two : (i n : ℕ) → suc (suc i) + n ≡ i + suc (suc n)
plus_two i n = omega arith

cli_loop-list :
    (i : ℕ) (argv : List Str) (s : Settings)
    → cli_loop i (Text.list ∷ argv) s ≡ cli_loop (suc i) argv (record s { list_mode = true })
unfolding cli_loop classify same_string sncmp scmp is_zero
cli_loop-list i [] s = refl
cli_loop-list i (b ∷ argv) s = refl

cli_loop-verify :
    (i : ℕ) (argv : List Str) (s : Settings)
    → cli_loop i (Text.verify ∷ argv) s ≡ cli_loop (suc i) argv (record s { verify_mode = true })
unfolding cli_loop classify same_string sncmp scmp is_zero
cli_loop-verify i [] s = refl
cli_loop-verify i (b ∷ argv) s = refl

cli_loop-target :
    (i : ℕ) (name : Str) (argv : List Str) (s : Settings)
    → classify name ≡ target
    → cli_loop i (name ∷ argv) s ≡ ready s (some (i + 0))
unfolding cli_loop
cli_loop-target i name [] s h = rw (h, cli_loop) (ap (λ (x : ℕ). ready s (some x)) (plus_zero i))
cli_loop-target i name (b ∷ argv) s h =
    rw (h, cli_loop) (ap (λ (x : ℕ). ready s (some x)) (plus_zero i))

-- `cli_loop` on the text of the choices, and a target behind them.
cli_loop-choices :
    (cs : List Choice) (i : ℕ) (name : Str) (argv : List Str) (s : Settings)
    → is_option name ≡ false
    → cli_loop i (choices_text cs ++ (name ∷ argv)) s
      ≡ ready (set_choices cs s) (some (i + length (choices_text cs)))
unfolding choices_text set_choices choice_text set_choice cli_loop classify same_string sncmp scmp
    is_zero
cli_loop-choices [] i name argv s h = cli_loop-target i name argv s (classify-plain name h)
cli_loop-choices (choose_list ∷ cs) i name argv s h =
    cli_loop-list i (choices_text cs ++ (name ∷ argv)) s
    ∙ cli_loop-choices cs (suc i) name argv (record s { list_mode = true }) h
    ∙ ap (λ (x : ℕ). ready (set_choices cs (record s { list_mode = true })) (some x))
        (plus_one i (length (choices_text cs)))
cli_loop-choices (choose_verify ∷ cs) i name argv s h =
    cli_loop-verify i (choices_text cs ++ (name ∷ argv)) s
    ∙ cli_loop-choices cs (suc i) name argv (record s { verify_mode = true }) h
    ∙ ap (λ (x : ℕ). ready (set_choices cs (record s { verify_mode = true })) (some x))
        (plus_one i (length (choices_text cs)))
cli_loop-choices (choose_path path ∷ cs) i name argv s h =
    cli_loop-choices cs (suc (suc i)) name argv (record s { library_path = some path }) h
    ∙ ap (λ (x : ℕ). ready (set_choices cs (record s { library_path = some path })) (some x))
        (plus_two i (length (choices_text cs)))
cli_loop-choices (choose_preload names ∷ cs) i name argv s h =
    cli_loop-choices cs (suc (suc i)) name argv (record s { preload_path = some names }) h
    ∙ ap (λ (x : ℕ). ready (set_choices cs (record s { preload_path = some names })) (some x))
        (plus_two i (length (choices_text cs)))

-- A command line of settings, a target that is not an option and the target's own arguments is
-- parsed back: `cli_parse` makes the settings in their order and gives the index of the target.
pub cli_parse-choices :
    (cs : List Choice) (name : Str) (argv : List Str) (s : Settings)
    → is_option name ≡ false
    → cli_parse (choices_text cs ++ (name ∷ argv)) s
      ≡ ready
          (set_choices cs (record s { list_mode = false; verify_mode = false }))
          (some (1 + length (choices_text cs)))
unfolding cli_parse
cli_parse-choices cs name argv s h =
    cli_loop-choices cs 1 name argv (record s { list_mode = false; verify_mode = false }) h
