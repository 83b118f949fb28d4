-- ===== src/Settings/Acts.antt =====
-- What the calls of a run do to the settings file, and what its outcome depends on: the code of
-- cmd/splitter/config_windows.go and cmd/splitter/main_windows.go around its calls of the system.
use gov_pass.Prelude.{
  ◌≡◌, refl, ap, ◌∙◌, Bool, Option, none, some, List, [], if_cases, if◌then◌else◌, ◌∷◌, ◌++◌,
}
use gov_pass.Flow.{bytes_eq}
use gov_pass.Engine.Config.{Config, SplitMode}
use gov_pass.Settings.{Library, RunConfig, Text, parse_split_mode}
use gov_pass.Settings.Validation.{Invalid, validate_engine_config, validate_windows_run_config}
use gov_pass.Settings.Files.{
  FileCall, look_path, mkdir_all, icacls_reset, icacls_harden_dir, icacls_harden_file, stat,
  read_file, create_file, write_file, close_file, Answer, found, Outcome, pure, ok, err, Act,
  follow,
}
use gov_pass.Settings.Flags.{Flag, flag_split_mode, CliArgs, override_engine, override_run}
use gov_pass.Settings.Effective.{
  EffectiveError, finish, override_mode, mode_of, reject, validated, keep_driver,
}

-- What reading the file at `path` gives after a call: the writes decide its content.
abbrev pub after_call : Text → Answer → FileCall → Answer
after_call path a (write_file p j) = if bytes_eq p path then found j else a
after_call path a look_path = a
after_call path a (mkdir_all p) = a
after_call path a (icacls_reset p) = a
after_call path a (icacls_harden_dir p) = a
after_call path a (icacls_harden_file p) = a
after_call path a (stat p) = a
after_call path a (read_file p) = a
after_call path a (create_file p) = a
after_call path a (close_file p) = a

-- The same, after all the calls of a run.
pub file_after : Text → Answer → List FileCall → Answer
file_after path a [] = a
file_after path a (c ∷ cs) = file_after path (after_call path a c) cs

pub file_after-snoc :
    (path : Text) (a : Answer) (l : List FileCall) (c : FileCall)
    → file_after path a (l ++ c ∷ []) ≡ after_call path (file_after path a l) c
unfolding file_after
file_after-snoc path a [] c = refl
file_after-snoc path a (d ∷ l) c = file_after-snoc path (after_call path a d) l c

-- The outcome does not depend on the calls before.
abbrev pub IsLogFree : {E A : Type 0} → Act E A → Type 0
IsLogFree m = (l k : List FileCall) → (m l).1 ≡ (m k).1

follow-IsLogFree :
    {E A B : Type 0} (o p : List FileCall × Outcome E A) (f : A → Act E B)
    → o.1 ≡ p.1
    → ((a : A) → IsLogFree (f a))
    → (follow o f).1 ≡ (follow p f).1
follow-IsLogFree (l, ok a) (k, ok b) f h free =
    let same : a ≡ b = cc h in free a l k ∙ ap (λ x. (f x k).1) same
follow-IsLogFree (l, err d) (k, err e) f h free = let same : d ≡ e = cc h in ap err same
follow-IsLogFree (l, ok a) (k, err e) f h free = cc h
follow-IsLogFree (l, err d) (k, ok b) f h free = cc h

-- What follows a success.
pub ok-follow :
    {E A B : Type 0} (m : List FileCall × Outcome E A) (f : A → Act E B) (a : A) (end : Outcome E B)
    → m.1 ≡ ok a
    → ((log : List FileCall) → (f a log).1 ≡ end)
    → (follow m f).1 ≡ end
ok-follow (l, ok b) f a end h next = let same : b ≡ a = cc h in ap (λ x. (f x l).1) same ∙ next l
ok-follow (l, err e) f a end h next = cc h

-- The same, with the calls.
pub follow-value :
    {E A B : Type 0} (m : List FileCall × Outcome E A) (f : A → Act E B) (a : A)
    → m.1 ≡ ok a
    → follow m f ≡ f a m.0
follow-value (l, ok b) f a h = let same : b ≡ a = cc h in ap (λ x. f x l) same
follow-value (l, err e) f a h = cc h

-- Code that makes no calls.
unfoldable pub MakesNone : {E A : Type 0} → Act E A → Type 0
MakesNone m = (l : List FileCall) → (m l).0 ≡ l

follow-MakesNone :
    {E A B : Type 0} (m : Act E A) (f : A → Act E B)
    → MakesNone m
    → ((a : A) → MakesNone (f a))
    → MakesNone (λ l. follow (m l) f)
unfolding MakesNone
follow-MakesNone {E} {A} m f before behind l = go (m l) ∙ before l
  where
    go : (o : List FileCall × Outcome E A) → (follow o f).0 ≡ o.0
    go (k, ok a) = behind a k
    go (k, err e) = refl

pure-MakesNone : (E : Type 0) {A : Type 0} (a : A) → MakesNone (pure {E = E} a)
unfolding MakesNone
pure-MakesNone E a l = refl

mode_of-MakesNone : (m : Option SplitMode) (c : Config) → MakesNone (mode_of m c)
unfolding MakesNone
mode_of-MakesNone none c l = refl
mode_of-MakesNone (some m) c l = refl

reject-MakesNone : {A : Type 0} (v : Option Invalid) (a : A) → MakesNone (reject v a)
unfolding MakesNone
reject-MakesNone none a l = refl
reject-MakesNone (some e) a l = refl

pub finish-MakesNone :
    (lib : Library) (set : Flag → Bool) (args : CliArgs) (as_service : Bool)
    (d : Config × RunConfig)
    → MakesNone (finish lib set args as_service d)
unfolding finish override_mode validated
finish-MakesNone lib set args as_service d =
    follow-MakesNone _ _
      (if_cases (λ (m : Act EffectiveError Config). MakesNone m) (set flag_split_mode)
        (λ _. mode_of-MakesNone (parse_split_mode lib args.split_mode) d.0)
        (λ _. pure-MakesNone EffectiveError d.0))
      (λ c.
        follow-MakesNone _ _
          (follow-MakesNone _ _
            (reject-MakesNone (validate_engine_config (override_engine set args c)) tt)
            (λ _.
              reject-MakesNone
                (validate_windows_run_config lib
                  (keep_driver as_service (override_run set args d.1)))
                tt))
          (λ _. pure-MakesNone EffectiveError _))

mode_of-IsLogFree : (m : Option SplitMode) (c : Config) → IsLogFree (mode_of m c)
mode_of-IsLogFree none c l k = refl
mode_of-IsLogFree (some m) c l k = refl

reject-IsLogFree : {A : Type 0} (v : Option Invalid) (a : A) → IsLogFree (reject v a)
reject-IsLogFree none a l k = refl
reject-IsLogFree (some e) a l k = refl

pub finish-IsLogFree :
    (lib : Library) (set : Flag → Bool) (args : CliArgs) (as_service : Bool)
    (d : Config × RunConfig)
    → IsLogFree (finish lib set args as_service d)
unfolding finish override_mode validated
finish-IsLogFree lib set args as_service d l k =
    follow-IsLogFree (override_mode lib set args d.0 l) (override_mode lib set args d.0 k) _
      (if_cases (λ (m : Act EffectiveError Config). IsLogFree m) (set flag_split_mode)
        (λ _. mode_of-IsLogFree (parse_split_mode lib args.split_mode) d.0) (λ _ _ _. refl) l k)
      λ c i j.
        follow-IsLogFree _ _ _
          (follow-IsLogFree _ _ _
            (reject-IsLogFree (validate_engine_config (override_engine set args c)) tt i j)
            (λ a.
              reject-IsLogFree
                (validate_windows_run_config lib
                  (keep_driver as_service (override_run set args d.1)))
                tt))
          (λ _ _ _. refl)
