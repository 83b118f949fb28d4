-- ===== src/Settings/Files.antt =====
-- The calls of the system that cmd/splitter/acl_windows.go and the reading and writing of the
-- settings in cmd/splitter/config_windows.go make.
use gov_pass.Prelude.{
  ℕ, Bool, true, Option, none, some, List, [], ◌∷◌, ◌++◌, if◌then◌else◌, is_empty, take, length,
  drop, ◌-◌,
}
use gov_pass.Flow.{bytes_eq}
use gov_pass.Settings.{Text, Library, JsonConfig}

-- What the code takes from `os` and `path/filepath`: the environment's ProgramData, Join, Dir,
-- Clean and Abs (`none` is its error).
pub record Paths : Type 0 where
  pub program_data : Text
  pub join : List Text → Text
  pub dir : Text → Text
  pub clean : Text → Text
  pub absolute : Text → Option Text

pub data FileCall : Type 0 where
  look_path : FileCall
  mkdir_all icacls_reset icacls_harden_dir icacls_harden_file : Text → FileCall
  stat read_file create_file : Text → FileCall
  write_file : Text → JsonConfig → FileCall
  close_file : Text → FileCall

-- What a call returns. `found` is a file's content as encoding/json reads it, and `exists` and
-- `missing` are os.ErrExist and os.ErrNotExist.
pub data Answer : Type 0 where
  success exists missing : Answer
  found : JsonConfig → Answer
  failure : ℕ → Answer

pub data FileError : Type 0 where
  no_path : FileError
  call_error : Answer → FileError

-- What a stretch of the code gives: a value or an error.
pub data Outcome (E A : Type 0) : Type 0 where
  ok : A → Outcome E A
  err : E → Outcome E A

-- Code that makes calls: from the calls so far, those with its own, and the outcome.
abbrev pub Act : Type 0 → Type 0 → Type 0
Act E A = List FileCall → List FileCall × Outcome E A

abbrev pub pure : {E A : Type 0} → A → Act E A
pure a log = (log, ok a)

abbrev pub raise : {E A : Type 0} → E → Act E A
raise e log = (log, err e)

abbrev pub follow :
    {E A B : Type 0} → List FileCall × Outcome E A → (A → Act E B) → List FileCall × Outcome E B
follow (log, ok a) f = f a log
follow (log, err e) f = (log, err e)

infixl 5 ◌>>=◌ ◌>>◌
abbrev pub ◌>>=◌ : {E A B : Type 0} → Act E A → (A → Act E B) → Act E B
◌>>=◌ m f log = follow (m log) f

abbrev pub ◌>>◌ : {E A B : Type 0} → Act E A → Act E B → Act E B
m >> k = m >>= λ _. k

-- fmt.Errorf with `%w`
abbrev pub wrapped :
    {E F A : Type 0} → (E → F) → List FileCall × Outcome E A → List FileCall × Outcome F A
wrapped f (log, ok a) = (log, ok a)
wrapped f (log, err e) = (log, err (f e))

abbrev pub wrap : {E F A : Type 0} → (E → F) → Act E A → Act F A
wrap f m log = wrapped f (m log)

-- The answer is an error unless it is a success.
abbrev pub checked : Answer → Outcome FileError (Unit {0})
checked success = ok tt
checked (found j) = ok tt
checked exists = err (call_error exists)
checked missing = err (call_error missing)
checked (failure n) = err (call_error (failure n))

-- `answer` is what the system answers to a call after those before it.
module _ (answer : List FileCall → FileCall → Answer) where
  -- A call that gives its answer.
  abbrev pub ask : {E : Type 0} → FileCall → Act E Answer
  ask c log = (log ++ c ∷ [], ok (answer log c))

  -- A call whose error ends the code.
  abbrev pub call : FileCall → Act FileError (Unit {0})
  call c log = (log ++ c ∷ [], checked (answer log c))

  -- writeWindowsJSONConfigIfMissing: a file that is there is left alone.
  abbrev pub on_created : Text → JsonConfig → Answer → Act FileError (Unit {0})
  on_created path j exists = pure tt
  on_created path j success = call (write_file path j) >> call (close_file path)
  on_created path j (found i) = call (write_file path j) >> call (close_file path)
  on_created path j missing = raise (call_error missing)
  on_created path j (failure n) = raise (call_error (failure n))

  module _ (lib : Library) (paths : Paths) where
    unfoldable pub write_if_missing : Text → JsonConfig → Act FileError (Unit {0})
    write_if_missing path j =
        call (mkdir_all (paths.dir path)) >> (ask (create_file path) >>= on_created path j)

    -- hardenWindowsDirACL
    unfoldable pub harden_dir : Text → Act FileError (Unit {0})
    harden_dir dir = call look_path >> call (icacls_reset dir) >> call (icacls_harden_dir dir)

    -- ensureSecureWindowsDir
    unfoldable pub secure_dir : Text → Act FileError (Unit {0})
    secure_dir dir =
        let trimmed = lib.trim_space dir in
        if is_empty trimmed then raise no_path else call (mkdir_all trimmed) >> harden_dir trimmed

    -- hardenWindowsFileACL
    unfoldable pub harden_file : Text → Act FileError (Unit {0})
    harden_file path =
        let trimmed = lib.trim_space path in
        if is_empty trimmed
        then raise no_path
        else call look_path >> call (icacls_reset trimmed) >> call (icacls_harden_file trimmed)

-- strings.HasPrefix and strings.HasSuffix
abbrev pub has_prefix : Text → Text → Bool
has_prefix s prefix = bytes_eq (take (length prefix) s) prefix

module _ (lib : Library) (paths : Paths) where
  abbrev absolute_or_clean : Text → Text
  absolute_or_clean path = elim (paths.absolute (paths.clean path)) [
    | some p ↦ p
    | none ↦ paths.clean path
  ]

  -- A directory's path with a backslash at its end.
  abbrev with_separator : Text → Text
  with_separator d = if bytes_eq (drop (length d - 1) d) (92 ∷ []) then d else (d ++ 92 ∷ [])

  -- isUnderDir
  unfoldable pub is_under_dir : Text → Text → Bool
  is_under_dir path dir =
      let p = lib.to_lower (absolute_or_clean path) in
      let d = lib.to_lower (absolute_or_clean dir) in
      if bytes_eq p d then true else has_prefix p (with_separator d)
