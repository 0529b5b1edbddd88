-- ===== src/Util/Files.antt =====
-- util/util.go: CopyDir, CopyFile and PathExists. The deferred Close calls, whose results are
-- dropped, are no events here.
pub mod Copied
mod Examples
use cube_apiserver.Prelude.{
  ℕ, Str, str, Bool, true, false, Option, none, some, List, [], ◌∷◌, ◌++◌, if◌then◌else◌,
}
use cube_apiserver.Base.Errors.{Err}
use cube_apiserver.Base.Text.{split}
use cube_apiserver.Base.Effect.{Flow, pure, give_back, ask, emit, ◌>>=◌, ◌>>◌, run}

-- The calls of the package os, and io.Copy of the second file into the first.
pub data Event : Type 0 where
  open_file stat make_directory create_file : Str → Event
  copy : Str → Str → Event

-- What CopyFile returns: the number of bytes and the error.
abbrev pub Written : Type 0
Written = ℕ × Option Err

-- The answers, each to the newest call; os.IsNotExist, and strings.Replace with no limit, of its
-- text, the old and the new part.
pub record Env : Type 0 where
  pub opened : List Event → Option Err
  pub stat_answer : List Event → Option Err
  pub created : List Event → Option Err
  pub copied : List Event → Written
  pub is_not_exist : Err → Bool
  pub replace : Str → Str → Str → Str

-- What filepath.Walk gives to its function: a path without the file's information, a directory or
-- another file, each with an error.
pub data Visit : Type 0 where
  unknown directory file : Str → Option Err → Visit

-- The loop over the parts but the last, with destDir so far.
unfoldable pub dest_dir_loop : Str → List Str → Str
dest_dir_loop dest_dir [] = dest_dir
dest_dir_loop dest_dir (d ∷ []) = dest_dir
dest_dir_loop dest_dir (d ∷ e ∷ ds) = dest_dir_loop (dest_dir ++ d ++ str "/") (e ∷ ds)

-- The directory of a path, with the slash.
abbrev pub dest_dir : Str → Str
dest_dir dst = dest_dir_loop [] (split b'/' dst)

abbrev is_none : Option Err → Bool
is_none none = true
is_none (some e) = false

module _ (env : Env) where
  abbrev pub path_answer : Option Err → Bool × Option Err
  path_answer none = (true, none)
  path_answer (some e) = if env.is_not_exist e then (false, none) else (false, some e)

  -- PathExists
  abbrev pub path_exists : Str → Flow Event Written (Bool × Option Err)
  path_exists path = ask (stat path) λ h. path_answer (env.stat_answer h)

  -- An error of os.Open or of os.Create ends CopyFile.
  unfoldable pub unless_failed : Option Err → Flow Event Written (Unit {0})
  unless_failed none = pure tt
  unless_failed (some e) = give_back (0, some e)

  -- Whatever Stat fails with, the directory is made; an error of that is only logged.
  unfoldable pub make_missing : Str → Bool × Option Err → Flow Event Written (Unit {0})
  make_missing dir (true, _) = pure tt
  make_missing dir (false, _) = emit (make_directory dir)

  unfoldable pub copy_file : Str → Str → Flow Event Written Written
  unfolding unless_failed make_missing
  copy_file src dst =
      ask (open_file src) env.opened
      >>= unless_failed
      >> path_exists (dest_dir dst)
      >>= make_missing (dest_dir dst)
      >> ask (create_file dst) env.created
      >>= unless_failed
      >> ask (copy dst src) env.copied

  module _ (src dest : Str) where
    -- The function of CopyDir; the result of CopyFile is dropped.
    unfoldable pub visit : Visit → List Event → Option Err × List Event
    visit (unknown path error) h = (error, h)
    visit (directory path error) h = (none, h)
    visit (file path error) h = (none, (run (copy_file path (env.replace path src dest)) h).1)

    -- filepath.Walk over what it finds: an error of the function ends the walk. CopyDir logs it.
    unfoldable pub copy_dir : List Visit → List Event → List Event
    unfolding visit
    copy_dir [] h = h
    copy_dir (v ∷ vs) h =
        let r = visit v h in let rest = copy_dir vs r.1 in if is_none r.0 then rest else r.1
