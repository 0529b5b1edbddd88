-- ===== src/Util/Files/Examples.antt =====
-- A tree with one image in a directory, copied to a disk that has nothing yet.
use cube_apiserver.Prelude.{Str, str, true, none, some, List, [], ◌∷◌, ◌++◌, ◌≡◌, refl}
use cube_apiserver.Base.Errors.{not_found}
use cube_apiserver.Base.Text.{Free, split}
use cube_apiserver.Base.Effect.{◌>>=◌}
use cube_apiserver.Base.Trace.{Since}
use cube_apiserver.Util.Files.{
  open_file, stat, make_directory, create_file, copy, Env, Visit, unknown, directory, file,
  dest_dir, dest_dir_loop, unless_failed, make_missing, copy_file, visit, copy_dir,
}
use cube_apiserver.Util.Files.Copied.{Meant, copy_dir-Meant, dest_dir-append}

abbrev empty_disk : Env
empty_disk = record {
  opened = λ h. none;
  stat_answer = λ h. some not_found;
  created = λ h. none;
  copied = λ h. (7, none);
  is_not_exist = λ e. true;
  replace = λ text old new. str "web/images/a.png";
}

-- The last entry is not reached: the walk ends with the error before it.
abbrev images : List Visit
images =
    directory (str "images") none
    ∷ file (str "images/a.png") none
    ∷ unknown (str "images/b.png") (some not_found)
    ∷ file (str "images/c.png") none
    ∷ []

copied_images_test :
    copy_dir empty_disk (str "images") (str "web/images") images []
    ≡ copy (str "web/images/a.png") (str "images/a.png")
      ∷ create_file (str "web/images/a.png")
      ∷ make_directory (str "web/images/")
      ∷ stat (str "web/images/")
      ∷ open_file (str "images/a.png")
      ∷ []
unfolding copy_dir visit copy_file unless_failed make_missing dest_dir_loop split ◌>>=◌
copied_images_test = refl

copy_dir-Meant_example :
    Since
      (Meant empty_disk (str "images") (str "web/images") images)
      []
      (copy_dir empty_disk (str "images") (str "web/images") images [])
copy_dir-Meant_example = copy_dir-Meant empty_disk (str "images") (str "web/images") images []

dest_dir-append_example :
    (base : Str) × (str "web/images/a.png" ≡ dest_dir (str "web/images/a.png") ++ base)
    × Free b'/' base
dest_dir-append_example = dest_dir-append (str "web/images/a.png")
