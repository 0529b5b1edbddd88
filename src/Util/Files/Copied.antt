-- ===== src/Util/Files/Copied.antt =====
-- What CopyDir touches, and the directory that CopyFile makes.
use cube_apiserver.Prelude.{
  ℕ, Str, str, if◌then◌else◌, Bool, true, false, none, some, Option, List, [], ◌∷◌, ◌++◌, ◌≡◌, refl,
  ◌⊎◌, sym, ap, ◌∙◌, inl, inr, nat_eq, arith, Bool-cases,
}
use mathlib.Core.List.{append_assoc, append-nil}
use cube_apiserver.Base.Errors.{Err}
use cube_apiserver.Base.Text.{split, grow, Free}
use cube_apiserver.Base.Trace.{Since, here, Since-trans, Since-mono, Adds, adds_rules}
use cube_apiserver.Util.Files.{
  Event, open_file, stat, make_directory, create_file, copy, Env, Visit, unknown, directory, file,
  dest_dir, dest_dir_loop, unless_failed, make_missing, copy_file, visit, is_none, copy_dir,
}

-- The path is of a file, not of a directory, that the walk visits.
abbrev pub Visited : List Visit → Str → Type 0
Visited [] p = ⊥
Visited (file path error ∷ vs) p = (path ≡ p) ⊎ Visited vs p
Visited (_ ∷ vs) p = Visited vs p

-- A call for the file `p`, which goes to `target`.
abbrev pub For : Str → Str → Event → Type 0
For p target (open_file q) = q ≡ p
For p target (stat q) = q ≡ dest_dir target
For p target (make_directory q) = q ≡ dest_dir target
For p target (create_file q) = q ≡ target
For p target (copy dst src) = (dst ≡ target) × (src ≡ p)

module _ (env : Env) where
  module _ (p target : Str) where
    unless_failed-For : (r : Option Err) → Adds (For p target) (unless_failed env r)
    unfolding unless_failed
    unless_failed-For none = search adds_rules
    unless_failed-For (some e) = search adds_rules

    make_missing-For :
        (r : Bool × Option Err) → Adds (For p target) (make_missing env (dest_dir target) r)
    unfolding make_missing
    make_missing-For (true, e) = search adds_rules
    make_missing-For (false, e) = search adds_rules

    copy_file-For : Adds (For p target) (copy_file env p target)
    unfolding copy_file
    copy_file-For = search (adds_rules, unless_failed-For, make_missing-For) depth 9

  either :
      {P : Event → Type 0} {h x y : List Event} (b : Bool)
      → Since P h x
      → Since P h y
      → Since P h (if b then x else y)
  either true s t = s
  either false s t = t

  module _ (src dest : Str) where
    -- A call for one of the visited files, which goes to its path with `dest` for `src`.
    abbrev pub Meant : List Visit → Event → Type 0
    Meant vs e = (p : Str) × Visited vs p × For p (env.replace p src dest) e

    visit-Meant :
        (v : Visit) (vs : List Visit) (h : List Event)
        → Since (Meant (v ∷ vs)) h (visit env src dest v h).1
    unfolding visit
    visit-Meant (unknown path e) vs h = here
    visit-Meant (directory path e) vs h = here
    visit-Meant (file path e) vs h =
        Since-mono (λ x f. (path, inl refl, f))
          ((copy_file-For path (env.replace path src dest)).at h)

    later : (v : Visit) (vs : List Visit) (e : Event) → Meant vs e → Meant (v ∷ vs) e
    later (unknown path _) vs e m = m
    later (directory path _) vs e m = m
    later (file path _) vs e (p, m, f) = (p, inr m, f)

    -- CopyDir reads only files that the walk visits, writes each of them only to its path with
    -- `dest` for `src`, and makes only the directories of these paths.
    pub copy_dir-Meant :
        (vs : List Visit) (h : List Event) → Since (Meant vs) h (copy_dir env src dest vs h)
    unfolding copy_dir
    copy_dir-Meant [] h = here
    copy_dir-Meant (v ∷ vs) h =
        either (is_none (visit env src dest v h).0)
          (Since-trans (visit-Meant v vs h)
            (Since-mono (later v vs) (copy_dir-Meant vs (visit env src dest v h).1)))
          (visit-Meant v vs h)

-- How the loop over the parts of `s` ends from `dir`: what it leaves over has no slash.
abbrev Ends : Str → Str → List Str → Type 0
Ends dir s parts = (base : Str) × (dir ++ s ≡ dest_dir_loop dir parts ++ base) × Free b'/' base

in_dir :
    {x y : Str} (p : Str) (ps : List Str) (base : Str)
    → x ≡ y
    → dest_dir_loop (x ++ str "/") (p ∷ ps) ++ base ≡ dest_dir_loop (y ++ str "/") (p ∷ ps) ++ base
in_dir p ps base e = ap (λ (x : Str). dest_dir_loop (x ++ str "/") (p ∷ ps) ++ base) e

one_more :
    (c : ℕ) (dir s : Str) (parts : List Str)
    → nat_eq c b'/' ≡ false
    → Ends (dir ++ c ∷ []) s parts
    → Ends dir (c ∷ s) (grow c parts)
unfolding dest_dir_loop
one_more c dir s [] ne (base, e, free) =
    (c ∷ base, sym (append_assoc dir (c ∷ []) s) ∙ e ∙ append_assoc dir (c ∷ []) base, (ne, free))
one_more c dir s (w ∷ []) ne (base, e, free) =
    (c ∷ base, sym (append_assoc dir (c ∷ []) s) ∙ e ∙ append_assoc dir (c ∷ []) base, (ne, free))
one_more c dir s (w ∷ p ∷ ps) ne (base, e, free) = (
  base,
  sym (append_assoc dir (c ∷ []) s) ∙ e ∙ in_dir p ps base (append_assoc dir (c ∷ []) w),
  free,
)

grow-cons : (c : ℕ) (parts : List Str) → (p : Str) × (ps : List Str) × (grow c parts ≡ p ∷ ps)
grow-cons c [] = (c ∷ [], [], refl)
grow-cons c (w ∷ ws) = (c ∷ w, ws, refl)

-- A text has a first part.
split-cons : (s : Str) → (p : Str) × (ps : List Str) × (split b'/' s ≡ p ∷ ps)
unfolding split
split-cons [] = ([], [], refl)
split-cons (c ∷ s) = elim (Bool-cases (nat_eq c b'/')) [
  | inl e ↦ ([], split b'/' s, rw e refl)
  | inr ne ↦ rw ne (grow-cons c (split b'/' s))
]

next_part :
    (c : ℕ) (dir s : Str) (parts : List Str)
    → c ≡ b'/'
    → ((p : Str) × (ps : List Str) × (parts ≡ p ∷ ps))
    → Ends (dir ++ str "/") s parts
    → Ends dir (c ∷ s) ([] ∷ parts)
unfolding dest_dir_loop
next_part c dir s [] slash (p, ps, e) ends = absurd (cc)
next_part c dir s (p ∷ ps) slash first (base, e, free) = (
  base,
  ap (λ (x : ℕ). dir ++ x ∷ s) slash
      ∙ sym (append_assoc dir (str "/") s)
      ∙ e
      ∙ in_dir p ps base (sym (append-nil dir)),
  free,
)

split-Ends : (s dir : Str) → Ends dir s (split b'/' s)
unfolding split dest_dir_loop
split-Ends [] dir = ([], refl, tt)
split-Ends (c ∷ s) dir = elim (Bool-cases (nat_eq c b'/')) [
  | inl e ↦ rw e (
      next_part c dir s (split b'/' s) (grind arith) (split-cons s) (split-Ends s (dir ++ str "/")))
  | inr ne ↦ rw ne (one_more c dir s (split b'/' s) ne (split-Ends s (dir ++ c ∷ [])))
]

-- The directory that CopyFile makes sure of, and a name without a slash, are the whole path.
pub dest_dir-append : (dst : Str) → (base : Str) × (dst ≡ dest_dir dst ++ base) × Free b'/' base
dest_dir-append dst = split-Ends dst []
