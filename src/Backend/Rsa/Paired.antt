-- ===== src/Backend/Rsa/Paired.antt =====
-- The key files of the server belong together.
use cube_apiserver.Prelude.{Str, Bool, true, false, Option, none, some, ◌≡◌, refl, subst}
use cube_apiserver.Base.Errors.{Err, Result, ok, err}
use cube_apiserver.Backend.Rsa.{
  Crypto, Disk, Faults, private_key_to_pem, generate_public_key, removed, key_files,
  check_rsa_key_file_exist, write_public_key, write_private_key, with_public, regenerate,
  unless_there, make_directory, generate_rsa256,
}

module _ {Key Public : Type 0} (crypto : Crypto Key Public) (faults : Faults) where
  -- The texts of one key.
  pub record IsPair (private public : Str) : Type 0 where
    pub key : Key
    pub is_private : private ≡ private_key_to_pem crypto faults key
    pub is_public : generate_public_key crypto faults key ≡ ok public

  -- A public file stands beside the private file of its key.
  abbrev pub IsPaired : Disk → Type 0
  IsPaired disk =
      (public : Str)
      → disk.public_file ≡ some public
      → (private : Str) × (disk.private_file ≡ some private) × IsPair private public

  -- Both files are there, of one key.
  pub record HasPair (disk : Disk) : Type 0 where
    pub private : Str
    pub public : Str
    pub has_private : disk.private_file ≡ some private
    pub has_public : disk.public_file ≡ some public
    pub pair : IsPair private public

  -- What is to be shown of an end of GenerateRSA256.
  abbrev Ends : Option Err × Disk → Type 0
  Ends r = IsPaired r.1 × (r.0 ≡ none → HasPair r.1)

  no_public : (disk : Disk) → disk.public_file ≡ none → IsPaired disk
  no_public disk missing public there = cc

  HasPair-IsPaired : (disk : Disk) → HasPair disk → IsPaired disk
  HasPair-IsPaired disk p public there =
      let same : p.public ≡ public = cc in
      (p.private, p.has_private, subst (λ (q : Str). IsPair p.private q) same p.pair)

  module _ (clean : faults.left_public ≡ none) where
    write_public_key-Ends :
        (e : Option Err) (private public : Str) (disk : Disk)
        → disk.private_file ≡ some private
        → IsPair private public
        → Ends (write_public_key crypto faults e public disk)
    unfolding write_public_key
    write_public_key-Ends none private public disk there pair =
        let p : HasPair (record disk { public_file = some public }) = record {
          private = private;
          public = public;
          has_private = there;
          has_public = refl;
          pair = pair;
        } in
        (HasPair-IsPaired _ p, λ q. p)
    write_public_key-Ends (some e) private public disk there pair =
        (no_public (record disk { public_file = faults.left_public }) clean, λ q. cc)

    write_private_key-Ends :
        (e : Option Err) (private public : Str) (disk : Disk)
        → disk.public_file ≡ none
        → IsPair private public
        → Ends (write_private_key crypto faults e private public disk)
    unfolding write_private_key
    write_private_key-Ends none private public disk missing pair =
        write_public_key-Ends faults.write_public private public
          (record disk { private_file = some private }) refl pair
    write_private_key-Ends (some e) private public disk missing pair =
        (no_public (record disk { private_file = faults.left_private }) missing, λ q. cc)

    with_public-Ends :
        (key : Key) (r : Result Str) (disk : Disk)
        → generate_public_key crypto faults key ≡ r
        → disk.public_file ≡ none
        → Ends (with_public crypto faults key r disk)
    unfolding with_public
    with_public-Ends key (ok public) disk made missing =
        write_private_key-Ends faults.write_private _ public disk missing
          (record { key = key; is_private = refl; is_public = made })
    with_public-Ends key (err e) disk made missing = (no_public disk missing, λ q. cc)

    regenerate-Ends :
        (r : Result Key) (disk : Disk)
        → disk.public_file ≡ none
        → Ends (regenerate crypto faults r disk)
    unfolding regenerate
    regenerate-Ends (err e) disk missing = (no_public disk missing, λ q. cc)
    regenerate-Ends (ok key) disk missing = with_public-Ends key _ disk refl missing

    removed-public :
        (e : Option Err) (disk : Disk)
        → disk.public_file ≡ none
        → (removed crypto faults e disk).public_file ≡ none
    unfolding removed
    removed-public none disk missing = missing
    removed-public (some e) disk missing = missing

    key_files-Ends :
        (private public : Option Str) (disk : Disk)
        → disk.private_file ≡ private
        → disk.public_file ≡ public
        → IsPaired disk
        → Ends (unless_there crypto faults (key_files crypto faults private public disk))
    unfolding unless_there key_files
    key_files-Ends none none disk a b paired = regenerate-Ends _ disk b
    key_files-Ends none (some public) disk a b paired =
        let (private, there, pair) = paired public b in absurd (cc)
    key_files-Ends (some private) none disk a b paired =
        regenerate-Ends _ _ (removed-public faults.remove_private disk b)
    key_files-Ends (some private) (some public) disk a b paired =
        let (q, there, pair) = paired public b in
        (
          paired,
          λ e. record {
            private = q;
            public = public;
            has_private = there;
            has_public = b;
            pair = pair;
          },
        )

    make_directory-Ends :
        (b : Bool) (e : Option Err) (disk : Disk)
        → IsPaired disk
        → Ends (make_directory crypto faults b e disk)
    unfolding make_directory check_rsa_key_file_exist
    make_directory-Ends true e disk paired = key_files-Ends _ _ disk refl refl paired
    make_directory-Ends false none disk paired =
        key_files-Ends _ _ (record disk { has_directory = true }) refl refl paired
    make_directory-Ends false (some e) disk paired = (paired, λ q. cc)

-- GenerateRSA256 keeps the key files paired, whatever else fails, where a failed write of the
-- public key leaves no file.
pub generate_rsa256-IsPaired :
    {Key Public : Type 0} (crypto : Crypto Key Public) (faults : Faults) (disk : Disk)
    → faults.left_public ≡ none
    → IsPaired crypto faults disk
    → IsPaired crypto faults (generate_rsa256 crypto faults disk).1
unfolding generate_rsa256
generate_rsa256-IsPaired crypto faults disk clean paired =
    (make_directory-Ends crypto faults clean disk.has_directory faults.mkdir disk paired).0

-- When it ends without an error, both files are there, of one key.
pub generate_rsa256-HasPair :
    {Key Public : Type 0} (crypto : Crypto Key Public) (faults : Faults) (disk : Disk)
    → faults.left_public ≡ none
    → IsPaired crypto faults disk
    → (generate_rsa256 crypto faults disk).0 ≡ none
    → HasPair crypto faults (generate_rsa256 crypto faults disk).1
unfolding generate_rsa256
generate_rsa256-HasPair crypto faults disk clean paired =
    (make_directory-Ends crypto faults clean disk.has_directory faults.mkdir disk paired).1
