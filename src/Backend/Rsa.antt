-- ===== src/Backend/Rsa.antt =====
-- The server's RSA key: backend/secret.go, and util/util.go from GenerateRSA256 to WriteKeyToFile.
pub mod Paired
pub mod Again
mod Examples
use cube_apiserver.Prelude.{
  Str, str, Bool, true, false, Option, none, some, List, [], ◌∷◌, if◌then◌else◌,
}
use cube_apiserver.Base.Errors.{Err, not_found, is_not_found, Result, ok, err}

-- The crypto libraries: rsa.GenerateKey, whose answer in this run is `generated`, Validate, and the
-- encodings; and ParseRSAPrivateKeyFromPEM and ParseRSAPublicKeyFromPEM of jwt-go.
pub record Crypto (Key Public : Type 0) : Type 0 where
  pub generated : Result Key
  pub validate : Key → Option Err
  pub private_der : Key → Str
  pub public_der : Key → Result Str
  -- pem.EncodeToMemory, by the type of the block
  pub encode_pem : Str → Str → Str
  pub parse_private : Str → Result Key
  pub parse_public : Str → Result Public

-- The directory of the keys and the two files in it.
pub record Disk : Type 0 where
  pub has_directory : Bool
  pub private_file : Option Str
  pub public_file : Option Str

-- What goes wrong on the disk: an error of the directory's creation, of the writes, with what they
-- leave, and of the removal of the private file.
pub record Faults : Type 0 where
  pub mkdir : Option Err
  pub write_private : Option Err
  pub left_private : Option Str
  pub write_public : Option Err
  pub left_public : Option Str
  pub remove_private : Option Err

-- The secret that holds the keys, as far as it is read; a missing key of its data is empty.
pub record RsaSecret : Type 0 where
  pub deleting : Bool
  pub private_key : Str
  pub public_key : Str

-- The answers of the API: to the Get of the secret, and to its creation.
pub record Secrets : Type 0 where
  pub gotten : Result RsaSecret
  pub created : RsaSecret → Result RsaSecret

-- How GetRSAKey ends: with keys, which are nil for a secret that is being deleted, with an error, or
-- with the end of the process.
pub data KeysOutcome (Key Public : Type 0) : Type 0 where
  keys : Key → Public → KeysOutcome Key Public
  nil_keys : KeysOutcome Key Public
  failed fatal : Err → KeysOutcome Key Public

module _ {Key Public : Type 0} (crypto : Crypto Key Public) (faults : Faults) where
  validated : Option Err → Key → Result Key
  validated none key = ok key
  validated (some e) key = err e

  if_generated : Result Key → Result Key
  unfolding validated
  if_generated (ok key) = validated (crypto.validate key) key
  if_generated (err e) = err e

  -- GeneratePrivateKey
  unfoldable pub generate_private_key : Result Key
  unfolding if_generated
  generate_private_key = if_generated crypto.generated

  -- PrivateKeyToPEM
  abbrev pub private_key_to_pem : Key → Str
  private_key_to_pem key = crypto.encode_pem (str "RSA PRIVATE KEY") (crypto.private_der key)

  public_pem : Result Str → Result Str
  public_pem (ok der) = ok (crypto.encode_pem (str "RSA PUBLIC KEY") der)
  public_pem (err e) = err e

  -- GeneratePublicKey
  unfoldable pub generate_public_key : Key → Result Str
  unfolding public_pem
  generate_public_key key = public_pem (crypto.public_der key)

  removed : Option Err → Disk → Disk
  removed none disk = record disk { private_file = none }
  removed (some e) disk = disk

  key_files : Option Str → Option Str → Disk → Bool × Disk
  unfolding removed
  key_files none public disk = (false, disk)
  key_files (some private) (some public) disk = (true, disk)
  key_files (some private) none disk = (false, removed faults.remove_private disk)

  -- CheckRSAKeyFileExist: a private file alone is removed. A Stat fails exactly for a missing file.
  unfoldable pub check_rsa_key_file_exist : Disk → Bool × Disk
  unfolding key_files
  check_rsa_key_file_exist disk = key_files disk.private_file disk.public_file disk

  -- WriteKeyToFile, of the public and of the private key.
  write_public_key : Option Err → Str → Disk → Option Err × Disk
  write_public_key none text disk = (none, record disk { public_file = some text })
  write_public_key (some e) text disk = (some e, record disk { public_file = faults.left_public })

  write_private_key : Option Err → Str → Str → Disk → Option Err × Disk
  unfolding write_public_key
  write_private_key none private public disk =
      write_public_key faults.write_public public (record disk { private_file = some private })
  write_private_key (some e) private public disk =
      (some e, record disk { private_file = faults.left_private })

  with_public : Key → Result Str → Disk → Option Err × Disk
  unfolding write_private_key
  with_public key (ok public) disk =
      write_private_key faults.write_private (private_key_to_pem key) public disk
  with_public key (err e) disk = (some e, disk)

  regenerate : Result Key → Disk → Option Err × Disk
  unfolding with_public
  regenerate (ok key) disk = with_public key (generate_public_key key) disk
  regenerate (err e) disk = (some e, disk)

  unless_there : Bool × Disk → Option Err × Disk
  unfolding regenerate
  unless_there (true, disk) = (none, disk)
  unless_there (false, disk) = regenerate generate_private_key disk

  make_directory : Bool → Option Err → Disk → Option Err × Disk
  unfolding unless_there
  make_directory true e disk = unless_there (check_rsa_key_file_exist disk)
  make_directory false none disk =
      unless_there (check_rsa_key_file_exist (record disk { has_directory = true }))
  make_directory false (some e) disk = (some e, disk)

  -- GenerateRSA256
  unfoldable pub generate_rsa256 : Disk → Option Err × Disk
  unfolding make_directory
  generate_rsa256 disk = make_directory disk.has_directory faults.mkdir disk

  read_both : Option Str → Option Str → Result (Str × Str)
  read_both (some private) (some public) = ok (private, public)
  read_both _ _ = err not_found

  -- readRSAKey
  unfoldable pub read_rsa_key : Disk → Result (Str × Str)
  unfolding read_both
  read_rsa_key disk = read_both disk.private_file disk.public_file

  with_private : Result Key → Result Public → KeysOutcome Key Public
  with_private (err e) public = fatal e
  with_private (ok key) (err e) = fatal e
  with_private (ok key) (ok public) = keys key public

  -- ParseRSAKey
  unfoldable pub parse_rsa_key : RsaSecret → KeysOutcome Key Public
  unfolding with_private
  parse_rsa_key secret =
      if secret.deleting
      then nil_keys
      else with_private (crypto.parse_private secret.private_key)
          (crypto.parse_public secret.public_key)

  module _ (secrets : Secrets) where
    saved : Result RsaSecret → KeysOutcome Key Public
    saved (ok secret) = parse_rsa_key secret
    saved (err e) = failed e

    -- The secret that is created.
    abbrev pub key_secret : Str × Str → RsaSecret
    key_secret (private, public) = record {
      deleting = false;
      private_key = private;
      public_key = public;
    }

    from_files : Result (Str × Str) → KeysOutcome Key Public
    unfolding saved
    from_files (ok texts) = saved (secrets.created (key_secret texts))
    from_files (err e) = failed e

    after_generation : Option Err × Disk → KeysOutcome Key Public × Disk
    unfolding from_files
    after_generation (some e, disk) = (failed e, disk)
    after_generation (none, disk) = (from_files (read_rsa_key disk), disk)

    by_secret : Result RsaSecret → Disk → KeysOutcome Key Public × Disk
    unfolding after_generation
    by_secret (ok secret) disk = (parse_rsa_key secret, disk)
    by_secret (err e) disk =
        let made = after_generation (generate_rsa256 disk) in
        if is_not_found e then made else (failed e, disk)

    -- GetRSAKey
    unfoldable pub get_rsa_key : Disk → KeysOutcome Key Public × Disk
    unfolding by_secret
    get_rsa_key disk = by_secret secrets.gotten disk
