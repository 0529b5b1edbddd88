-- ===== src/Backend/Rsa/Examples.antt =====
-- Keys that are texts, on a disk that is empty.
use cube_apiserver.Prelude.{Str, str, false, none, some, [], ◌≡◌, refl}
use cube_apiserver.Base.Errors.{not_found, other, ok, err}
use cube_apiserver.Backend.Rsa.{
  Crypto, Disk, Faults, Secrets, keys, fatal, key_files, check_rsa_key_file_exist, validated,
  if_generated, generate_private_key, public_pem, generate_public_key, write_public_key,
  write_private_key, with_public, regenerate, unless_there, make_directory, generate_rsa256,
  read_both, read_rsa_key, with_private, parse_rsa_key, key_secret, saved, from_files,
  after_generation, by_secret, get_rsa_key,
}
use cube_apiserver.Backend.Rsa.Paired.{IsPaired, generate_rsa256-IsPaired}
use cube_apiserver.Backend.Rsa.Again.{get_rsa_key-again}

abbrev plain : Crypto Str Str
plain = record {
  generated = ok (str "k");
  validate = λ k. none;
  private_der = λ k. k;
  public_der = λ k. ok k;
  encode_pem = λ block text. text;
  parse_private = λ text. ok text;
  parse_public = λ text. ok text;
}

abbrev sound : Faults
sound = record {
  mkdir = none;
  write_private = none;
  left_private = none;
  write_public = none;
  left_public = none;
  remove_private = none;
}

abbrev empty_disk : Disk
empty_disk = record { has_directory = false; private_file = none; public_file = none }

-- The disk is full when the public key is written.
abbrev full : Faults
full = record sound { write_public = some (other []) }

generate_rsa256-IsPaired_example : IsPaired plain full (generate_rsa256 plain full empty_disk).1
generate_rsa256-IsPaired_example =
    generate_rsa256-IsPaired plain full empty_disk refl (λ public there. cc)

abbrev first_secrets : Secrets
first_secrets = record { gotten = err not_found; created = λ s. ok s }

abbrev later_secrets : Secrets
later_secrets = record {
  gotten = ok (key_secret plain sound first_secrets (str "k", str "k"));
  created = λ s. ok s;
}

first_start : (get_rsa_key plain sound first_secrets empty_disk).0 ≡ keys (str "k") (str "k")
unfolding get_rsa_key by_secret after_generation generate_rsa256 make_directory unless_there
    check_rsa_key_file_exist key_files regenerate generate_private_key if_generated validated
    with_public generate_public_key public_pem write_private_key write_public_key from_files
    read_rsa_key read_both saved parse_rsa_key with_private
first_start = refl

first_files :
    read_rsa_key plain sound (generate_rsa256 plain sound empty_disk).1 ≡ ok (str "k", str "k")
unfolding generate_rsa256 make_directory unless_there check_rsa_key_file_exist key_files regenerate
    generate_private_key if_generated validated with_public generate_public_key public_pem
    write_private_key write_public_key read_rsa_key read_both
first_files = refl

get_rsa_key-again_example :
    get_rsa_key (record plain { generated = err (other []) }) full later_secrets empty_disk
    ≡ (keys (str "k") (str "k"), empty_disk)
get_rsa_key-again_example =
    get_rsa_key-again plain sound full first_secrets later_secrets empty_disk empty_disk
      (err (other [])) (str "k") (str "k") (str "k", str "k") refl (λ s. refl) first_start
      first_files refl

-- A public key that is written in part is taken for the key's own at the next start, and the
-- process ends when it is read.
abbrev cut_off : Faults
cut_off = record full { left_public = some (str "") }

abbrev strict : Crypto Str Str
strict = record plain { parse_public = λ text. err (other []) }

half_written :
    (get_rsa_key strict sound first_secrets (generate_rsa256 plain cut_off empty_disk).1).0
    ≡ fatal (other [])
unfolding get_rsa_key by_secret after_generation generate_rsa256 make_directory unless_there
    check_rsa_key_file_exist key_files regenerate generate_private_key if_generated validated
    with_public generate_public_key public_pem write_private_key write_public_key from_files
    read_rsa_key read_both saved parse_rsa_key with_private
half_written = refl
