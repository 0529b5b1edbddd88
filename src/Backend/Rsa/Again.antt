-- ===== src/Backend/Rsa/Again.antt =====
-- The keys of the server from one start to the next.
use cube_apiserver.Prelude.{Str, Option, none, some, ◌≡◌, refl, subst, ap, sym, ◌∙◌}
use cube_apiserver.Base.Errors.{Err, not_found, Result, ok, err}
use cube_apiserver.Backend.Rsa.{
  Crypto, Disk, Faults, RsaSecret, Secrets, KeysOutcome, keys, read_rsa_key, generate_rsa256,
  parse_rsa_key, saved, key_secret, from_files, after_generation, by_secret, get_rsa_key,
}

module _ {Key Public : Type 0} (crypto : Crypto Key Public) (faults : Faults) where
  -- A later start reads the secret, and touches no file.
  get_rsa_key-gotten :
      (secrets : Secrets) (s : RsaSecret) (disk : Disk)
      → secrets.gotten ≡ ok s
      → get_rsa_key crypto faults secrets disk ≡ (parse_rsa_key crypto faults s, disk)
  unfolding get_rsa_key by_secret
  get_rsa_key-gotten secrets s disk there = rw there

  module _ (secrets : Secrets) (stores : (s : RsaSecret) → secrets.created s ≡ ok s) where
    from_files-keys :
        (r : Result (Str × Str)) (key : Key) (public : Public)
        → from_files crypto faults secrets r ≡ keys key public
        → (texts : Str × Str) × (r ≡ ok texts)
          × (parse_rsa_key crypto faults (key_secret crypto faults secrets texts) ≡ keys key public)
    unfolding from_files saved
    from_files-keys (ok texts) key public e = (
      texts,
      refl,
      sym (ap (saved crypto faults secrets) (stores (key_secret crypto faults secrets texts))) ∙ e,
    )
    from_files-keys (err x) key public e = cc

    after_generation-keys :
        (r : Option Err × Disk) (key : Key) (public : Public)
        → (after_generation crypto faults secrets r).0 ≡ keys key public
        → (texts : Str × Str) × (read_rsa_key crypto faults r.1 ≡ ok texts)
          × (parse_rsa_key crypto faults (key_secret crypto faults secrets texts) ≡ keys key public)
    unfolding after_generation
    after_generation-keys (none, disk) key public e = from_files-keys _ key public e
    after_generation-keys (some x, disk) key public e = cc

    get_rsa_key-missing :
        (disk : Disk)
        → secrets.gotten ≡ err not_found
        → (get_rsa_key crypto faults secrets disk).0
          ≡ (after_generation crypto faults secrets (generate_rsa256 crypto faults disk)).0
    unfolding get_rsa_key by_secret
    get_rsa_key-missing disk missing = rw missing

    -- The texts that a first start has stored are those of its keys.
    stored_keys :
        (disk : Disk) (key : Key) (public : Public) (texts : Str × Str)
        → secrets.gotten ≡ err not_found
        → (get_rsa_key crypto faults secrets disk).0 ≡ keys key public
        → read_rsa_key crypto faults (generate_rsa256 crypto faults disk).1 ≡ ok texts
        → parse_rsa_key crypto faults (key_secret crypto faults secrets texts) ≡ keys key public
    stored_keys disk key public texts missing first files =
        let made = sym (get_rsa_key-missing disk missing) ∙ first in
        let (stored, read, parsed) = after_generation-keys _ key public made in
        let same : stored ≡ texts = cc in
        subst
          (λ (t : Str × Str).
            parse_rsa_key crypto faults (key_secret crypto faults secrets t) ≡ keys key public)
          same parsed

-- A start that finds no secret, and ends with two keys, has generated files; where the API has
-- stored their texts in the secret as they are, every later start ends with the same two keys,
-- whatever has become of the files, and leaves those alone.
pub get_rsa_key-again :
    {Key Public : Type 0} (crypto : Crypto Key Public) (faults later_faults : Faults)
    (secrets later : Secrets) (disk later_disk : Disk) (generated : Result Key) (key : Key)
    (public : Public) (texts : Str × Str)
    → secrets.gotten ≡ err not_found
    → ((s : RsaSecret) → secrets.created s ≡ ok s)
    → (get_rsa_key crypto faults secrets disk).0 ≡ keys key public
    → read_rsa_key crypto faults (generate_rsa256 crypto faults disk).1 ≡ ok texts
    → later.gotten ≡ ok (key_secret crypto faults secrets texts)
    → get_rsa_key (record crypto { generated = generated }) later_faults later later_disk
      ≡ (keys key public, later_disk)
unfolding parse_rsa_key
get_rsa_key-again {Key = Key} {Public = Public} crypto faults later_faults secrets later disk
      later_disk generated key public texts missing stores first files there =
    get_rsa_key-gotten (record crypto { generated = generated }) later_faults later _ later_disk
      there
    ∙ ap (λ (k : KeysOutcome Key Public). (k, later_disk))
        (stored_keys crypto faults secrets stores disk key public texts missing first files)
