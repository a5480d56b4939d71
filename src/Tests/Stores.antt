-- ===== src/Tests/Stores.antt =====
-- The encrypted store over the backend in memory.
use hmacsecret.Base.{
  List, ℕ, ◌+◌, ◌≡◌, ◌≢◌, false, Bytes, [], ◌∷◌, ◌++◌, bytes_eq_iff, codes, trim, Option, none,
  some, Result, ok, err, arith, refl, inr,
}
use hmacsecret.Store.{
  Error, Record, KekReference, Context, not_found, not_initialized, integrity, validate_alias,
  validate_record, validate_kek_reference,
}
use hmacsecret.Encrypted.Wire.{
  record_aad, header_aad, encode_record, decode_record, append_uint16, append_uint64,
  append_length_prefixed, read_bytes, read_uint16,
}
use hmacsecret.Encrypted.Blob.{
  clone_header, clone_kek_reference, validate_header, validate_blob, validate_key_enclave, seal,
  open_locked, with_aead, wrap_enclave, unwrap_enclave, random_enclave,
}
use hmacsecret.Encrypted.Blob.Laws.{IsKey, sealed}
use hmacsecret.Encrypted.Store.{
  Store, zero_header, trim_record, call, snapshot, initialize, unlock, lock, rotate_kek, put, get,
  has, list,
}
use hmacsecret.Encrypted.Store.Records.{get-put, get-put_ne, get_authentic}
use hmacsecret.Encrypted.Store.Keys.{unlock-initialize}
use hmacsecret.Encrypted.Store.Rotation.{unlock-rotate_kek, get-rotate_kek}
use hmacsecret.Encrypted.Store.Locked.{
  KeyCall, puts, gets, deletes, rotates, perform_all, AreRefusals, locked_refuses, lock_answers,
}
use hmacsecret.Encrypted.Store.Tamper.{get_moved}
use hmacsecret.Tests.Toys.{toy, toy-IsCrypto, tag, sixteen, Memory, memory, memory-IsBackend}

-- What a run of the store computes with.
unfoldable pub runs : ℕ
unfolding initialize call clone_header clone_kek_reference validate_kek_reference
    validate_key_enclave random_enclave wrap_enclave seal with_aead header_aad append_uint16
    append_uint64 append_length_prefixed trim put snapshot validate_record validate_alias
    encode_record record_aad get open_locked validate_blob validate_header unwrap_enclave
    decode_record read_bytes read_uint16 lock unlock rotate_kek
runs = 0

abbrev pub live : Context
live i = false

abbrev pub bytes8 : ℕ → Bytes
bytes8 b = b ∷ b ∷ b ∷ b ∷ b ∷ b ∷ b ∷ b ∷ []

abbrev pub bytes24 : ℕ → Bytes
bytes24 b = sixteen b ++ bytes8 b

abbrev pub bytes32 : ℕ → Bytes
bytes32 b = sixteen b ++ sixteen b

abbrev pub reference : ℕ → KekReference
reference b = record { credential_id = b ∷ []; salt = bytes32 b; rp_id = codes "rp.example " }

abbrev pub fresh : Store (toy []) Memory
fresh = record {
  backend = some (record { header = err not_initialized; entries = λ a. err not_found });
  header = zero_header;
  dek = none;
}

abbrev pub started : Result Error (Unit {0}) × Store (toy []) Memory
started =
    initialize memory live (reference 1) (some (bytes32 1)) (some (sixteen 7)) (some (bytes32 9))
      (some (bytes24 3)) fresh

-- An unlocked store.
abbrev pub unlocked : Store (toy []) Memory
unlocked = started.1

abbrev pub login : Record
login = record {
  alias = codes " login ";
  credential_id = 5 ∷ 6 ∷ [];
  salt = bytes32 4;
  rp_id = codes "rp.example";
}

started_ok : started ≡ (ok tt, unlocked)
unfolding runs
started_ok = refl

abbrev pub stored : Store (toy []) Memory
stored = (put memory live login (some (bytes24 2)) unlocked).1

put_ok : put memory live login (some (bytes24 2)) unlocked ≡ (ok tt, stored)
unfolding runs
put_ok = refl

get-put_example : get memory live (codes "login\n") stored ≡ (ok (trim_record login), stored)
unfolding trim
get-put_example =
    get-put memory (toy-IsCrypto []) memory-IsBackend live live login (codes "login\n") (bytes24 2)
      unlocked stored (λ e h. tt) refl refl refl refl put_ok

other : codes "login" ≢ codes "mail"
other e = ground (arith, bytes_eq_iff (codes "login") (codes "mail"))

get-put_ne_example :
    (get memory live (codes "mail") stored).0 ≡ (get memory live (codes "mail") unlocked).0
unfolding trim
get-put_ne_example =
    get-put_ne memory (toy-IsCrypto []) memory-IsBackend live live login (codes "mail")
      (some (bytes24 2)) unlocked stored refl refl other put_ok

stored_key : IsKey (toy []) stored.dek (bytes32 9)
unfolding runs
stored_key = record { enclave = bytes32 9; present = refl; sized = refl; opens = refl }

unlocked_key : IsKey (toy []) unlocked.dek (bytes32 9)
unfolding runs
unlocked_key = record { enclave = bytes32 9; present = refl; sized = refl; opens = refl }

unlock-initialize_example :
    IsKey (toy []) unlocked.dek (bytes32 9)
    × ((dek : Option Bytes) × IsKey (toy []) dek (bytes32 9)
        × (unlock memory live (some (bytes32 1)) (lock unlocked).1
            ≡ (ok tt, record (lock unlocked).1 { header = unlocked.header; dek = dek })))
unfolding lock
unlock-initialize_example =
    unlock-initialize memory (toy-IsCrypto []) memory-IsBackend live live (reference 1)
      (some (bytes32 1)) (sixteen 7) (bytes32 9) (bytes24 3) fresh unlocked (lock unlocked).1
      (λ h e. tt) refl refl refl refl refl started_ok refl

get_ok : get memory live (codes "login") stored ≡ (ok (trim_record login), stored)
unfolding runs
get_ok = refl

-- The backend's state inside a store that runs.
abbrev pub inside : Store (toy []) Memory → Memory
inside s = elim s.backend [
  | none ↦ record { header = err not_initialized; entries = λ a. err not_found }
  | some t ↦ t
]

stored_inside : stored.backend ≡ some (inside stored)
unfolding runs
stored_inside = refl

unlocked_inside : unlocked.backend ≡ some (inside unlocked)
unfolding runs
unlocked_inside = refl

header_inside : (inside unlocked).header ≡ ok unlocked.header
unfolding runs
header_inside = refl

get_authentic_example :
    (n : Bytes) × (plaintext : Bytes) × ((inside stored).entries (trim (codes "login"))
      ≡ ok (
          sealed
            (toy [])
            (bytes32 9)
            n
            plaintext
            (record_aad stored.header (trim (codes "login")))))
    × (decode_record (trim (codes "login")) plaintext ≡ ok (trim_record login))
    × (validate_record (trim_record login) ≡ ok tt)
    × (stored ≡ stored)
get_authentic_example =
    get_authentic memory (toy-IsCrypto []) memory-IsBackend live (codes "login") (bytes32 9)
      (trim_record login) stored stored (inside stored) refl stored_key stored_inside get_ok

abbrev rotated : Store (toy []) Memory
rotated = (rotate_kek memory live (reference 2) (some (bytes32 2)) (some (bytes24 8)) unlocked).1

rotate_ok :
    rotate_kek memory live (reference 2) (some (bytes32 2)) (some (bytes24 8)) unlocked
    ≡ (ok tt, rotated)
unfolding runs
rotate_ok = refl

unlocked_revision : unlocked.header.revision ≡ 1
unfolding runs
unlocked_revision = refl

unlock-rotate_kek_example :
    (rotated.header.revision ≡ unlocked.header.revision + 1)
    × ((dek : Option Bytes) × IsKey (toy []) dek (bytes32 9)
        × (unlock memory live (some (bytes32 2)) rotated
            ≡ (ok tt, record rotated { header = rotated.header; dek = dek })))
unlock-rotate_kek_example =
    unlock-rotate_kek memory (toy-IsCrypto []) memory-IsBackend live live (reference 2)
      (some (bytes32 2)) (bytes32 9) (bytes24 8) unlocked.header (inside unlocked) unlocked rotated
      rotated (λ h e. tt) refl refl (omega (arith, unlocked_revision)) refl refl refl
      unlocked_inside header_inside unlocked_key rotate_ok refl

get-rotate_kek_example :
    (get memory live (codes "login") rotated).0 ≡ (get memory live (codes "login") unlocked).0
get-rotate_kek_example =
    get-rotate_kek memory (toy-IsCrypto []) memory-IsBackend live live (reference 2)
      (some (bytes32 2)) (bytes32 9) (bytes24 8) (codes "login") (inside unlocked) unlocked rotated
      refl refl refl unlocked_inside header_inside unlocked_key rotate_ok

abbrev key_calls : List (KeyCall (toy []))
key_calls =
    puts live login none
    ∷ gets live (codes "login")
    ∷ deletes live (codes "login")
    ∷ rotates live (reference 2) (some (bytes32 2)) none
    ∷ []

locked_refuses_example :
    ((perform_all memory key_calls (lock stored).1).1 ≡ (lock stored).1)
    × AreRefusals memory stored key_calls (perform_all memory key_calls (lock stored).1).0
locked_refuses_example = locked_refuses memory key_calls stored

lock_answers_example :
    ((has memory live (codes "login") (lock stored).1).0
      ≡ (has memory live (codes "login") stored).0)
    × ((list memory live (lock stored).1).0 ≡ (list memory live stored).0)
    × ((lock stored).1.dek ≡ none)
    × ((lock stored).1.backend ≡ stored.backend)
lock_answers_example = lock_answers memory live (codes "login") stored

-- An envelope of "login" that stands under "mail".
abbrev origin_aad : Bytes
origin_aad = record_aad zero_header (codes "login")

abbrev moved : Store (toy origin_aad) Memory
moved = record {
  backend = some (record {
    header = err not_initialized;
    entries = λ a. ok (sealed (toy origin_aad) (bytes32 9) (bytes24 1) (7 ∷ []) origin_aad);
  });
  header = zero_header;
  dek = some (bytes32 9);
}

moved_state : Memory
moved_state = record {
  header = err not_initialized;
  entries = λ a. ok (sealed (toy origin_aad) (bytes32 9) (bytes24 1) (7 ∷ []) origin_aad);
}

origin_binds :
    (x : Bytes)
    → x ≢ origin_aad
    → (toy origin_aad).aead_open (bytes32 9) (bytes24 1) (7 ∷ tag origin_aad origin_aad) x ≡ none
origin_binds x ne = ground (arith, bytes_eq_iff x origin_aad, bytes_eq_iff origin_aad origin_aad)

get_moved_example : get memory live (codes "mail") moved ≡ (err integrity, moved)
unfolding trim moved_state
get_moved_example =
    get_moved memory (toy-IsCrypto origin_aad) memory-IsBackend live (codes "mail") (bytes32 9)
      (bytes24 1) (7 ∷ []) (codes "login") zero_header moved moved_state refl refl
      (record { trimmed = refl; filled = refl })
      (record { enclave = bytes32 9; present = refl; sized = refl; opens = refl }) refl refl
      (omega arith) (omega arith) (omega arith) (omega arith) (omega arith) (inr other) origin_binds
      refl
