-- ===== src/Tests/System.antt =====
-- Two handles on one store: the first initializes it and stores a record, the second unlocks it.
use hmacsecret.Base.{ℕ, ◌≡◌, ◌⊎◌, Bytes, [], codes, trim, none, some, ok, refl}
use hmacsecret.Store.Backend.{IsAlias}
use hmacsecret.Encrypted.Blob.Laws.{IsKey}
use hmacsecret.Encrypted.Store.{Store, trim_record, get, unlock}
use hmacsecret.Encrypted.System.{Handle, System, Ledger, store_at, handle_at, called, write, puts}
use hmacsecret.Encrypted.System.Reach.{Reach, started, starts, calls, get_refines, unlock_succeeds}
use hmacsecret.Tests.Toys.{
  toy, toy-IsCrypto, sixteen, Memory, memory, memory_view, memory-IsBackend,
}
use hmacsecret.Tests.Stores.{
  runs, live, bytes24, bytes32, reference, fresh, unlocked, login, stored, inside,
}

abbrev held_by : Store (toy []) Memory → Handle (toy [])
held_by s = record { header = s.header; dek = s.dek }

abbrev opened : System (toy []) Memory
opened = started (inside unlocked) (held_by unlocked)

abbrev no_records : Ledger
no_records = record { records = λ alias. none; kek = bytes32 1 }

kek_key : IsKey (toy []) (some (bytes32 1)) (bytes32 1)
kek_key = record { enclave = bytes32 1; present = refl; sized = refl; opens = refl }

opened-Reach : Reach memory memory_view opened no_records
unfolding runs
opened-Reach =
    starts live (reference 1) (some (bytes32 1)) (bytes32 1) (sixteen 7) (bytes32 9) (bytes24 3)
      fresh (inside unlocked) (held_by unlocked) refl refl refl (λ h e. tt) kek_key
      (λ alias a. refl) refl

abbrev filled : System (toy []) Memory
filled = called opened 0 (inside stored) (held_by stored)

abbrev one_record : Ledger
one_record = write (trim login.alias) (some (trim_record login)) no_records

filled-Reach : Reach memory memory_view filled one_record
unfolding runs
filled-Reach =
    calls opened-Reach (puts 0 live login (bytes24 2) (inside stored) (held_by stored) refl refl)

login-IsAlias : IsAlias (trim (codes "login\n"))
unfolding trim
login-IsAlias = record { trimmed = refl; filled = refl }

first_key : IsKey (toy []) (filled.handles 0).dek (bytes32 9)
unfolding runs
first_key = record { enclave = bytes32 9; present = refl; sized = refl; opens = refl }

get_refines_example :
    get memory live (codes "login\n") (handle_at filled 0)
    ≡ (ok (trim_record login), handle_at filled 0)
unfolding trim
get_refines_example =
    get_refines (toy-IsCrypto []) memory-IsBackend (λ e h. tt) filled one_record 0 live
      (codes "login\n") (bytes32 9) filled-Reach refl refl login-IsAlias first_key

unlock_succeeds_example :
    (d : Bytes) × (h : Handle (toy [])) × (unlock memory live
        (some (bytes32 1))
        (handle_at filled 1)
      ≡ (ok tt, store_at filled.state h))
    × IsKey (toy []) h.dek d
    × ((j : ℕ) → ((filled.handles j).dek ≡ none) ⊎ IsKey (toy []) (filled.handles j).dek d)
unlock_succeeds_example =
    unlock_succeeds (toy-IsCrypto []) memory-IsBackend (λ e h. tt) filled one_record 1 live
      (some (bytes32 1)) filled-Reach refl refl kek_key
