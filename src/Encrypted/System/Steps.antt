-- ===== src/Encrypted/System/Steps.antt =====
-- The calls of one handle keep what ties the system to its ledger (pkg/store/encrypted/encrypted.go).
use hmacsecret.Base.{◌≡◌}
use hmacsecret.Store.{EncryptedBlob}
use hmacsecret.Store.Backend.{EnvelopeBackend, IsBackend, View}
use hmacsecret.Encrypted.Crypto.{Crypto, IsCrypto}
use hmacsecret.Encrypted.Blob.{algorithm_xchacha20poly1305}
use hmacsecret.Encrypted.System.{System, Ledger, Step, puts, deletes, locks, unlocks, rotates}
use hmacsecret.Encrypted.System.Invariant.{Serves}
use hmacsecret.Encrypted.System.Entries.{puts-Serves, deletes-Serves}
use hmacsecret.Encrypted.System.Keys.{locks-Serves, unlocks-Serves, rotates-Serves}

module _ {c : Crypto} {S : Type 0} (law : IsCrypto c) {b : EnvelopeBackend S} {v : View S}
    (ib : IsBackend b v)
    (keeps : (e : EncryptedBlob) → e.algorithm ≡ algorithm_xchacha20poly1305 → v.KeepsBlob e) where
  -- A call of any handle keeps the system tied to its ledger.
  pub Step-Serves :
      {s s' : System c S} {m m' : Ledger} → Step b v s m s' m' → Serves v s m → Serves v s' m'
  Step-Serves {s = s} {m = m} (puts i ctx rec n t h hn e) inv =
      puts-Serves law ib keeps s m i ctx rec n t h inv hn e
  Step-Serves {s = s} {m = m} (deletes i ctx raw t h e) inv =
      deletes-Serves law ib keeps s m i ctx raw t h inv e
  Step-Serves {s = s} {m = m} (locks i t h e) inv = locks-Serves law ib s m i t h inv e
  Step-Serves {s = s} {m = m} (unlocks i ctx kek t h c0 c1 key e) inv =
      unlocks-Serves law ib s m i ctx kek t h inv c0 c1 key e
  Step-Serves {s = s} {m = m} (rotates i ctx next kek k n t h hn c1 carried key small e) inv =
      rotates-Serves law ib s m i ctx next kek k n t h inv hn c1 carried key small e
