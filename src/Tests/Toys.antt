-- ===== src/Tests/Toys.antt =====
-- Instances of the parameters: an AEAD that appends a tag, and stores in memory.
use hmacsecret.Base.{
  ℕ, ◌-◌, ◌≡◌, Bool, true, false, ◌&&◌, Bytes, [], ◌∷◌, ◌++◌, length, take, drop, length-append,
  take-append, drop-append, take-append-drop, bytes_eq, bytes_eq_iff, leb, ◌==◌, Option, none, some,
  Result, ok, err, arith, refl, sym, ◌∙◌, if◌then◌else◌,
}
use hmacsecret.Store.{
  Error, EncryptionHeader, EncryptedBlob, not_found, exists, not_initialized, conflict,
}
use hmacsecret.Store.Backend.{EnvelopeBackend, IsBackend, View}
use hmacsecret.Encrypted.Crypto.{Crypto, IsCrypto}

abbrev pub sixteen : ℕ → Bytes
sixteen b = b ∷ b ∷ b ∷ b ∷ b ∷ b ∷ b ∷ b ∷ b ∷ b ∷ b ∷ b ∷ b ∷ b ∷ b ∷ b ∷ []

-- One authenticated data has a tag of its own.
abbrev pub tag : Bytes → Bytes → Bytes
tag marked aad = sixteen (if bytes_eq aad marked then 1 else 0)

abbrev pub toy_open : Bytes → Bytes → Bytes → Option Bytes
toy_open marked x aad =
    let n = length x - 16 in
    if leb 16 (length x) && bytes_eq (drop n x) (tag marked aad) then some (take n x) else none

abbrev pub toy : Bytes → Crypto
toy marked = record {
  Enclave = Bytes;
  size = λ e. length e;
  open_enclave = λ e. some e;
  seal_buffer = elim [ [] ↦ none | b ∷ r ↦ some (b ∷ r) ];
  new_buffer = λ n. n;
  new_x = λ k. length k == 32;
  aead_seal = λ k n p a. p ++ tag marked a;
  aead_open = λ k n x a. toy_open marked x a;
  opens_in_place = λ n. true;
}

tail_length : (p t : Bytes) → length t ≡ 16 → length (p ++ t) - 16 ≡ length p
tail_length p t h = omega (arith, length-append p t)

toy_opens : (marked p a : Bytes) → toy_open marked (p ++ tag marked a) a ≡ some p
toy_opens marked p a =
    let t = tag marked a in
    rw (tail_length p t refl, take-append p t, drop-append p t)
      (ground (arith, length-append p t, bytes_eq_iff t t))

toy_authentic : (marked x a p : Bytes) → toy_open marked x a ≡ some p → x ≡ p ++ tag marked a
toy_authentic marked x a p e =
    let n : ℕ = length x - 16 in
    let same : drop n x ≡ tag marked a = ground (arith, bytes_eq_iff (drop n x) (tag marked a)) in
    let front : take n x ≡ p = ground arith in sym (take-append-drop n x) ∙ rw (same, front)

pub toy-IsCrypto : (marked : Bytes) → IsCrypto (toy marked)
toy-IsCrypto marked = record {
  seals = elim [ [] ↦ λ h. absurd (omega arith) | b ∷ r ↦ λ h. (b ∷ r, refl, refl, refl) ];
  opened_size = λ e b h. ground arith;
  allocates = λ n. refl;
  takes_key = λ k h. ground arith;
  opens = λ k n p a. toy_opens marked p a;
  authentic = λ k n x a p h. toy_authentic marked x a p h;
  length_seal = λ k n p a. omega (arith, length-append p (tag marked a));
  in_place = λ n. refl;
}

-- A backend in memory.
pub record Memory : Type 0 where
  pub header : Result Error EncryptionHeader
  pub entries : Bytes → Result Error EncryptedBlob

abbrev pub update : Memory → Bytes → Result Error EncryptedBlob → Memory
update s k v = record s { entries = λ j. if bytes_eq k j then v else s.entries j }

abbrev pub as_found : Result Error EncryptedBlob → Bool
as_found (ok b) = true
as_found (err e) = false

abbrev pub memory_swap :
    ℕ → EncryptionHeader → Memory → Result Error EncryptionHeader → Result Error (Unit {0}) × Memory
memory_swap r h s (err e) = (err e, s)
memory_swap r h s (ok k) =
    if k.revision == r then (ok tt, record s { header = ok h }) else (err conflict, s)

abbrev pub memory_create :
    EncryptionHeader → Memory → Result Error EncryptionHeader → Result Error (Unit {0}) × Memory
memory_create h s (err not_initialized) = (ok tt, record s { header = ok h })
memory_create h s _ = (err exists, s)

abbrev pub memory_put :
    Bytes → EncryptedBlob → Memory → Result Error EncryptedBlob → Result Error (Unit {0}) × Memory
memory_put a b s (err not_found) = (ok tt, update s a (ok b))
memory_put a b s _ = (err exists, s)

abbrev pub memory : EnvelopeBackend Memory
memory = record {
  create_header = λ ctx h s. memory_create h s s.header;
  load_header = λ ctx s. (s.header, s);
  compare_and_swap_header = λ ctx r h s. memory_swap r h s s.header;
  put_envelope = λ ctx a b s. memory_put a b s (s.entries a);
  get_envelope = λ ctx a s. (s.entries a, s);
  delete_envelope = λ ctx a s. (ok tt, update s a (err not_found));
  has_envelope = λ ctx a s. (ok (as_found (s.entries a)), s);
  list_envelopes = λ ctx s. (ok [], s);
  close = λ s. (ok tt, s);
}

abbrev pub memory_view : View Memory
memory_view = record {
  Live = λ ctx. ctx 0 ≡ false;
  header = λ s. s.header;
  envelope = λ s a. s.entries a;
  Keeps = λ h. Unit;
  KeepsBlob = λ b. Unit;
}

pub memory-IsBackend : IsBackend memory memory_view
memory-IsBackend = record {
  load = λ ctx s h. refl;
  get = λ ctx a s h i. refl;
  create_once = λ ctx h s e. ground arith;
  create_header = λ ctx h s k e. ground arith;
  create_envelope = λ ctx h s j e. ground arith;
  swap_matches = λ ctx r h k s e held. ground arith;
  swap_header = λ ctx r h s k e. ground arith;
  swap_envelope = λ ctx r h s j e. ground arith;
  put_once = λ ctx a b s i e. ground arith;
  put_envelope = λ ctx a b s i k e. ground (arith, bytes_eq_iff a a);
  put_other = λ ctx a j b s i ne e. ground (arith, bytes_eq_iff a j);
  put_header = λ ctx a b s i e. ground arith;
  delete_envelope = λ ctx a s i e. ground (arith, bytes_eq_iff a a);
  delete_other = λ ctx a j s i ne e. ground (arith, bytes_eq_iff a j);
  delete_header = λ ctx a s i e. refl;
}
