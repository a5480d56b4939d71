-- ===== src/Encrypted/Crypto.antt =====
-- The packages that pkg/store/encrypted calls: memguard's sealed buffers and x/crypto's
-- XChaCha20-Poly1305. Both are parameters of the model.
use hmacsecret.Base.{ℕ, ◌+◌, ◌<◌, ◌≡◌, Bool, true, Bytes, length, Option, some}

pub record Crypto : Type 1 where
  -- What a `*memguard.Enclave` points to, with its `Size` and `Open`.
  pub Enclave : Type 0
  pub size : Enclave → ℕ
  pub open_enclave : Enclave → Option Bytes
  -- `Seal` of a `LockedBuffer` that holds these bytes: nil for a destroyed or empty one.
  pub seal_buffer : Bytes → Option Enclave
  -- `NewBuffer(n).Size()`
  pub new_buffer : ℕ → ℕ
  -- Whether `NewX` takes the key.
  pub new_x : Bytes → Bool
  -- `Seal` and `Open` of the AEAD, by key, nonce, text and authenticated data.
  pub aead_seal : Bytes → Bytes → Bytes → Bytes → Bytes
  pub aead_open : Bytes → Bytes → Bytes → Bytes → Option Bytes
  -- Whether `Open` into a buffer of this size returns that buffer.
  pub opens_in_place : ℕ → Bool

-- The documented behaviour. `authentic`: the tag is a function of key, nonce, ciphertext and
-- authenticated data, so only the sealing of a text opens to it.
pub record IsCrypto (c : Crypto) : Type 0 where
  pub seals :
      (b : Bytes)
      → 0 < length b
      → (e : c.Enclave) × (c.seal_buffer b ≡ some e)
        × (c.size e ≡ length b)
        × (c.open_enclave e ≡ some b)
  pub opened_size : (e : c.Enclave) (b : Bytes) → c.open_enclave e ≡ some b → length b ≡ c.size e
  pub allocates : (n : ℕ) → c.new_buffer n ≡ n
  pub takes_key : (k : Bytes) → length k ≡ 32 → c.new_x k ≡ true
  pub opens : (k n p a : Bytes) → c.aead_open k n (c.aead_seal k n p a) a ≡ some p
  pub authentic : (k n x a p : Bytes) → c.aead_open k n x a ≡ some p → x ≡ c.aead_seal k n p a
  pub length_seal : (k n p a : Bytes) → length (c.aead_seal k n p a) ≡ length p + 16
  pub in_place : (n : ℕ) → c.opens_in_place n ≡ true
