-- ===== src/Store/Backend.antt =====
-- The interfaces of lib/store: `EnvelopeBackend`, which the encrypted store is built over, and what it
-- relies on. Pebble and SQLite fill both.
use hmacsecret.Base.{ℕ, ◌+◌, Bool, false, Bytes, List, ◌≡◌, ◌≢◌, Result, ok, err, Exec, trim}
use hmacsecret.Store.{
  Error, Context, EncryptionHeader, EncryptedBlob, not_found, not_initialized, empty,
}

-- The context as the calls after the first `n` checks see it.
abbrev pub later : ℕ → Context → Context
later n ctx i = ctx (n + i)

module _ (S : Type 0) where
  pub record EnvelopeBackend : Type 0 where
    pub create_header : Context → EncryptionHeader → Exec S Error (Unit {0})
    pub load_header : Context → Exec S Error EncryptionHeader
    pub compare_and_swap_header : Context → ℕ → EncryptionHeader → Exec S Error (Unit {0})
    pub put_envelope : Context → Bytes → EncryptedBlob → Exec S Error (Unit {0})
    pub get_envelope : Context → Bytes → Exec S Error EncryptedBlob
    pub delete_envelope : Context → Bytes → Exec S Error (Unit {0})
    pub has_envelope : Context → Bytes → Exec S Error Bool
    pub list_envelopes : Context → Exec S Error (List Bytes)
    pub close : Exec S Error (Unit {0})

-- A key that the store passes on: trimmed and not empty.
pub record IsAlias (alias : Bytes) : Type 0 where
  pub trimmed : trim alias ≡ alias
  pub filled : empty alias ≡ false

-- What a client can see of a backend's state: `header s` and `envelope s alias` are what a read answers
-- to a context that the backend takes as live, `Live ctx`. `Keeps h` and `KeepsBlob b` say that the
-- backend's encoding carries `h` and `b`.
pub record View (S : Type 0) : Type 1 where
  pub Live : Context → Type 0
  pub header : S → Result Error EncryptionHeader
  pub envelope : S → Bytes → Result Error EncryptedBlob
  pub Keeps : EncryptionHeader → Type 0
  pub KeepsBlob : EncryptedBlob → Type 0

-- The contract of an envelope backend, by its view.
module _ {S : Type 0} (b : EnvelopeBackend S) (v : View S) where
  open v use {Live, header, envelope, Keeps, KeepsBlob}

  pub record IsBackend : Type 0 where
    pub load : (ctx : Context) (s : S) → Live ctx → b.load_header ctx s ≡ (header s, s)
    pub get :
        (ctx : Context) (alias : Bytes) (s : S)
        → Live ctx
        → IsAlias alias
        → b.get_envelope ctx alias s ≡ (envelope s alias, s)
    pub create_once :
        (ctx : Context) (h : EncryptionHeader) (s : S)
        → (b.create_header ctx h s).0 ≡ ok tt
        → header s ≡ err not_initialized
    pub create_header :
        (ctx : Context) (h : EncryptionHeader) (s : S)
        → Keeps h
        → (b.create_header ctx h s).0 ≡ ok tt
        → header (b.create_header ctx h s).1 ≡ ok h
    pub create_envelope :
        (ctx : Context) (h : EncryptionHeader) (s : S) (j : Bytes)
        → (b.create_header ctx h s).0 ≡ ok tt
        → envelope (b.create_header ctx h s).1 j ≡ envelope s j
    pub swap_matches :
        (ctx : Context) (r : ℕ) (h k : EncryptionHeader) (s : S)
        → (b.compare_and_swap_header ctx r h s).0 ≡ ok tt
        → header s ≡ ok k
        → k.revision ≡ r
    pub swap_header :
        (ctx : Context) (r : ℕ) (h : EncryptionHeader) (s : S)
        → Keeps h
        → (b.compare_and_swap_header ctx r h s).0 ≡ ok tt
        → header (b.compare_and_swap_header ctx r h s).1 ≡ ok h
    pub swap_envelope :
        (ctx : Context) (r : ℕ) (h : EncryptionHeader) (s : S) (j : Bytes)
        → (b.compare_and_swap_header ctx r h s).0 ≡ ok tt
        → envelope (b.compare_and_swap_header ctx r h s).1 j ≡ envelope s j
    pub put_once :
        (ctx : Context) (alias : Bytes) (e : EncryptedBlob) (s : S)
        → IsAlias alias
        → (b.put_envelope ctx alias e s).0 ≡ ok tt
        → envelope s alias ≡ err not_found
    pub put_envelope :
        (ctx : Context) (alias : Bytes) (e : EncryptedBlob) (s : S)
        → IsAlias alias
        → KeepsBlob e
        → (b.put_envelope ctx alias e s).0 ≡ ok tt
        → envelope (b.put_envelope ctx alias e s).1 alias ≡ ok e
    pub put_other :
        (ctx : Context) (alias j : Bytes) (e : EncryptedBlob) (s : S)
        → IsAlias alias
        → alias ≢ j
        → (b.put_envelope ctx alias e s).0 ≡ ok tt
        → envelope (b.put_envelope ctx alias e s).1 j ≡ envelope s j
    pub put_header :
        (ctx : Context) (alias : Bytes) (e : EncryptedBlob) (s : S)
        → IsAlias alias
        → (b.put_envelope ctx alias e s).0 ≡ ok tt
        → header (b.put_envelope ctx alias e s).1 ≡ header s
    pub delete_envelope :
        (ctx : Context) (alias : Bytes) (s : S)
        → IsAlias alias
        → (b.delete_envelope ctx alias s).0 ≡ ok tt
        → envelope (b.delete_envelope ctx alias s).1 alias ≡ err not_found
    pub delete_other :
        (ctx : Context) (alias j : Bytes) (s : S)
        → IsAlias alias
        → alias ≢ j
        → (b.delete_envelope ctx alias s).0 ≡ ok tt
        → envelope (b.delete_envelope ctx alias s).1 j ≡ envelope s j
    pub delete_header :
        (ctx : Context) (alias : Bytes) (s : S)
        → IsAlias alias
        → (b.delete_envelope ctx alias s).0 ≡ ok tt
        → header (b.delete_envelope ctx alias s).1 ≡ header s
