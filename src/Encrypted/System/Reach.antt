-- ===== src/Encrypted/System/Reach.antt =====
-- Runs of several handles over one backend that was initialized empty, and what any of them is answered
-- (pkg/store/encrypted/encrypted.go).
use hmacsecret.Base.{
  ℕ, ◌==◌, ◌≡◌, ◌⊎◌, false, inl, inr, Bytes, length, trim, Option, none, some, Result, ok, err,
  arith, refl, sym, ap, subst, ◌∙◌, Bool-cases, Option-cases, if◌then◌else◌,
}
use hmacsecret.Store.{
  Error, Record, KekReference, EncryptedBlob, EncryptionHeader, Context, not_found, validate_alias,
}
use hmacsecret.Store.Backend.{EnvelopeBackend, IsBackend, View, IsAlias, later}
use hmacsecret.Encrypted.Crypto.{Crypto, IsCrypto}
use hmacsecret.Encrypted.Blob.{
  key_size, nonce_size_x, store_id_size, validate_header, algorithm_xchacha20poly1305,
}
use hmacsecret.Encrypted.Blob.Laws.{IsKey, sealed}
use hmacsecret.Encrypted.Store.{Store, zero_header, call, snapshot, get, unlock, initialize}
use hmacsecret.Encrypted.Store.Records.{get_sealed, record_aad_store}
use hmacsecret.Encrypted.Store.Keys.{
  wrap_header, bare_header, bare_header-valid, trim_reference, initialize_inv, unlock_wrapped,
}
use hmacsecret.Encrypted.System.{Handle, System, Ledger, store_at, handle_at, Step}
use hmacsecret.Encrypted.System.Invariant.{IsKey-unique, Serves, Carries, Holds-key}
use hmacsecret.Encrypted.System.Steps.{Step-Serves}

-- Handle 0 has initialized the backend and is unlocked; the others are locked.
abbrev pub started : {c : Crypto} {S : Type 0} → S → Handle c → System c S
started t h = record {
  state = t;
  handles = λ i. if i == 0 then h else record { header = zero_header; dek = none };
}

-- The states that calls of the handles reach, in any order, from an initialization of a backend that
-- holds no envelope.
pub data Reach {c : Crypto} {S : Type 0} (b : EnvelopeBackend S) (v : View S)
    : System c S → Ledger → Type 0 where
  starts :
      (ctx : Context) (ref : KekReference) (kek : Option c.Enclave) (k id d n : Bytes)
      (s : Store c S) (t : S) (h : Handle c)
      → length id ≡ store_id_size
      → length d ≡ key_size
      → length n ≡ nonce_size_x
      → ((head : EncryptionHeader) → head.kek ≡ trim_reference ref → v.Keeps head)
      → IsKey c kek k
      → ((alias : Bytes) → IsAlias alias → v.envelope t alias ≡ err not_found)
      → initialize b ctx ref kek (some id) (some d) (some n) s ≡ (ok tt, store_at t h)
      → Reach b v (started t h) (record { records = λ alias. none; kek = k })
  calls : {s s' : System c S} {m m' : Ledger} → Reach b v s m → Step b v s m s' m' → Reach b v s' m'

-- What the ledger says of an alias.
abbrev pub answer : Option Record → Result Error Record
answer none = err not_found
answer (some rec) = ok rec

module _ {c : Crypto} {S : Type 0} (law : IsCrypto c) {b : EnvelopeBackend S} {v : View S}
    (ib : IsBackend b v) where
  starts-Serves :
      (ctx : Context) (ref : KekReference) (kek : Option c.Enclave) (k id d n : Bytes)
      (s : Store c S) (t : S) (h : Handle c)
      → length id ≡ store_id_size
      → length d ≡ key_size
      → length n ≡ nonce_size_x
      → ((head : EncryptionHeader) → head.kek ≡ trim_reference ref → v.Keeps head)
      → IsKey c kek k
      → ((alias : Bytes) → IsAlias alias → v.envelope t alias ≡ err not_found)
      → initialize b ctx ref kek (some id) (some d) (some n) s ≡ (ok tt, store_at t h)
      → Serves v (started t h) (record { records = λ alias. none; kek = k })
  starts-Serves ctx ref kek k id d n s t h hi hd hn keeps key nothing e =
      let i = initialize_inv b law ctx ref kek id d n s (store_at t h) hd e in
      let bare = bare_header ref id in
      let written = wrap_header c bare i.key n d in
      let u : S = (b.create_header (later 3 ctx) written i.state).1 in
      let some_same : ◌≡◌ {A = Option S} (some t) (some u) =
        ap (λ (x : Store c S). x.backend) i.stored in
      let to : t ≡ u = cc in
      let opened : h.dek ≡ i.dek = ap (λ (x : Store c S). x.dek) i.stored in
      let head : h.header.store_id ≡ bare.store_id =
        ap (λ (x : Store c S). x.header.store_id) i.stored in
      let one : k ≡ i.key = IsKey-unique key i.sealer in
      record {
        store_key = d;
        nonce = n;
        bare = bare;
        sized = hd;
        header =
            ap v.header to
            ∙ ib.create_header (later 3 ctx) written i.state (keeps written refl) i.accepted
            ∙ ap (λ x. ok (wrap_header c bare x n d)) (sym one);
        valid =
            subst (λ x. validate_header (wrap_header c bare x n d) ≡ ok tt) (sym one)
              (bare_header-valid law ref i.key id n d i.valid hi hn hd);
        handles = λ j. elim (Bool-cases (j == 0)) [
          | inl first ↦ rw first (inr (subst (λ x. IsKey c x d) (sym opened) i.holds, head))
          | inr other ↦ rw other (inl refl)
        ];
        entries = λ j ij. nothing j ij;
      }

  get_missing :
      (ctx : Context) (raw k : Bytes) (s : Store c S) (t : S)
      → ctx 0 ≡ false
      → v.Live (later 1 ctx)
      → IsAlias (trim raw)
      → IsKey c s.dek k
      → s.backend ≡ some t
      → v.envelope t (trim raw) ≡ err not_found
      → get b ctx raw s ≡ (err not_found, s)
  unfolding get call snapshot validate_alias
  get_missing ctx raw k s t c0 c1 ha key hb held =
      ground (arith, ib.get (later 1 ctx) (trim raw) t c1 ha, ha.filled, key.present)

  get-Serves :
      (s : System c S) (m : Ledger) (i : ℕ) (ctx : Context) (raw e : Bytes)
      → Serves v s m
      → ctx 0 ≡ false
      → v.Live (later 1 ctx)
      → IsAlias (trim raw)
      → IsKey c (s.handles i).dek e
      → get b ctx raw (handle_at s i) ≡ (answer (m.records (trim raw)), handle_at s i)
  get-Serves s m i ctx raw e inv c0 c1 ha key =
      let alias = trim raw in
      let entry = inv.entries alias ha in
      elim (Option-cases (m.records alias)) [
        | inl nothing ↦ rw nothing (
            get_missing ctx raw e (handle_at s i) s.state c0 c1 ha key refl (
              subst (λ r. Carries c inv.store_key inv.bare alias r (v.envelope s.state alias))
                nothing entry))
        | inr (rec, there) ↦
            let (n, p, held, hn, small, dec, valid) =
              subst (λ r. Carries c inv.store_key inv.bare alias r (v.envelope s.state alias)) there
                entry in
            let (same, id) = Holds-key inv.bare (s.handles i) (inv.handles i) key in
            rw there (
              get_sealed b law ib ctx raw alias inv.store_key n p rec (handle_at s i) s.state c0 c1
                refl ha (subst (λ x. IsKey c (s.handles i).dek x) same key) refl hn small
                (held
                  ∙ ap (λ a. ok (sealed c inv.store_key n p a))
                      (sym (record_aad_store (s.handles i).header inv.bare alias id)))
                dec valid)
      ]

module _ {c : Crypto} {S : Type 0} (law : IsCrypto c) {b : EnvelopeBackend S} {v : View S}
    (ib : IsBackend b v)
    (keeps : (e : EncryptedBlob) → e.algorithm ≡ algorithm_xchacha20poly1305 → v.KeepsBlob e) where
  pub Reach-Serves : {s : System c S} {m : Ledger} → Reach b v s m → Serves v s m
  Reach-Serves (starts ctx ref kek k id d n s t h hi hd hn carried key nothing e) =
      starts-Serves law ib ctx ref kek k id d n s t h hi hd hn carried key nothing e
  Reach-Serves (calls r st) = Step-Serves law ib keeps st (Reach-Serves r)

  -- Over a backend that keeps its contract and the store's envelopes, and where one handle initialized
  -- the store over a backend without records: however the calls of the handles are ordered that put,
  -- delete, lock, unlock and rotate without an error and that `Step` admits (an unlock is with the KEK
  -- that the store is under, an initialization or a rotation under a reference whose headers the backend's
  -- encoding carries, a rotation at a revision below 2^64 - 1), `get` of an unlocked handle
  -- under a live context, for an alias that is not blank, returns the record that the ledger has under
  -- the trimmed alias, and `not_found` where it has none; it changes nothing.
  pub get_refines :
      (s : System c S) (m : Ledger) (i : ℕ) (ctx : Context) (raw e : Bytes)
      → Reach b v s m
      → ctx 0 ≡ false
      → v.Live (later 1 ctx)
      → IsAlias (trim raw)
      → IsKey c (s.handles i).dek e
      → get b ctx raw (handle_at s i) ≡ (answer (m.records (trim raw)), handle_at s i)
  get_refines s m i ctx raw e r c0 c1 ha key =
      get-Serves law ib s m i ctx raw e (Reach-Serves r) c0 c1 ha key

  -- Over a backend that keeps its contract and the store's envelopes, and where one handle initialized
  -- the store over a backend without records: however the calls of the handles are ordered that put,
  -- delete, lock, unlock and rotate without an error and that `Step` admits (an unlock is with the KEK
  -- that the store is under, an initialization or a rotation under a reference whose headers the backend's
  -- encoding carries, a rotation at a revision below 2^64 - 1), `unlock` of any
  -- handle with the KEK that the store is under succeeds under a live context, and gives every
  -- handle that is unlocked then one and the same key.
  pub unlock_succeeds :
      (s : System c S) (m : Ledger) (i : ℕ) (ctx : Context) (kek : Option c.Enclave)
      → Reach b v s m
      → ctx 0 ≡ false
      → v.Live (later 1 ctx)
      → IsKey c kek m.kek
      → (d : Bytes) × (h : Handle c) × (unlock b ctx kek (handle_at s i)
          ≡ (ok tt, store_at s.state h))
        × IsKey c h.dek d
        × ((j : ℕ) → ((s.handles j).dek ≡ none) ⊎ IsKey c (s.handles j).dek d)
  unlock_succeeds s m i ctx kek r c0 c1 key =
      let inv = Reach-Serves r in
      let (dek, holds, done) =
        unlock_wrapped b law ib ctx kek m.kek inv.nonce inv.store_key inv.bare (handle_at s i)
          s.state c0 c1 refl inv.header key inv.valid inv.sized in
      (
        inv.store_key,
        record { header = wrap_header c inv.bare m.kek inv.nonce inv.store_key; dek = dek },
        done,
        holds,
        λ j. elim (inv.handles j) [ inl locked ↦ inl locked | inr (held, id) ↦ inr held ],
      )
