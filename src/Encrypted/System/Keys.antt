-- ===== src/Encrypted/System/Keys.antt =====
-- `Lock`, `Unlock` and `RotateKEK` of one handle, and the ledger (pkg/store/encrypted/encrypted.go).
use hmacsecret.Base.{
  ℕ, ◌+◌, ◌^◌, ◌<◌, ◌≡◌, false, inl, inr, Bytes, length, Option, none, some, ok, arith, refl, sym,
  ap, subst, ◌∙◌,
}
use hmacsecret.Store.{KekReference, EncryptionHeader, Context}
use hmacsecret.Store.Backend.{EnvelopeBackend, IsBackend, View, later}
use hmacsecret.Encrypted.Crypto.{Crypto, IsCrypto}
use hmacsecret.Encrypted.Blob.{nonce_size_x, validate_header}
use hmacsecret.Encrypted.Blob.Laws.{IsKey}
use hmacsecret.Encrypted.Store.{Store, lock, unlock, rotate_kek}
use hmacsecret.Encrypted.Store.Rotation.{rotate_kek_inv, next_header-valid}
use hmacsecret.Encrypted.Store.Keys.{next_header, wrap_header, trim_reference, unlock_wrapped}
use hmacsecret.Encrypted.System.{Handle, System, Ledger, called, store_at, handle_at}
use hmacsecret.Encrypted.System.Invariant.{
  IsKey-unique, Serves, Holds, Carries, called-Holds, Carries-header,
}

module _ {c : Crypto} {S : Type 0} (law : IsCrypto c) {b : EnvelopeBackend S} {v : View S}
    (ib : IsBackend b v) where
  -- A call that left the backend as it was.
  pub reads-Serves :
      (s : System c S) (m : Ledger) (i : ℕ) (t : S) (h : Handle c) (inv : Serves v s m)
      → t ≡ s.state
      → Holds inv.store_key inv.bare h
      → Serves v (called s i t h) m
  reads-Serves s m i t h inv same holds = record {
    store_key = inv.store_key;
    nonce = inv.nonce;
    bare = inv.bare;
    sized = inv.sized;
    header = ap v.header same ∙ inv.header;
    valid = inv.valid;
    handles = called-Holds inv.bare s i t h inv.handles holds;
    entries = λ j ij.
        subst (λ x. Carries c inv.store_key inv.bare j (m.records j) (v.envelope x j)) (sym same)
          (inv.entries j ij);
  }

  pub locks-Serves :
      (s : System c S) (m : Ledger) (i : ℕ) (t : S) (h : Handle c)
      → Serves v s m
      → lock (handle_at s i) ≡ (ok tt, store_at t h)
      → Serves v (called s i t h) m
  unfolding lock
  locks-Serves s m i t h inv e =
      let to : ◌≡◌ {A = Option S} (some s.state) (some t) = ground arith in
      reads-Serves s m i t h inv (cc) (inl (ground arith))

  pub unlocks-Serves :
      (s : System c S) (m : Ledger) (i : ℕ) (ctx : Context) (kek : Option c.Enclave) (t : S)
      (h : Handle c)
      → Serves v s m
      → ctx 0 ≡ false
      → v.Live (later 1 ctx)
      → IsKey c kek m.kek
      → unlock b ctx kek (handle_at s i) ≡ (ok tt, store_at t h)
      → Serves v (called s i t h) m
  unlocks-Serves s m i ctx kek t h inv c0 c1 key e =
      let (dek, holds, done) =
        unlock_wrapped b law ib ctx kek m.kek inv.nonce inv.store_key inv.bare (handle_at s i)
          s.state c0 c1 refl inv.header key inv.valid inv.sized in
      let after = ap (λ r. r.1) (sym e ∙ done) in
      let to : ◌≡◌ {A = Option S} (some t) (some s.state) =
        ap (λ (r : Store c S). r.backend) after in
      let opened : h.dek ≡ dek = ap (λ (r : Store c S). r.dek) after in
      let head = ap (λ (r : Store c S). r.header.store_id) after in
      reads-Serves s m i t h inv (cc)
        (inr (subst (λ x. IsKey c x inv.store_key) (sym opened) holds, head))

  rotate_unlocked :
      (ctx : Context) (next : KekReference) (kek : Option c.Enclave) (random : Option Bytes) (t : S)
      (h : Handle c) (s' : Store c S)
      → h.dek ≡ none
      → rotate_kek b ctx next kek random (store_at t h) ≡ (ok tt, s')
      → ⊥
  unfolding rotate_kek
  rotate_unlocked ctx next kek random t h s' locked e = ground arith

  pub rotates-Serves :
      (s : System c S) (m : Ledger) (i : ℕ) (ctx : Context) (next : KekReference)
      (kek : Option c.Enclave) (k n : Bytes) (t : S) (h : Handle c)
      → Serves v s m
      → length n ≡ nonce_size_x
      → v.Live (later 1 ctx)
      → ((head : EncryptionHeader) → head.kek ≡ trim_reference next → v.Keeps head)
      → IsKey c kek k
      → (s.handles i).header.revision + 1 < 2 ^ 64
      → rotate_kek b ctx next kek (some n) (handle_at s i) ≡ (ok tt, store_at t h)
      → Serves v (called s i t h) (record m { kek = k })
  rotates-Serves s m i ctx next kek k n t h inv hn c1 carried key small e = elim (inv.handles i) [
    | inl locked ↦
        absurd (rotate_unlocked ctx next kek (some n) s.state (s.handles i) (store_at t h) locked e)
    | inr (holds, id) ↦
        let d = inv.store_key in
        let current = wrap_header c inv.bare m.kek inv.nonce d in
        let r =
          rotate_kek_inv b law ib ctx next kek d n current s.state (handle_at s i) (store_at t h) c1
            refl inv.header holds e in
        let bare = next_header current next in
        let H = wrap_header c bare r.key n d in
        let u : S = (b.compare_and_swap_header (later 2 ctx) current.revision H s.state).1 in
        let some_same : ◌≡◌ {A = Option S} (some t) (some u) =
          ap (λ (x : Store c S). x.backend) r.stored in
        let to : t ≡ u = cc in
        let opened : h.dek ≡ (s.handles i).dek = ap (λ (x : Store c S). x.dek) r.stored in
        let head : h.header.store_id ≡ bare.store_id =
          ap (λ (x : Store c S). x.header.store_id) r.stored in
        let one : k ≡ r.key = IsKey-unique key r.sealer in
        record {
          store_key = d;
          nonce = n;
          bare = bare;
          sized = inv.sized;
          header =
              ap v.header to
              ∙ ib.swap_header (later 2 ctx) current.revision H s.state (carried H refl) r.accepted
              ∙ ap (λ x. ok (wrap_header c bare x n d)) (sym one);
          valid =
              subst (λ x. validate_header (wrap_header c bare x n d) ≡ ok tt) (sym one)
                (next_header-valid law current next r.key n d r.was_valid r.valid
                  (omega (arith, r.same_revision)) hn inv.sized);
          handles =
              called-Holds bare s i t h (λ j. inv.handles j)
                (inr (subst (λ x. IsKey c x d) (sym opened) holds, head));
          entries = λ j ij.
              subst (λ x. Carries c d bare j (m.records j) x)
                (sym (
                  ap (λ x. v.envelope x j) to
                  ∙ ib.swap_envelope (later 2 ctx) current.revision H s.state j r.accepted))
                (Carries-header c d inv.bare bare j (m.records j) (v.envelope s.state j) refl
                  (inv.entries j ij));
        }
  ]
