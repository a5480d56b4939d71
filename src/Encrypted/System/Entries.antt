-- ===== src/Encrypted/System/Entries.antt =====
-- `Put` and `Delete` of one handle, and the ledger (pkg/store/encrypted/encrypted.go).
use hmacsecret.Base.{
  ℕ, ◌≡◌, inl, inr, Bytes, length, trim, trim_idem, none, some, ok, arith, refl, sym, ap, subst,
  ◌∙◌, Option-cases,
}
use hmacsecret.Store.{Record, EncryptedBlob, Context, validate_alias}
use hmacsecret.Store.Backend.{EnvelopeBackend, IsBackend, View, IsAlias, later}
use hmacsecret.Encrypted.Wire.{record_aad}
use hmacsecret.Encrypted.Wire.Payload.{decode_record-encode_record, length-encode_record}
use hmacsecret.Encrypted.Crypto.{Crypto, IsCrypto}
use hmacsecret.Encrypted.Blob.{nonce_size_x, algorithm_xchacha20poly1305}
use hmacsecret.Encrypted.Blob.Laws.{sealed}
use hmacsecret.Encrypted.Store.{trim_record, call, snapshot, put, delete}
use hmacsecret.Encrypted.Store.Records.{put_inv, record_aad_store, valid-IsAlias, valid-salt}
use hmacsecret.Encrypted.System.{Handle, System, Ledger, called, write, store_at, handle_at}
use hmacsecret.Encrypted.System.Invariant.{
  store_at_inv, Serves, Holds, Holds-key, called-Holds, Carries-write,
}

module _ {c : Crypto} {S : Type 0} where
  delete_inv :
      (b : EnvelopeBackend S) (ctx : Context) (raw : Bytes) (t0 t : S) (h0 h : Handle c)
      → delete b ctx raw (store_at t0 h0) ≡ (ok tt, store_at t h)
      → (h ≡ h0)
        × (t ≡ (b.delete_envelope (later 1 ctx) (trim raw) t0).1)
        × ((b.delete_envelope (later 1 ctx) (trim raw) t0).0 ≡ ok tt)
        × IsAlias (trim raw)
  unfolding delete call snapshot validate_alias
  delete_inv b ctx raw t0 t h0 h e =
      let x : S = (b.delete_envelope (later 1 ctx) (trim raw) t0).1 in
      elim (Option-cases h0.dek) [
        | inl locked ↦ absurd (ground arith)
        | inr (d, held) ↦
            let after : store_at t h ≡ record (store_at t0 h0) { backend = some x } =
              ground arith in
            let (same, kept) = store_at_inv t t0 x h h0 after in
            (kept, same, ground arith, record { trimmed = trim_idem raw; filled = ground arith })
      ]

module _ {c : Crypto} {S : Type 0} (law : IsCrypto c) {b : EnvelopeBackend S} {v : View S}
    (ib : IsBackend b v)
    (keeps : (e : EncryptedBlob) → e.algorithm ≡ algorithm_xchacha20poly1305 → v.KeepsBlob e) where
  pub puts-Serves :
      (s : System c S) (m : Ledger) (i : ℕ) (ctx : Context) (rec : Record) (n : Bytes) (t : S)
      (h : Handle c)
      → Serves v s m
      → length n ≡ nonce_size_x
      → put b ctx rec (some n) (handle_at s i) ≡ (ok tt, store_at t h)
      → Serves v (called s i t h) (write (trim rec.alias) (some (trim_record rec)) m)
  puts-Serves s m i ctx rec n t h inv hn e =
      let p = put_inv b law ctx rec (some n) (handle_at s i) (store_at t h) e in
      let alias = trim rec.alias in
      let ia = valid-IsAlias rec p.valid in
      let blob = sealed c p.key p.nonce p.plaintext (record_aad (s.handles i).header alias) in
      let was : p.state ≡ s.state = cc in
      let (to, kept) =
        store_at_inv t s.state (b.put_envelope (later 1 ctx) alias blob p.state).1 h (s.handles i)
          p.stored in
      let salt = valid-salt (trim_record rec) p.valid in
      let (key, id) = Holds-key inv.bare (s.handles i) (inv.handles i) p.unlocked in
      record {
        store_key = inv.store_key;
        nonce = inv.nonce;
        bare = inv.bare;
        sized = inv.sized;
        header =
            ap v.header to
            ∙ ib.put_header (later 1 ctx) alias blob p.state ia p.accepted
            ∙ ap v.header was
            ∙ inv.header;
        valid = inv.valid;
        handles =
            called-Holds inv.bare s i t h inv.handles
              (subst (λ x. Holds inv.store_key inv.bare x) (sym kept) (inv.handles i));
        entries =
            Carries-write c inv.store_key inv.bare alias (some (trim_record rec)) m
              (v.envelope s.state) (v.envelope t) inv.entries
              (
                p.nonce,
                p.plaintext,
                ap (λ x. v.envelope x alias) to
                    ∙ ib.put_envelope (later 1 ctx) alias blob p.state ia (keeps blob refl)
                        p.accepted
                    ∙ ap
                        (λ k.
                          ok (
                            sealed c k p.nonce p.plaintext (record_aad (s.handles i).header alias)))
                        key
                    ∙ ap (λ a. ok (sealed c inv.store_key p.nonce p.plaintext a))
                        (record_aad_store (s.handles i).header inv.bare alias id),
                ground (arith, p.read),
                omega (arith, salt, length-encode_record (trim_record rec) p.plaintext p.encoded),
                decode_record-encode_record (trim_record rec) p.plaintext (omega (arith, salt))
                    p.encoded,
                p.valid,
              )
              (λ j ne.
                ap (λ x. v.envelope x j) to
                ∙ ib.put_other (later 1 ctx) alias j blob p.state ia ne p.accepted
                ∙ ap (λ x. v.envelope x j) was);
      }

  pub deletes-Serves :
      (s : System c S) (m : Ledger) (i : ℕ) (ctx : Context) (raw : Bytes) (t : S) (h : Handle c)
      → Serves v s m
      → delete b ctx raw (handle_at s i) ≡ (ok tt, store_at t h)
      → Serves v (called s i t h) (write (trim raw) none m)
  deletes-Serves s m i ctx raw t h inv e =
      let (kept, to, done, ia) = delete_inv b ctx raw s.state t (s.handles i) h e in
      let alias = trim raw in
      record {
        store_key = inv.store_key;
        nonce = inv.nonce;
        bare = inv.bare;
        sized = inv.sized;
        header = ap v.header to ∙ ib.delete_header (later 1 ctx) alias s.state ia done ∙ inv.header;
        valid = inv.valid;
        handles =
            called-Holds inv.bare s i t h inv.handles
              (subst (λ x. Holds inv.store_key inv.bare x) (sym kept) (inv.handles i));
        entries =
            Carries-write c inv.store_key inv.bare alias none m (v.envelope s.state) (v.envelope t)
              inv.entries
              (ap (λ x. v.envelope x alias) to
                ∙ ib.delete_envelope (later 1 ctx) alias s.state ia done)
              (λ j ne.
                ap (λ x. v.envelope x j) to
                ∙ ib.delete_other (later 1 ctx) alias j s.state ia ne done);
      }
