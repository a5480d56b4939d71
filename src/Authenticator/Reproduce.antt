-- ===== src/Authenticator/Reproduce.antt =====
-- Theorems on `CreateAndDerive` of lib/hmacsecret/hmacsecret.go.
use hmacsecret.Base.{
  ◌≡◌, Bool, false, Bytes, List, [], ◌∷◌, length, trim, Option, none, some, ok, arith, sym, ap, ◌∙◌,
  inl, inr,
}
use hmacsecret.Base.Fallible.{Result-cases}
use hmacsecret.Store.{empty}
use hmacsecret.Types.{CreateOptions, DeriveOptions, Credential, Secret}
use hmacsecret.Devices.{Device}
use hmacsecret.Authenticator.{
  Methods, AssertionOpts, device_of, given_or, create_credential, derive, derive_request,
  create_and_derive,
}
use hmacsecret.Authenticator.Inputs.{ClientData, or_unnamed}
use hmacsecret.Authenticator.Derive.{IsDerived, assertion_opts, derive_inv}

-- The bytes in a secret's enclave.
abbrev pub revealed : {E : Type 0} → (E → Bytes) → Secret E → Option Bytes
revealed reveal x = elim x.hmac_secret [ none ↦ none | some e ↦ some (reveal e) ]

module _ {W H : Type 0} (lib : Methods W H) (marshal : ClientData → Option Bytes) where
  -- The salt that `CreateAndDerive` takes or draws, and its last call.
  record IsMade (d : Option (Device (Option H))) (create : CreateOptions) (salt pin : Bytes)
      (random : Option Bytes) (x : Secret lib.Enclave) (w' : W) : Type 0 where
    cred : Credential
    salt' : Bytes
    taken : given_or salt (or_unnamed random) ≡ ok salt'
    random_get : Option Bytes
    before : W
    derived :
        derive lib marshal d (derive_request lib marshal create cred salt' pin) random_get before
        ≡ (ok x, w')

  create_and_derive_inv :
      (d : Option (Device (Option H))) (create : CreateOptions) (salt pin : Bytes)
      (ru rc rs rg : Option Bytes) (w w' : W) (x : Secret lib.Enclave)
      → create_and_derive lib marshal d create salt pin ru rc rs rg w ≡ (ok x, w')
      → IsMade d create salt pin rs x w'
  unfolding create_and_derive
  create_and_derive_inv d create salt pin ru rc rs rg w w' x run =
      let made = create_credential lib marshal d (record create { pin = pin }) ru rc w in
      elim (Result-cases made.0) [
        | inr (e, h) ↦ absurd (ground arith)
        | inl (cred, h) ↦ elim (Result-cases (given_or salt (or_unnamed rs))) [
          | inr (e, drawn) ↦ absurd (ground arith)
          | inl (salt', drawn) ↦ record {
            cred = cred;
            salt' = salt';
            taken = drawn;
            random_get = rg;
            before = made.1;
            derived = ground arith;
          }
        ]
      ]

  -- What the bytes of the secrets are a function of.
  abbrev IsPrf : (lib.Enclave → Bytes) → (H → Bytes → List Bytes → Bytes → Bool → Bytes) → Type 0
  IsPrf reveal prf =
      (h : H) (rp_id challenge : Bytes) (ids : List Bytes) (pin : Bytes)
      (o : AssertionOpts lib.Extension lib.OptionValue) (w : W) (e : lib.Enclave)
      → (lib.assertion h rp_id challenge ids pin o w).0 ≡ ok (some e)
      → reveal e ≡ prf h rp_id ids o.hmac_salt (empty pin)

  revealed-IsDerived :
      (reveal : lib.Enclave → Bytes) (prf : H → Bytes → List Bytes → Bytes → Bool → Bytes) (h : H)
      (opts : DeriveOptions) (x : Secret lib.Enclave)
      → IsPrf reveal prf
      → IsDerived lib marshal h opts x
      → (revealed reveal x
          ≡ some (prf h (trim opts.rp_id) (opts.credential_id ∷ []) opts.salt (empty opts.pin)))
        × (x.credential_id ≡ opts.credential_id)
        × (x.salt ≡ opts.salt)
  revealed-IsDerived reveal prf h opts x det p = (
    rw p.made (
        ap some (
          det h (trim opts.rp_id) p.challenge (opts.credential_id ∷ []) opts.pin
            (assertion_opts lib marshal opts p.client_data_json) p.before p.e p.asked)),
    ap (λ z. z.credential_id) p.made,
    ap (λ z. z.salt) p.made,
  )

  -- Where the bytes of an assertion's secret depend on the handle, the relying party, the credential, the
  -- salt and whether there is a PIN: a `derive` on the same handle, for the same relying party, with the
  -- credential and the salt of the secret that `create_and_derive` returned and with a PIN exactly where
  -- that call had one, returns the same bytes, credential and salt, whenever it returns a secret. The salt
  -- has 32 bytes, and it is the one that was given where one was.
  pub derive-create_and_derive :
      (reveal : lib.Enclave → Bytes) (prf : H → Bytes → List Bytes → Bytes → Bool → Bytes)
      (d : Option (Device (Option H))) (h : H) (create : CreateOptions) (salt pin : Bytes)
      (ru rc rs rg random : Option Bytes) (opts : DeriveOptions) (w w' u u' : W)
      (x y : Secret lib.Enclave)
      → ((h : H) (rp_id challenge : Bytes) (ids : List Bytes) (pin : Bytes)
            (o : AssertionOpts lib.Extension lib.OptionValue) (w : W) (e : lib.Enclave)
          → (lib.assertion h rp_id challenge ids pin o w).0 ≡ ok (some e)
          → reveal e ≡ prf h rp_id ids o.hmac_salt (empty pin))
      → device_of d ≡ ok h
      → create_and_derive lib marshal d create salt pin ru rc rs rg w ≡ (ok x, w')
      → trim opts.rp_id ≡ trim create.rp_id
      → opts.credential_id ≡ x.credential_id
      → opts.salt ≡ x.salt
      → empty opts.pin ≡ empty pin
      → derive lib marshal d opts random u ≡ (ok y, u')
      → (revealed reveal y ≡ revealed reveal x)
        × (y.credential_id ≡ x.credential_id)
        × (y.salt ≡ x.salt)
        × (length x.salt ≡ 32)
        × ((empty salt ≡ false) → x.salt ≡ salt)
  derive-create_and_derive reveal prf d h create salt pin ru rc rs rg random opts w w' u u' x y det
        handle run same_rp same_id same_salt same_pin again =
      let m = create_and_derive_inv d create salt pin ru rc rs rg w w' x run in
      let request : DeriveOptions = derive_request lib marshal create m.cred m.salt' pin in
      let (p, sized, named) =
        derive_inv lib marshal d h request m.random_get m.before w' x handle m.derived in
      let (q, sized', named') = derive_inv lib marshal d h opts random u u' y handle again in
      let (px, ix, sx) = revealed-IsDerived reveal prf h request x det p in
      let (py, iy, sy) = revealed-IsDerived reveal prf h opts y det q in
      let id : opts.credential_id ≡ m.cred.id = same_id ∙ ix in
      let used : opts.salt ≡ m.salt' = same_salt ∙ sx in
      (
        py ∙ rw (same_rp, id, used, same_pin) (sym px),
        iy ∙ same_id,
        sy ∙ same_salt,
        ap length sx ∙ sized,
        λ given. ground (arith, m.taken, sx, given),
      )
