-- ===== src/Webauthn/Bounds.antt =====
-- Theorems on what internal/webauthn returns of an answer, and on the requests that it does not make.
use hmacsecret.Base.{
  ℕ, ◌+◌, ◌/◌, ◌≤◌, ◌<◌, ◌≡◌, false, not, ◌&&◌, Bytes, [], ◌∷◌, length, length-take, take, ltb,
  ◌==◌, bytes_eq, bytes_eq_iff, ==_iff, Option, none, some, ok, arith, refl, ◌∙◌, if◌then◌else◌,
  Bool-cases, inl, inr, Option-cases,
}
use hmacsecret.Base.Fallible.{Result-cases}
use hmacsecret.Store.{empty}
use hmacsecret.Base.Decimal.{pos}
use hmacsecret.Encrypted.Crypto.{Crypto, IsCrypto}
use hmacsecret.Webauthn.Native.{Dll, copy_result_bytes, seal_result_bytes, max_result_bytes}
use hmacsecret.Webauthn.Calls.{Api, State, timeout_milliseconds, or_value}
use hmacsecret.Webauthn.MakeCredential.{
  MakeCredentialRequest, MakeCredentialResult, read_attestation, request_attestation,
  make_credential,
}
use hmacsecret.Webauthn.GetAssertion.{
  GetAssertionRequest, GetAssertionResult, read_assertion, request_assertion, get_assertion,
}

length_filled : (s : Bytes) → empty s ≡ false → 0 < length s
length_filled [] h = absurd (ground arith)
length_filled (b ∷ s) h = omega arith

own_id :
    (id asked : Bytes)
    → not (empty id) && not (bytes_eq id asked) ≡ false
    → or_value id asked ≡ asked
own_id id asked h = elim (Bool-cases (empty id)) [
  | inl nothing ↦ rw nothing refl
  | inr filled ↦ rw filled ((bytes_eq_iff id asked).0 (ground arith))
]

-- A timeout that is taken is passed on in milliseconds without a wrap, ten minutes where it is not positive.
timeout_taken : (n m : ℕ) → timeout_milliseconds (pos (n + 1)) ≡ ok m → m ≡ (n + 1) / 1000000
unfolding timeout_milliseconds
timeout_taken n m h = ground arith

module _ {W : Type 0} (dll : Dll W) (text : ℕ → Bytes) where
  copy_bounded :
      (ptr : Option dll.Ptr) (size : ℕ) (w : W) (x : Bytes)
      → ((p : dll.Ptr) (n : ℕ) (w : W) → length (dll.bytes_at p n w) ≡ n)
      → copy_result_bytes dll ptr size w ≡ ok x
      → (length x ≡ size) × (length x ≤ max_result_bytes)
  unfolding copy_result_bytes
  copy_bounded none size w x sized h = ground arith
  copy_bounded (some p) size w x sized h = ground (arith, sized p size w)

  sealed_whole :
      (c : Crypto) (ptr : Option dll.Ptr) (size : ℕ) (w : W) (x : Option c.Enclave)
      → IsCrypto c
      → ((p : dll.Ptr) (n : ℕ) (w : W) → length (dll.bytes_at p n w) ≡ n)
      → size ≡ 32
      → seal_result_bytes dll c ptr size w ≡ ok x
      → (e : c.Enclave) × (x ≡ some e) × (c.size e ≡ 32)
  unfolding seal_result_bytes
  sealed_whole c none size w x laws sized is32 h = absurd (ground arith)
  sealed_whole c (some p) size w x laws sized is32 h =
      let b : Bytes = take (c.new_buffer size) (dll.bytes_at p size w) in
      let whole : length b ≡ size =
        rw (laws.allocates size)
          (length-take size (dll.bytes_at p size w) (omega (arith, sized p size w))) in
      let (e, sealed, n, opens) = laws.seals b (omega arith) in
      (e, ground (arith, sealed, h), n ∙ whole ∙ is32)

  read_attestation_bounded :
      (p : dll.Ptr) (w : W) (x : MakeCredentialResult)
      → ((p : dll.Ptr) (n : ℕ) (w : W) → length (dll.bytes_at p n w) ≡ n)
      → read_attestation dll text p w ≡ ok x
      → (0 < length x.credential_id)
        × (length x.credential_id ≤ max_result_bytes)
        × (length x.authenticator_data ≤ max_result_bytes)
  unfolding read_attestation
  read_attestation_bounded p w x sized h =
      let a = dll.attestation_at p w in
      elim (Result-cases (copy_result_bytes dll a.credential_id a.credential_id_length w)) [
        | inr (e, hc) ↦ absurd (ground arith)
        | inl (id, hc) ↦
            elim (Result-cases
              (copy_result_bytes dll a.authenticator_data a.authenticator_data_length w)) [
                | inr (e, hd) ↦ absurd (ground arith)
                | inl (data_read, hd) ↦ elim (Bool-cases (empty id)) [
                  | inl nothing ↦ absurd (ground arith)
                  | inr filled ↦
                      let same_id : x.credential_id ≡ id = ground arith in
                      let same_data : x.authenticator_data ≡ data_read = ground arith in
                      let (n, below_id) =
                        copy_bounded a.credential_id a.credential_id_length w id sized hc in
                      let (k, below_data) =
                        copy_bounded a.authenticator_data a.authenticator_data_length w data_read
                          sized hd in
                      rw (same_id, same_data) (length_filled id filled, below_id, below_data)
                ]
              ]
      ]

  read_assertion_lem :
      (c : Crypto) (request : GetAssertionRequest) (p : dll.Ptr) (w : W)
      (x : GetAssertionResult c.Enclave)
      → IsCrypto c
      → ((p : dll.Ptr) (n : ℕ) (w : W) → length (dll.bytes_at p n w) ≡ n)
      → read_assertion dll text c request p w ≡ ok x
      → (x.credential_id ≡ request.credential_id)
        × (length x.authenticator_data ≤ max_result_bytes)
        × ((e : c.Enclave) × (x.hmac_secret ≡ some e) × (c.size e ≡ 32))
  unfolding read_assertion
  read_assertion_lem c request p w x laws sized h =
      let a = dll.assertion_at p w in
      elim (Option-cases (if ltb a.version 3 then none else a.hmac_secret)) [
        | inl nothing ↦ absurd (ground arith)
        | inr (sp, hs) ↦
            elim (Result-cases (copy_result_bytes dll a.credential_id a.credential_id_length w)) [
              | inr (e, hc) ↦ absurd (ground arith)
              | inl (id, hc) ↦
                  elim (Result-cases
                    (copy_result_bytes dll a.authenticator_data a.authenticator_data_length w)) [
                      | inr (e, hd) ↦ absurd (ground arith)
                      | inl (data_read, hd) ↦
                          elim (Bool-cases
                            (not (empty id) && not (bytes_eq id request.credential_id))) [
                              | inl other ↦ absurd (ground arith)
                              | inr same ↦
                                  let answer = dll.secret_at sp w in
                                  elim (Bool-cases (answer.first_length == 32)) [
                                    | inr short ↦ absurd (ground arith)
                                    | inl is32 ↦
                                        elim (Result-cases (
                                          seal_result_bytes dll c answer.first answer.first_length
                                            w)) [
                                              | inr (e, he) ↦ absurd (ground arith)
                                              | inl (secret, he) ↦
                                                  let credential_same : x.credential_id
                                                      ≡ or_value id request.credential_id =
                                                    ground arith in
                                                  let data_same : x.authenticator_data ≡ data_read =
                                                    ground arith in
                                                  let (e, filled, n) =
                                                    sealed_whole c answer.first answer.first_length
                                                      w secret laws sized
                                                      ((==_iff answer.first_length 32).0 is32) he in
                                                  (
                                                    credential_same
                                                        ∙ own_id id request.credential_id same,
                                                    rw data_same
                                                        (copy_bounded a.authenticator_data
                                                          a.authenticator_data_length w data_read
                                                          sized hd).1,
                                                    (e, ground (arith, filled), n),
                                                  )
                                            ]
                                  ]
                            ]
                    ]
            ]
      ]

  -- Where the DLL's memory holds as many bytes as its answer says: a credential id that `make_credential`
  -- returns has one byte at least and 2^20 at most, and the authenticator data 2^20 at most.
  pub make_credential_bounds :
      (a : Option Api) (request : MakeCredentialRequest) (s t : State W dll.Ptr)
      (x : MakeCredentialResult)
      → ((p : dll.Ptr) (n : ℕ) (w : W) → length (dll.bytes_at p n w) ≡ n)
      → make_credential dll text a request s ≡ (ok x, t)
      → (0 < length x.credential_id)
        × (length x.credential_id ≤ max_result_bytes)
        × (length x.authenticator_data ≤ max_result_bytes)
  unfolding make_credential
  make_credential_bounds a request s t x sized run =
      let asked = request_attestation dll text a request s in
      elim (Result-cases asked.0) [
        | inr (e, h) ↦ absurd (ground arith)
        | inl (p, h) ↦ read_attestation_bounded p asked.1.world x sized (ground arith)
      ]

  -- Over memguard's contract, and where the DLL's memory holds as many bytes as its answer says: what
  -- `get_assertion` returns names the credential of the request, has 2^20 bytes of authenticator data
  -- at most, and its secret is an enclave of 32 bytes.
  pub get_assertion_bounds :
      (c : Crypto) (laws : IsCrypto c) (a : Option Api) (request : GetAssertionRequest)
      (s t : State W dll.Ptr) (x : GetAssertionResult c.Enclave)
      → ((p : dll.Ptr) (n : ℕ) (w : W) → length (dll.bytes_at p n w) ≡ n)
      → get_assertion dll text c a request s ≡ (ok x, t)
      → (x.credential_id ≡ request.credential_id)
        × (length x.authenticator_data ≤ max_result_bytes)
        × ((e : c.Enclave) × (x.hmac_secret ≡ some e) × (c.size e ≡ 32))
  unfolding get_assertion
  get_assertion_bounds c laws a request s t x sized run =
      let asked = request_assertion dll text a request s in
      elim (Result-cases asked.0) [
        | inr (e, h) ↦ absurd (ground arith)
        | inl (p, h) ↦ read_assertion_lem c request p asked.1.world x laws sized (ground arith)
      ]
