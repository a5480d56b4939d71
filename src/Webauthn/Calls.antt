-- ===== src/Webauthn/Calls.antt =====
-- internal/webauthn/dll_windows.go: Load and Version, and the calls of webauthn.dll. The state has the
-- world that the DLL acts on and the calls made, the last one first.
use hmacsecret.Base.{
  ℕ, ◌-◌, ◌*◌, ◌/◌, ◌%◌, ◌^◌, Bool, true, false, Bytes, List, [], ◌∷◌, ltb, ◌==◌, Option, none,
  some, Result, ok, err, Exec, if◌then◌else◌,
}
use hmacsecret.Store.{empty}
use hmacsecret.Base.Decimal.{ℤ, pos, negsuc}
use hmacsecret.Webauthn.Types.{
  RpEntityInformation, UserEntityInformation, ClientData, CoseCredentialParameter,
  MakeCredentialOptions, GetAssertionOptions,
}
use hmacsecret.Webauthn.Native.{
  Dll, WebauthnError, unavailable, invalid_input, call_error, unnamed, failed, error_name,
}

-- A loaded API; `none` in its place is a nil `*API`. Its procedures may be nil.
pub record Api : Type 0 where
  pub has_version : Bool
  pub has_make_credential : Bool
  pub has_get_assertion : Bool

-- A call of the DLL; a request with the HRESULT and the pointer that it answered with.
pub data Call (P : Type 0) : Type 0 where
  called_version : Call P
  called_make_credential called_get_assertion : ℕ → Option P → Call P
  freed_attestation freed_assertion : P → Call P

pub record State (W P : Type 0) : Type 0 where
  pub world : W
  pub calls : List (Call P)

-- Ten minutes, and milliseconds, in nanoseconds.
abbrev pub default_timeout : ℕ
default_timeout = 600000000000

abbrev pub millisecond : ℕ
millisecond = 1000000

-- The milliseconds of a request's timeout.
unfoldable pub timeout_milliseconds : ℤ → Result WebauthnError ℕ
timeout_milliseconds timeout =
    let t : ℕ = elim timeout [
      | negsuc n ↦ default_timeout
      | pos n ↦ if n == 0 then default_timeout else n
    ] in
    if ltb ((2 ^ 32 - 1) * millisecond) t then err invalid_input else ok (t / millisecond % 2 ^ 32)

abbrev pub or_value : Bytes → Bytes → Bytes
or_value value fallback = if empty value then fallback else value

module _ {W : Type 0} (dll : Dll W) (text : ℕ → Bytes) where
  -- A read of the world that changes nothing.
  abbrev pub reading :
      {A : Type 0} → (W → Result WebauthnError A) → Exec (State W dll.Ptr) WebauthnError A
  reading f s = (f s.world, s)

  -- `defer free.Call(ptr)` before the rest of a function
  abbrev pub freeing :
      {A : Type 0}
      → Call dll.Ptr
      → (W → W)
      → Exec (State W dll.Ptr) WebauthnError A
      → Exec (State W dll.Ptr) WebauthnError A
  freeing freed free m s =
      let (r, t) = m s in (r, record { world = free t.world; calls = freed ∷ t.calls })

  abbrev pub utf16_pointer : Bytes → Result WebauthnError dll.Wide
  utf16_pointer value = elim (dll.utf16_ptr value) [ none ↦ err unnamed | some p ↦ ok p ]

  abbrev pub foreground_window : Exec (State W dll.Ptr) WebauthnError ℕ
  foreground_window s =
      let (window, w) = dll.get_foreground_window s.world in (ok window, record s { world = w })

  -- The API's version, a `uint32`; 0 without an API.
  unfoldable pub version : Option Api → Exec (State W dll.Ptr) WebauthnError ℕ
  version none s = (ok 0, s)
  version (some a) s = elim a.has_version [
    | false ↦ (ok 0, s)
    | true ↦
        let (v, w) = dll.get_api_version s.world in
        (ok (v % 2 ^ 32), record { world = w; calls = called_version ∷ s.calls })
  ]

  -- The map of procedures is walked in no fixed order; `names` is the order taken.
  unfoldable pub find_all : List Bytes → Exec W WebauthnError (Unit {0})
  find_all [] w = (ok tt, w)
  find_all (name ∷ names) w =
      let (found, w') = dll.find name w in
      elim found [ false ↦ (err unavailable, w') | true ↦ find_all names w' ]

  abbrev pub loaded : Api
  loaded = record { has_version = true; has_make_credential = true; has_get_assertion = true }

  unfoldable pub load : List Bytes → Exec (State W dll.Ptr) WebauthnError Api
  unfolding find_all version
  load names s =
      let (loads, w) = dll.load s.world in
      elim loads [
        | false ↦ (err unavailable, record s { world = w })
        | true ↦
            let (found, w') = find_all names w in
            elim found [
              | err e ↦ (err e, record s { world = w' })
              | ok done ↦
                  let (v, t) = version (some loaded) (record s { world = w' }) in
                  elim v [
                    | err e ↦ (err e, t)
                    | ok n ↦ ((if ltb n 1 then err unavailable else ok loaded), t)
                  ]
            ]
      ]

  -- `HRESULT(result)` is a `uint32`.
  abbrev pub call_make_credential :
      ℕ
      → RpEntityInformation dll.Wide
      → UserEntityInformation dll.Wide
      → CoseCredentialParameter dll.Wide
      → ClientData dll.Wide
      → MakeCredentialOptions dll.Wide
      → Exec (State W dll.Ptr) WebauthnError (ℕ × Option dll.Ptr)
  call_make_credential window rp user parameter client_data options s =
      let (answer, w) = dll.make_credential window rp user parameter client_data options s.world in
      let h = answer.0 % 2 ^ 32 in
      (ok (h, answer.1), record { world = w; calls = called_make_credential h answer.1 ∷ s.calls })

  abbrev pub call_get_assertion :
      ℕ
      → dll.Wide
      → ClientData dll.Wide
      → GetAssertionOptions dll.Wide
      → Exec (State W dll.Ptr) WebauthnError (ℕ × Option dll.Ptr)
  call_get_assertion window rp_id client_data options s =
      let (answer, w) = dll.get_assertion window rp_id client_data options s.world in
      let h = answer.0 % 2 ^ 32 in
      (ok (h, answer.1), record { world = w; calls = called_get_assertion h answer.1 ∷ s.calls })

  -- The result pointer, where the call did not fail.
  unfoldable pub result_pointer : Bytes → ℕ × Option dll.Ptr → Result WebauthnError dll.Ptr
  unfolding failed error_name
  result_pointer operation (h, answer) =
      if failed h
      then err (call_error operation h (error_name text h))
      else elim answer [ none ↦ err unnamed | some p ↦ ok p ]
