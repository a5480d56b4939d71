-- ===== src/Cli/Machine.antt =====
-- What a command line works on: the world of the libraries that it calls, the texts on its three standard
-- streams, and the source of randomness.
use hmacsecret.Base.{
  ℕ, suc, Bool, true, false, Bytes, [], ◌∷◌, ◌++◌, Option, none, some, ok, err, Exec,
}
use hmacsecret.Base.Stateful.{◌>>=◌, ◌>>◌, lift}
use hmacsecret.Types.{DeviceError, unnamed, empty_hmac_secret}
use hmacsecret.Authenticator.Inputs.{encode_hex}

-- `broken` says that writes to standard output fail. The draws of random bytes are numbered.
pub record Machine (W : Type 0) : Type 0 where
  pub world : W
  pub stdin : Bytes
  pub stdout : Bytes
  pub stderr : Bytes
  pub broken : Bool
  pub random : ℕ → Option Bytes
  pub drawn : ℕ

abbrev pub newline : Bytes
newline = 10 ∷ []

module _ {W : Type 0} where
  -- A call on the world.
  abbrev pub on_world {ℓ} : {A : Type ℓ} → Exec W DeviceError A → Exec (Machine W) DeviceError A
  on_world call m = let (r, w) = call m.world in (r, record m { world = w })

  -- The next random bytes. Those that a call does not come to use are drawn all the same.
  abbrev pub draw : Exec (Machine W) DeviceError (Option Bytes)
  draw m = (ok (m.random m.drawn), record m { drawn = suc m.drawn })

  -- `fmt.Fprintf` to either stream, whose error is dropped.
  abbrev pub print_err : Bytes → Exec (Machine W) DeviceError (Unit {0})
  print_err text m = (ok tt, record m { stderr = m.stderr ++ text })

  abbrev pub print : Bytes → Exec (Machine W) DeviceError (Unit {0})
  print text m =
      (ok tt, elim m.broken [ true ↦ m | false ↦ record m { stdout = m.stdout ++ text } ])

  -- `io.WriteString` to standard output
  abbrev pub write : Bytes → Exec (Machine W) DeviceError (Unit {0})
  write text m = elim m.broken [
    | true ↦ (err unnamed, m)
    | false ↦ (ok tt, record m { stdout = m.stdout ++ text })
  ]

  -- `writeEnclaveHex` to standard output; `open_enclave` is memguard's `Open`.
  unfoldable pub write_enclave_hex :
      {E : Type 0} → (E → Option Bytes) → Bytes → Option E → Exec (Machine W) DeviceError (Unit {0})
  write_enclave_hex open_enclave prefix enclave = do
    e ← lift (elim enclave [ none ↦ err empty_hmac_secret | some e ↦ ok e ])
    secret ← lift (elim (open_enclave e) [ none ↦ err unnamed | some b ↦ ok b ])
    write prefix
    write (encode_hex secret)
    write newline
