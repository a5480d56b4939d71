-- ===== src/Tests/Cli.antt =====
-- The command lines at a terminal with one key.
use hmacsecret.Base.{
  ℕ, ◌≡◌, true, false, Bytes, [], ◌∷◌, ◌++◌, AreBytes, codes, trim, some, Result, ok, Exec, arith,
  refl, ap, subst,
}
use hmacsecret.Types.{DeviceError}
use hmacsecret.Base.Decimal.{pos, format_decimal}
use hmacsecret.Devices.{
  windows, other, list_devices, open_device, is_windows_hello, selectable,
  platform_location_allowed, reindex, prefer_hello,
}
use hmacsecret.Authenticator.{create_credential, derive}
use hmacsecret.Authenticator.Inputs.{
  encode_hex, make_client_data_json, encode_base64, letter, validate_salt, parse_salt, decode_hex,
  needs_terminal_pin,
}
use hmacsecret.Cli.Machine.{Machine, write_enclave_hex}
use hmacsecret.Cli.Terminal.{read_terminal_pin, describe_all, select}
use hmacsecret.Cli.HmacSecret.{Flags, find_credential, derive_and_print, run}
use hmacsecret.Cli.HmacSecret.Report.{report}
use hmacsecret.Cli.HmacSecret.Again.{run_again}
use hmacsecret.Cli.Terminal.Selection.{select_printed}
use hmacsecret.Tests.Devices.{bus, device, found, listed}
use hmacsecret.Tests.Authenticator.{bytes32, joined, key, plain, prf_of}

abbrev types_pin : Exec (Unit {0}) ℕ Bytes
types_pin w = (ok (codes "1234"), w)

abbrev machine : ℕ → Machine (Unit {0})
machine n = record {
  world = tt;
  stdin = [];
  stdout = [];
  stderr = [];
  broken = false;
  random = λ i. some (bytes32 n);
  drawn = 0;
}

abbrev creates : Flags
creates = record {
  device = pos 0;
  rp_id = codes "rp";
  user = codes "ann";
  salt = [];
  credential_id = [];
  list = false;
  no_windows_webauthn = false;
}

abbrev reuses : Flags
reuses = record creates { salt = encode_hex (bytes32 7); credential_id = codes "09" }

-- What the commands compute with.
runs : ℕ
unfolding run derive_and_print find_credential write_enclave_hex read_terminal_pin describe_all
    decode_hex parse_salt needs_terminal_pin create_credential derive make_client_data_json
    encode_base64 letter validate_salt list_devices open_device is_windows_hello trim selectable
    platform_location_allowed reindex prefer_hello
runs = 0

abbrev created : Result DeviceError (Unit {0}) × Machine (Unit {0})
created = run other bus key plain (λ e. some e) types_pin creates (machine 7)

abbrev reused : Result DeviceError (Unit {0}) × Machine (Unit {0})
reused = run other bus key plain (λ e. some e) types_pin reuses (machine 8)

created_lem : created ≡ (ok tt, created.1)
unfolding runs
created_lem = refl

reused_lem : reused ≡ (ok tt, reused.1)
unfolding runs
reused_lem = refl

abbrev shown_secret : Bytes
shown_secret = encode_hex (codes "rp" ++ (9 ∷ bytes32 7))

printed : created.1.stdout ≡ report (codes "09") (encode_hex (bytes32 7)) shown_secret
unfolding runs
printed = refl

asks : (path : Bytes) → needs_terminal_pin other path ≡ true
unfolding runs
asks path = refl

seven : (b : Bytes) → some (bytes32 7) ≡ some b → AreBytes b
seven b h = subst AreBytes {x = bytes32 7} {y = b} (ground arith) (ground arith)

eight : (b : Bytes) → some (bytes32 8) ≡ some b → AreBytes b
eight b h = subst AreBytes {x = bytes32 8} {y = b} (ground arith) (ground arith)

nine : (b : Bytes) → 9 ∷ [] ≡ b → AreBytes b
nine b h = subst AreBytes {x = 9 ∷ []} {y = b} h (ground arith)

run_again_example : reused.1.stdout ≡ report (codes "09") (encode_hex (bytes32 7)) shown_secret
unfolding trim
run_again_example =
    run_again other bus key plain (λ e. some e) types_pin joined false creates reuses (machine 7)
      created.1 (machine 8) reused.1 (codes "09") (encode_hex (bytes32 7)) shown_secret
      (λ h challenge rp user pin o w a made. nine a.credential_id (ground (arith, made)))
      (λ h rp_id challenge ids pin o w e asked.
        ap (λ x. some x) (prf_of h rp_id challenge ids pin o w e asked))
      asks (λ w pin typed. ground (arith, typed)) (λ n. seven) (λ n. eight) refl refl refl refl
      created_lem reused_lem printed (ground arith) (ground arith) (ground arith) refl refl refl

select_printed_example :
    (select true found (record (machine 7) { stdin = codes "1\n" })).0
    ≡ ok (device 1 (codes "usb1") false)
select_printed_example =
    select_printed windows bus false true tt tt found (device 1 (codes "usb1") false) 1 []
      (record (machine 7) { stdin = codes "1\n" }) listed refl (omega arith)
      (unfold format_decimal in refl)
