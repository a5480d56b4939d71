-- ===== src/Cli/Terminal.antt =====
-- pkg/device/cli/cli.go, pkg/pin/cli/cli.go, pkg/pin/windows/windows.go and ReadTerminalPIN of
-- lib/hmacsecret/pin.go: what is asked of the user at the terminal.
pub mod Selection
use hmacsecret.Base.{
  ℕ, ◌-◌, Bool, true, false, ◌&&◌, Bytes, List, [], ◌∷◌, ◌++◌, length, ltb, ◌==◌, codes, trim,
  Option, none, some, Result, ok, err, Exec, map_err, if◌then◌else◌,
}
use hmacsecret.Base.Stateful.{◌>>=◌, ◌>>◌, pure, lift}
use hmacsecret.Base.Decimal.{ℤ, pos, negsuc, format_decimal, atoi}
use hmacsecret.Store.{empty}
use hmacsecret.Types.{DeviceInfo, DeviceError, unnamed, foreign}
use hmacsecret.Devices.{Platform, get_elem?}
use hmacsecret.Authenticator.Inputs.{needs_terminal_pin}
use hmacsecret.Cli.Machine.{Machine, newline, on_world, print_err}

-- A device as both command lines print it.
unfoldable pub describe : DeviceInfo → Bytes
unfolding format_decimal
describe d =
    codes "["
    ++ (format_decimal d.index
        ++ (codes "] "
            ++ (d.product
                ++ (codes " / "
                    ++ (d.manufacturer ++ (codes " (" ++ (d.path ++ (codes ")" ++ newline))))))))

unfoldable pub describe_all : List DeviceInfo → Bytes
unfolding describe
describe_all [] = []
describe_all (d ∷ devices) = describe d ++ describe_all devices

-- `ReadString('\n')`: the text up to the first newline, which is an error where there is none.
unfoldable pub read_string : Bytes → Option Bytes
read_string [] = none
read_string (c ∷ s) =
    if c == 10
    then some (c ∷ [])
    else elim (read_string s) [ none ↦ none | some line ↦ some (c ∷ line) ]

-- The device that a line names.
unfoldable pub chosen : Bytes → DeviceInfo → List DeviceInfo → Result DeviceError DeviceInfo
unfolding atoi
chosen line first devices = if empty line then ok first else elim (atoi line) [
  | none ↦ err unnamed
  | some (negsuc n) ↦ err unnamed
  | some (pos n) ↦ elim (get_elem? devices n) [ none ↦ err unnamed | some d ↦ ok d ]
]

module _ {W : Type 0} where
  -- The buffered reader takes what the input holds (bufio: up to 4096 bytes); what it does not
  -- return is lost.
  abbrev pub read_line : Exec (Machine W) DeviceError Bytes
  read_line m = elim (read_string m.stdin) [
    | none ↦ (err unnamed, record m { stdin = [] })
    | some line ↦ (ok line, record m { stdin = [] })
  ]

  abbrev pub ask_device : DeviceInfo → List DeviceInfo → Exec (Machine W) DeviceError DeviceInfo
  ask_device first devices = do
    print_err (codes "device index [0-" ++ (format_decimal (length devices - 1) ++ codes "]: "))
    line ← read_line
    lift (chosen (trim line) first devices)

  -- `Selector.Select`
  unfoldable pub select : Bool → List DeviceInfo → Exec (Machine W) DeviceError DeviceInfo
  unfolding describe_all format_decimal read_string chosen
  select auto_single [] = lift (err unnamed)
  select auto_single (d ∷ devices) = do
    print_err (describe_all (d ∷ devices))
    if auto_single && (length (d ∷ devices) == 1) then pure d else ask_device d (d ∷ devices)

  -- `read_password` is `term.ReadPassword` of the terminal.
  unfoldable pub read_terminal_pin : Exec W ℕ Bytes → Exec (Machine W) DeviceError Bytes
  read_terminal_pin read_password = do
    print_err (codes "PIN (empty if unset): ")
    r ← on_world (λ w. let (r, w') = read_password w in (ok r, w'))
    print_err newline
    lift (map_err foreign r)

  -- `Provide` of pkg/pin/cli
  unfoldable pub provide :
      Platform → Exec W ℕ Bytes → DeviceInfo → Exec (Machine W) DeviceError Bytes
  unfolding read_terminal_pin needs_terminal_pin
  provide platform read_password device = elim (needs_terminal_pin platform device.path) [
    | false ↦ pure []
    | true ↦
        print_err (codes "device " ++ (device.path ++ codes " PIN (empty if unset): "))
        >> read_terminal_pin read_password
  ]

  -- `Provide` of pkg/pin/windows
  unfoldable pub provide_windows : DeviceInfo → Exec (Machine W) DeviceError Bytes
  provide_windows device = pure []
