-- ===== src/Devices/Order.antt =====
-- Lemmas on the last two loops of `ListDevices` (lib/hmacsecret/device.go): the broker moved to the
-- front, and the devices numbered anew.
use hmacsecret.Base.{
  ℕ, zero, suc, ◌+◌, ◌≡◌, true, false, Bytes, List, [], ◌∷◌, ◌++◌, take, drop, bytes_eq, none, some,
  arith, refl, ap, ◌∙◌, sym, Option-cases, Bool-cases, inl, inr, if◌then◌else◌, take-append-drop,
}
use hmacsecret.Types.{DeviceInfo}
use hmacsecret.Devices.{find_hello, to_front, prefer_hello, reindex, get_elem?}

-- How often a path occurs in a list of devices.
abbrev pub count_path : Bytes → List DeviceInfo → ℕ
count_path p [] = 0
count_path p (d ∷ out) = (if bytes_eq d.path p then 1 else 0) + count_path p out

count_path-append :
    (p : Bytes) (xs ys : List DeviceInfo)
    → count_path p (xs ++ ys) ≡ count_path p xs + count_path p ys
count_path-append p [] ys = omega arith
count_path-append p (x ∷ xs) ys = omega (arith, count_path-append p xs ys)

pub count_path-reindex :
    (p : Bytes) (i : ℕ) (out : List DeviceInfo) → count_path p (reindex i out) ≡ count_path p out
unfolding reindex
count_path-reindex p i [] = refl
count_path-reindex p i (d ∷ out) =
    ap (λ n. (if bytes_eq d.path p then 1 else 0) + n) (count_path-reindex p (suc i) out)

count_path-to_front :
    (p : Bytes) (i : ℕ) (out rest : List DeviceInfo) (hello : DeviceInfo)
    → drop i out ≡ hello ∷ rest
    → count_path p (hello ∷ (take i out ++ rest)) ≡ count_path p out
count_path-to_front p i out rest hello h =
    let whole : count_path p (take i out) + count_path p (drop i out) ≡ count_path p out =
      sym (count_path-append p (take i out) (drop i out))
      ∙ ap (count_path p) (take-append-drop i out) in
    let tail : count_path p (drop i out) ≡ count_path p (hello ∷ rest) = ap (count_path p) h in
    omega (arith, whole, tail, count_path-append p (take i out) rest)

find_hello-none :
    (i j : ℕ) (out : List DeviceInfo) (d : DeviceInfo)
    → find_hello i out ≡ none
    → get_elem? out j ≡ some d
    → d.windows_hello ≡ false
unfolding find_hello
find_hello-none i j [] d h e = absurd (ground arith)
find_hello-none i zero (x ∷ out) d h e = elim (Bool-cases x.windows_hello) [
  | inl is ↦ absurd (ground arith)
  | inr isnt ↦ ground arith
]
find_hello-none i (suc j) (x ∷ out) d h e =
    find_hello-none (suc i) j out d
      (elim (Bool-cases x.windows_hello) [
        | inl is ↦ absurd (ground arith)
        | inr isnt ↦ ground arith
      ])
      e

-- What `find_hello` found stands at its place.
find_hello-some :
    (i k : ℕ) (out : List DeviceInfo)
    → find_hello i out ≡ some k
    → (j : ℕ) × (hello : DeviceInfo) × (rest : List DeviceInfo) × (k ≡ i + j)
      × (drop j out ≡ hello ∷ rest)
      × (hello.windows_hello ≡ true)
unfolding find_hello
find_hello-some i k [] h = absurd (ground arith)
find_hello-some i k (x ∷ out) h = elim (Bool-cases x.windows_hello) [
  | inl is ↦ (0, x, out, ground arith, refl, is)
  | inr isnt ↦
      let (j, hello, rest, place, found, is) = find_hello-some (suc i) k out (ground arith) in
      (suc j, hello, rest, omega arith, found, is)
]

-- The devices with the broker, if there is one, moved to the front.
data Preferred (out : List DeviceInfo) : Type 0 where
  as_is : find_hello 0 out ≡ none → prefer_hello out ≡ out → Preferred out
  moved :
      (j : ℕ) (hello : DeviceInfo) (rest : List DeviceInfo)
      → drop j out ≡ hello ∷ rest
      → hello.windows_hello ≡ true
      → prefer_hello out ≡ hello ∷ (take j out ++ rest)
      → Preferred out

to_front_lem :
    (j : ℕ) (out rest : List DeviceInfo) (hello : DeviceInfo)
    → drop j out ≡ hello ∷ rest
    → to_front j out ≡ hello ∷ (take j out ++ rest)
to_front_lem j out rest hello found = ground arith

prefer_hello-found :
    (k : ℕ) (out : List DeviceInfo) → find_hello 0 out ≡ some k → prefer_hello out ≡ to_front k out
unfolding prefer_hello
prefer_hello-found k out h = rw (h, prefer_hello) refl

prefer_hello-none : (out : List DeviceInfo) → find_hello 0 out ≡ none → prefer_hello out ≡ out
unfolding prefer_hello
prefer_hello-none out h = rw (h, prefer_hello) refl

prefer_hello-Preferred : (out : List DeviceInfo) → Preferred out
prefer_hello-Preferred out = elim (Option-cases (find_hello 0 out)) [
  | inl h ↦ as_is h (prefer_hello-none out h)
  | inr (k, h) ↦
      let (j, hello, rest, place, found, is) = find_hello-some 0 k out h in
      let same : k ≡ j = omega arith in
      moved j hello rest found is (
        prefer_hello-found k out h
        ∙ ap (λ n. to_front n out) same
        ∙ to_front_lem j out rest hello found)
]

pub prefer_hello-count :
    (p : Bytes) (out : List DeviceInfo) → count_path p (prefer_hello out) ≡ count_path p out
prefer_hello-count p out = elim (prefer_hello-Preferred out) [
  | as_is h e ↦ ap (count_path p) e
  | moved j hello rest found is e ↦
      ap (count_path p) e ∙ count_path-to_front p j out rest hello found
]

-- The broker comes first where there is one.
unfoldable pub HelloFirst : List DeviceInfo → Type 0
HelloFirst out =
    (j : ℕ) (d : DeviceInfo)
    → get_elem? out j ≡ some d
    → d.windows_hello ≡ true
    → (first : DeviceInfo) × (get_elem? out 0 ≡ some first) × (first.windows_hello ≡ true)

pub prefer_hello-HelloFirst : (out : List DeviceInfo) → HelloFirst (prefer_hello out)
unfolding HelloFirst
prefer_hello-HelloFirst out j d e is = elim (prefer_hello-Preferred out) [
  | as_is h same ↦
      absurd (ground (arith, find_hello-none 0 j out d h (sym (ap (λ t. get_elem? t j) same) ∙ e)))
  | moved i hello rest found first same ↦ (hello, ap (λ t. get_elem? t 0) same, first)
]

-- A device keeps its place and all but its index.
pub get_elem-reindex :
    (i j : ℕ) (out : List DeviceInfo) (d : DeviceInfo)
    → get_elem? (reindex i out) j ≡ some d
    → (x : DeviceInfo) × (get_elem? out j ≡ some x) × (d ≡ record x { index = i + j })
unfolding reindex
get_elem-reindex i j [] d e = absurd (ground arith)
get_elem-reindex i zero (x ∷ out) d e = (
  x,
  refl,
  (let same : d ≡ record x { index = i } = cc in
      same ∙ ap (λ n. record x { index = n }) (omega arith)),
)
get_elem-reindex i (suc j) (x ∷ out) d e =
    let (y, found, same) = get_elem-reindex (suc i) j out d e in
    (y, found, same ∙ ap (λ n. record y { index = n }) (omega arith))

pub reindex-HelloFirst :
    (i : ℕ) (out : List DeviceInfo) → HelloFirst out → HelloFirst (reindex i out)
unfolding reindex HelloFirst
reindex-HelloFirst i [] h j d e is = absurd (ground arith)
reindex-HelloFirst i (x ∷ out) h j d e is =
    let (y, found, same) = get_elem-reindex i j (x ∷ out) d e in
    let (first, front, hello) = h j y found (sym (ap (λ t. t.windows_hello) same) ∙ is) in
    (
      record x { index = i },
      refl,
      (let one : x ≡ first = cc in ap (λ t. t.windows_hello) one ∙ hello),
    )
