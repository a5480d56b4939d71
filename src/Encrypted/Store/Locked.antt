-- ===== src/Encrypted/Store/Locked.antt =====
-- Theorems on `Lock` of pkg/store/encrypted/encrypted.go, and on the other methods of a locked store.
use hmacsecret.Base.{
  ◌≡◌, ◌⊎◌, some, trim, Bytes, List, [], ◌∷◌, Option, none, Result, ok, err, arith, refl,
  Option-cases, inl, inr,
}
use hmacsecret.Base.Fallible.{◌>>◌, Result-cases}
use hmacsecret.Store.{
  Error, Record, KekReference, Context, check, locked, validate_alias, validate_record,
  validate_kek_reference,
}
use hmacsecret.Store.Backend.{EnvelopeBackend}
use hmacsecret.Encrypted.Crypto.{Crypto}
use hmacsecret.Encrypted.Blob.{clone_kek_reference, validate_key_enclave}
use hmacsecret.Encrypted.Store.{
  Store, zero_header, trim_record, call, snapshot, lock, put, get, delete, has, list, rotate_kek,
}

-- A call of a method that needs the store's key.
pub data KeyCall (c : Crypto) : Type 0 where
  puts : Context → Record → Option Bytes → KeyCall c
  gets : Context → Bytes → KeyCall c
  deletes : Context → Bytes → KeyCall c
  rotates : Context → KekReference → Option c.Enclave → Option Bytes → KeyCall c

abbrev pub error_of {ℓ} : {A : Type ℓ} → Result Error A → Option Error
error_of (ok a) = none
error_of (err e) = some e

module _ {c : Crypto} {S : Type 0} (b : EnvelopeBackend S) where
  -- The error that the call returned, if any, and the store after it.
  abbrev pub perform : KeyCall c → Store c S → Option Error × Store c S
  perform (puts ctx rec random) s = let (r, t) = put b ctx rec random s in (error_of r, t)
  perform (gets ctx raw) s = let (r, t) = get b ctx raw s in (error_of r, t)
  perform (deletes ctx raw) s = let (r, t) = delete b ctx raw s in (error_of r, t)
  perform (rotates ctx next kek random) s =
      let (r, t) = rotate_kek b ctx next kek random s in (error_of r, t)

  -- The calls in order: what each returned, and the store at the end.
  unfoldable pub perform_all : List (KeyCall c) → Store c S → List (Option Error) × Store c S
  perform_all [] s = ([], s)
  perform_all (x ∷ calls) s =
      let (e, t) = perform x s in let (rest, u) = perform_all calls t in (e ∷ rest, u)

  -- `locked`, or the very error that the call returns from `s`.
  abbrev pub IsRefusal : Store c S → KeyCall c → Option Error → Type 0
  IsRefusal s x answer =
      (answer ≡ some locked) ⊎ ((e : Error) × (answer ≡ some e) × ((perform x s).0 ≡ some e))

  abbrev pub AreRefusals : Store c S → List (KeyCall c) → List (Option Error) → Type 0
  AreRefusals s [] [] = Unit {0}
  AreRefusals s [] (a ∷ answers) = ⊥
  AreRefusals s (x ∷ calls) [] = ⊥
  AreRefusals s (x ∷ calls) (a ∷ answers) = IsRefusal s x a × AreRefusals s calls answers

  abbrev locked_state : Store c S → Store c S
  locked_state s = record s { header = zero_header; dek = none }

  abbrev IsRefused : KeyCall c → Store c S → Type 0
  IsRefused x s =
      ((perform x (locked_state s)).1 ≡ locked_state s)
      × IsRefusal s x (perform x (locked_state s)).0

  -- A call whose checks either fail, which ends it, or let it on to the test for the key.
  checked :
      (x : KeyCall c) (s : Store c S) (checks : Result Error (Unit {0}))
      → ((e : Error)
          → checks ≡ err e
          → (perform x (locked_state s) ≡ (some e, locked_state s)) × ((perform x s).0 ≡ some e))
      → (checks ≡ ok tt → perform x (locked_state s) ≡ (some locked, locked_state s))
      → IsRefused x s
  checked x s checks fails passes = elim (Result-cases checks) [
    | inr (e, h) ↦ let (refused, before) = fails e h in rw refused (refl, inr (e, refl, before))
    | inl (u, h) ↦ rw (passes h) (refl, inl refl)
  ]

  put_locked :
      (ctx : Context) (rec : Record) (random : Option Bytes) (s : Store c S)
      → IsRefused (puts ctx rec random) s
  unfolding put snapshot
  put_locked ctx rec random s =
      checked (puts ctx rec random) s (do check ctx; validate_record (trim_record rec))
        (λ e h. (ground arith, ground arith)) (λ h. ground arith)

  get_locked : (ctx : Context) (raw : Bytes) (s : Store c S) → IsRefused (gets ctx raw) s
  unfolding get snapshot
  get_locked ctx raw s =
      checked (gets ctx raw) s (do check ctx; validate_alias (trim raw))
        (λ e h. (ground arith, ground arith)) (λ h. ground arith)

  delete_locked : (ctx : Context) (raw : Bytes) (s : Store c S) → IsRefused (deletes ctx raw) s
  unfolding delete snapshot
  delete_locked ctx raw s =
      checked (deletes ctx raw) s (do check ctx; validate_alias (trim raw))
        (λ e h. (ground arith, ground arith)) (λ h. ground arith)

  rotate_kek_locked :
      (ctx : Context) (next : KekReference) (kek : Option c.Enclave) (random : Option Bytes)
      (s : Store c S)
      → IsRefused (rotates ctx next kek random) s
  unfolding rotate_kek clone_kek_reference
  rotate_kek_locked ctx next kek random s =
      checked (rotates ctx next kek random) s
        (do
          check ctx
          validate_kek_reference (record (clone_kek_reference next) { rp_id = trim next.rp_id })
          validate_key_enclave c kek)
        (λ e h. (ground arith, ground arith)) (λ h. ground arith)

  perform_locked : (x : KeyCall c) (s : Store c S) → IsRefused x s
  perform_locked (puts ctx rec random) s = put_locked ctx rec random s
  perform_locked (gets ctx raw) s = get_locked ctx raw s
  perform_locked (deletes ctx raw) s = delete_locked ctx raw s
  perform_locked (rotates ctx next kek random) s = rotate_kek_locked ctx next kek random s

  -- After `lock`, any number of calls of `put`, `get`, `delete` and `rotate_kek`, with any arguments and
  -- under any contexts, leave the store and its backend as `lock` left them, and each of them fails:
  -- with `locked`, or with the error that the same call returns from the store before the `lock`.
  pub locked_refuses :
      (calls : List (KeyCall c)) (s : Store c S)
      → ((perform_all calls (lock s).1).1 ≡ (lock s).1)
        × AreRefusals s calls (perform_all calls (lock s).1).0
  unfolding lock perform_all
  locked_refuses [] s = (refl, tt)
  locked_refuses (x ∷ calls) s =
      let (kept, refused) = perform_locked x s in
      let (end, rest) = locked_refuses calls s in rw kept (end, (refused, rest))

  -- `has` and `list` answer the same before and after `lock`.
  pub lock_answers :
      (ctx : Context) (raw : Bytes) (s : Store c S)
      → ((has b ctx raw (lock s).1).0 ≡ (has b ctx raw s).0)
        × ((list b ctx (lock s).1).0 ≡ (list b ctx s).0)
        × ((lock s).1.dek ≡ none)
        × ((lock s).1.backend ≡ s.backend)
  unfolding has list lock call
  lock_answers ctx raw s = elim (Option-cases s.backend) [
    | inl gone ↦ (ground arith, ground arith, refl, refl)
    | inr (t, held) ↦ (ground arith, ground arith, refl, refl)
  ]
