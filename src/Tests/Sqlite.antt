-- ===== src/Tests/Sqlite.antt =====
-- The SQLite store over tables in memory.
use hmacsecret.Base.{
  ℕ, ◌≡◌, ◌≢◌, ◌⊎◌, subst, true, false, Bytes, [], bytes_eq, bytes_eq_iff, codes, trim, Option,
  none, some, Result, ok, err, arith, refl, if◌then◌else◌, ◌==◌, Option-cases, inl, inr, ap,
  Bool-cases,
}
use hmacsecret.Store.{EncryptedBlob, exists, not_found, foreign, validate_record, validate_alias}
use hmacsecret.Store.Backend.{IsBackend}
use hmacsecret.Pebble.Credentials.{trim_record}
use hmacsecret.Sqlite.Engine.{Sql, Table, IsTable, IsSql, Failure, CredentialRow, background}
use hmacsecret.Sqlite.{sqlite_backend, put, get, delete, has}
use hmacsecret.Sqlite.Writes.{sqlite_view}
use hmacsecret.Sqlite.Envelopes.{sqlite_backend-IsBackend}
use hmacsecret.Authenticator.ClientJson.{AreAscii}
use hmacsecret.Sqlite.Unique.{Mentions}
use hmacsecret.Sqlite.Credentials.{row_of, sqlite_put_stores, sqlite_delete_removes}
use hmacsecret.Tests.Pebble.{text, login}

pub record Tables : Type 0 where
  pub header : Option (ℕ × Bytes)
  pub credentials : Bytes → Option CredentialRow
  pub envelopes : Bytes → Option EncryptedBlob

abbrev pub duplicate : Failure
duplicate = record {
  message = codes "constraint failed: UNIQUE constraint failed";
  cause = foreign 6;
}

abbrev updated {ℓ} : {R : Type ℓ} → (Bytes → Option R) → Bytes → Option R → Bytes → Option R
updated rows k v j = if bytes_eq k j then v else rows j

abbrev counted {ℓ} : {R : Type ℓ} → Option R → ℕ
counted none = 0
counted (some x) = 1

module _ {R : Type 0} (rows : Tables → Bytes → Option R)
    (store : Tables → (Bytes → Option R) → Tables) where
  abbrev memory_insert : Bytes → R → Tables → Option R → Result Failure (Unit {0}) × Tables
  memory_insert k r d none = (ok tt, store d (updated (rows d) k (some r)))
  memory_insert k r d (some old) = (err duplicate, d)

  abbrev memory_table : Table Tables R
  memory_table = record {
    insert = λ ctx k r d. memory_insert k r d (rows d k);
    select = λ ctx k d. ok (rows d k);
    delete = λ ctx k d. (ok (ok (counted (rows d k))), store d (updated (rows d) k none));
    count = λ ctx k d. ok (counted (rows d k));
    list = λ ctx d. ok ([], ok tt);
  }

  insert_ok :
      (k : Bytes) (r : R) (d : Tables)
      → (memory_insert k r d (rows d k)).0 ≡ ok tt
      → (rows d k ≡ none)
        × ((memory_insert k r d (rows d k)).1 ≡ store d (updated (rows d) k (some r)))
  insert_ok k r d e = elim (Option-cases (rows d k)) [
    | inl h ↦ (h, ground arith)
    | inr (x, h) ↦ absurd (ground arith)
  ]

  memory_table-IsTable :
      ((d : Tables) (f : Bytes → Option R) (j : Bytes) → rows (store d f) j ≡ f j)
      → IsTable memory_table
  memory_table-IsTable kept = record {
    live = λ ctx k d h. refl;
    counted = λ ctx k d r h e. ground arith;
    insert_fresh = λ ctx k r d e. let (h, _) = insert_ok k r d e in ap ok h;
    insert_done = λ ctx k r d e.
        let (_, h) = insert_ok k r d e in
        rw h (ground (arith, kept d (updated (rows d) k (some r)) k, bytes_eq_iff k k));
    insert_other = λ ctx k j r d e ne.
        let (_, h) = insert_ok k r d e in
        rw h (ground (arith, kept d (updated (rows d) k (some r)) j, bytes_eq_iff k j));
    insert_refused = λ ctx k r old d e. (duplicate, ground arith);
    delete_done =
        λ ctx k d n e. ground (arith, kept d (updated (rows d) k none) k, bytes_eq_iff k k);
    delete_other =
        λ ctx k j d n e ne. ground (arith, kept d (updated (rows d) k none) j, bytes_eq_iff k j);
  }

abbrev add_header : ℕ → Bytes → Tables → Option (ℕ × Bytes) → Result Failure (Unit {0}) × Tables
add_header r body d none = (ok tt, record d { header = some (r, body) })
add_header r body d (some old) = (err duplicate, d)

abbrev set_header :
    ℕ → Bytes → ℕ → Tables → Option (ℕ × Bytes) → Result Failure (Result Failure ℕ) × Tables
set_header r body old d none = (ok (ok 0), d)
set_header r body old d (some (revision, was)) =
    if revision == old then (ok (ok 1), record d { header = some (r, body) }) else (ok (ok 0), d)

abbrev pub tables : Sql Tables
tables = record {
  credentials = memory_table (λ d. d.credentials) (λ d f. record d { credentials = f });
  envelopes = memory_table (λ d. d.envelopes) (λ d f. record d { envelopes = f });
  insert_header = λ ctx r body d. add_header r body d d.header;
  select_header = λ ctx d. ok d.header;
  update_header = λ ctx r body old d. set_header r body old d d.header;
  count_header = λ ctx d. ok (counted d.header);
  migrate = λ ctx d. (ok tt, d);
  close = λ d. ok tt;
}

add_header_ok :
    (r : ℕ) (body : Bytes) (d : Tables)
    → (add_header r body d d.header).0 ≡ ok tt
    → (d.header ≡ none) × ((add_header r body d d.header).1.header ≡ some (r, body))
add_header_ok r body d e = elim (Option-cases d.header) [
  | inl h ↦ (h, ground arith)
  | inr (x, h) ↦ absurd (ground arith)
]

add_header_envelopes :
    (r : ℕ) (body : Bytes) (d : Tables) (x : Option (ℕ × Bytes))
    → (add_header r body d x).1.envelopes ≡ d.envelopes
add_header_envelopes r body d none = refl
add_header_envelopes r body d (some old) = refl

set_header_ok :
    (r old n : ℕ) (body : Bytes) (d : Tables)
    → (set_header r body old d d.header).0 ≡ ok (ok n)
    → n ≢ 0
    → (was : Bytes) × (d.header ≡ some (old, was))
      × ((set_header r body old d d.header).1.header ≡ some (r, body))
set_header_ok r old n body d e ne = elim (Option-cases d.header) [
  | inl h ↦ absurd (ground arith)
  | inr ((revision, was), h) ↦ elim (Bool-cases (revision == old)) [
    | inl same ↦ (was, ground arith, ground arith)
    | inr other ↦ absurd (ground arith)
  ]
]

set_header_envelopes :
    (r old : ℕ) (body : Bytes) (d : Tables) (x : Option (ℕ × Bytes))
    → (set_header r body old d x).1.envelopes ≡ d.envelopes
set_header_envelopes r old body d none = refl
set_header_envelopes r old body d (some (revision, was)) = elim (Bool-cases (revision == old)) [
  | inl same ↦ ground arith
  | inr other ↦ ground arith
]

insert_envelope_lem :
    (k : Bytes) (e : EncryptedBlob) (d : Tables)
    → (tables.envelopes.insert background k e d).1.header ≡ d.header
insert_envelope_lem k e d = elim (Option-cases (d.envelopes k)) [
  | inl h ↦ ground arith
  | inr (x, h) ↦ ground arith
]

pub tables-IsSql : IsSql tables
tables-IsSql = record {
  credentials =
      memory_table-IsTable (λ d. d.credentials) (λ d f. record d { credentials = f })
        (λ d f j. refl);
  envelopes =
      memory_table-IsTable (λ d. d.envelopes) (λ d f. record d { envelopes = f }) (λ d f j. refl);
  live = λ ctx d h. refl;
  insert_fresh = λ ctx r body d e. ap ok (add_header_ok r body d e).0;
  insert_done = λ ctx r body d e. ap ok (add_header_ok r body d e).1;
  update_done = λ ctx r old n body d e ne.
      let (was, h, after) = set_header_ok r old n body d e ne in (was, ap ok h, ap ok after);
  insert_header_envelope =
      λ ctx r body j d. ap (λ f. ok (f j)) (add_header_envelopes r body d d.header);
  update_header_envelope =
      λ ctx r old body j d. ap (λ f. ok (f j)) (set_header_envelopes r old body d d.header);
  delete_envelope_header = λ ctx k d. refl;
  insert_envelope_header = λ ctx k e d. ap ok (insert_envelope_lem k e d);
}

sqlite_backend-IsBackend_example : IsBackend (sqlite_backend tables text) (sqlite_view tables text)
sqlite_backend-IsBackend_example = sqlite_backend-IsBackend tables text tables-IsSql

abbrev start : Option Tables
start = some (record { header = none; credentials = λ k. none; envelopes = λ k. none })

abbrev filled : Option Tables
filled = (put tables text background login start).1

put_ok : put tables text background login start ≡ (ok tt, filled)
unfolding put trim validate_record
put_ok = refl

abbrev row : CredentialRow
row = row_of login

-- The driver in memory refuses with one text.
refusals_ascii :
    (d : Tables) (f : Failure)
    → (tables.credentials.insert background (trim login.alias) row d).0 ≡ err f
    → AreAscii f.message
refusals_ascii d f h = elim (Option-cases (d.credentials (trim login.alias))) [
  | inl free ↦ absurd (ground arith)
  | inr (old, taken) ↦
      subst (λ g. AreAscii g.message) {x = duplicate} {y = f} (ground arith) (ground arith)
]

sqlite_put_stores_example :
    (get tables text background (codes "login") filled ≡ (ok (trim_record login), filled))
    × (has tables text background (codes "login") filled ≡ (ok true, filled))
    × ((d : Tables) × (f : Failure) × (filled ≡ some d)
        × (tables.credentials.insert background (trim login.alias) row d ≡ (err f, d))
        × ((Mentions (codes "unique") f.message
              × (put tables text background login filled ≡ (err exists, filled)))
            ⊎ ((¬ Mentions (codes "unique") f.message)
                × (put tables text background login filled ≡ (err f.cause, filled)))))
unfolding trim validate_record
sqlite_put_stores_example =
    sqlite_put_stores tables text tables-IsSql background background login login (codes "login")
      start filled (λ i. refl) refusals_ascii refl refl refl put_ok

abbrev emptied : Option Tables
emptied = (delete tables text background (codes "login") filled).1

delete_ok : delete tables text background (codes "login") filled ≡ (ok tt, emptied)
unfolding put delete trim validate_record validate_alias
delete_ok = refl

sqlite_delete_removes_example :
    (get tables text background (codes "login ") emptied ≡ (err not_found, emptied))
    × (has tables text background (codes "login ") emptied ≡ (ok false, emptied))
unfolding trim
sqlite_delete_removes_example =
    sqlite_delete_removes tables text tables-IsSql background background (codes "login")
      (codes "login ") filled emptied (λ i. refl) refl delete_ok
