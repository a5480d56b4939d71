-- ===== src/Sqlite/Engine.antt =====
-- What pkg/store/sqlite calls: `database/sql` over the SQLite driver, as a parameter, one function for
-- each statement of the source, with its documented behaviour. `encoding/json` is that of
-- Pebble/Engine.
use hmacsecret.Base.{ℕ, ◌≡◌, ◌≢◌, false, Bytes, List, Option, none, some, Result, ok, err, Exec}
use hmacsecret.Store.{Error, Context, EncryptedBlob}

-- The driver's error: its text, and what `errors.Is` sees in it.
pub record Failure : Type 0 where
  pub message : Bytes
  pub cause : Error

-- The row of `credentials` beside its alias.
pub record CredentialRow : Type 0 where
  pub credential_id : Bytes
  pub salt : Bytes
  pub rp_id : Bytes

-- The statements on a table whose primary key is `alias`:
--   INSERT INTO table (alias, ...) VALUES (?, ...)
--   SELECT ... FROM table WHERE alias = ?, `none` for `sql.ErrNoRows`
--   DELETE FROM table WHERE alias = ?, with the answer of `RowsAffected`
--   SELECT COUNT(1) FROM table WHERE alias = ?
--   SELECT alias FROM table ORDER BY alias: what each `rows.Scan` answers, and `rows.Err()`.
pub record Table (D R : Type 0) : Type 0 where
  pub insert : Context → Bytes → R → Exec D Failure (Unit {0})
  pub select : Context → Bytes → D → Result Failure (Option R)
  pub delete : Context → Bytes → Exec D Failure (Result Failure ℕ)
  pub count : Context → Bytes → D → Result Failure ℕ
  pub list : Context → D → Result Failure (List (Result Failure Bytes) × Result Failure (Unit {0}))

-- The statements on `encryption_header`, whose one row holds a revision and a body:
--   INSERT ... VALUES (1, ?, ?), SELECT revision, body ... WHERE singleton = 1,
--   UPDATE ... SET revision = ?, body = ? WHERE singleton = 1 AND revision = ?, and the count.
pub record Sql (D : Type 0) : Type 0 where
  pub credentials : Table D CredentialRow
  pub envelopes : Table D EncryptedBlob
  pub insert_header : Context → ℕ → Bytes → Exec D Failure (Unit {0})
  pub select_header : Context → D → Result Failure (Option (ℕ × Bytes))
  pub update_header : Context → ℕ → Bytes → ℕ → Exec D Failure (Result Failure ℕ)
  pub count_header : Context → D → Result Failure ℕ
  pub migrate : Context → Exec D Failure (Unit {0})
  pub close : D → Result Failure (Unit {0})

-- A context that is never canceled. How often the driver looks at a context is not assumed.
abbrev pub background : Context
background i = false

abbrev pub IsLive : Context → Type 0
IsLive ctx = (i : ℕ) → ctx i ≡ false

-- An insertion that returned no error found no row of its key and is what later reads see. Where there
-- is a row of the key an insertion fails, with whatever error, and changes nothing. Reads under a live
-- context do not depend on the context.
pub record IsTable {D R : Type 0} (t : Table D R) : Type 0 where
  pub live :
      (ctx : Context) (k : Bytes) (d : D) → IsLive ctx → t.select ctx k d ≡ t.select background k d
  pub counted :
      (ctx : Context) (k : Bytes) (d : D) (r : Option R)
      → IsLive ctx
      → t.select background k d ≡ ok r
      → t.count ctx k d ≡ ok (elim r [ none ↦ 0 | some x ↦ 1 ])
  pub insert_fresh :
      (ctx : Context) (k : Bytes) (r : R) (d : D)
      → (t.insert ctx k r d).0 ≡ ok tt
      → t.select background k d ≡ ok none
  pub insert_done :
      (ctx : Context) (k : Bytes) (r : R) (d : D)
      → (t.insert ctx k r d).0 ≡ ok tt
      → t.select background k (t.insert ctx k r d).1 ≡ ok (some r)
  pub insert_other :
      (ctx : Context) (k j : Bytes) (r : R) (d : D)
      → (t.insert ctx k r d).0 ≡ ok tt
      → k ≢ j
      → t.select background j (t.insert ctx k r d).1 ≡ t.select background j d
  pub insert_refused :
      (ctx : Context) (k : Bytes) (r old : R) (d : D)
      → t.select background k d ≡ ok (some old)
      → (f : Failure) × (t.insert ctx k r d ≡ (err f, d))
  pub delete_done :
      (ctx : Context) (k : Bytes) (d : D) (n : Result Failure ℕ)
      → (t.delete ctx k d).0 ≡ ok n
      → t.select background k (t.delete ctx k d).1 ≡ ok none
  pub delete_other :
      (ctx : Context) (k j : Bytes) (d : D) (n : Result Failure ℕ)
      → (t.delete ctx k d).0 ≡ ok n
      → k ≢ j
      → t.select background j (t.delete ctx k d).1 ≡ t.select background j d

-- The three tables do not share rows.
pub record IsSql {D : Type 0} (sql : Sql D) : Type 0 where
  pub credentials : IsTable sql.credentials
  pub envelopes : IsTable sql.envelopes
  pub live :
      (ctx : Context) (d : D)
      → IsLive ctx
      → sql.select_header ctx d ≡ sql.select_header background d
  pub insert_fresh :
      (ctx : Context) (r : ℕ) (body : Bytes) (d : D)
      → (sql.insert_header ctx r body d).0 ≡ ok tt
      → sql.select_header background d ≡ ok none
  pub insert_done :
      (ctx : Context) (r : ℕ) (body : Bytes) (d : D)
      → (sql.insert_header ctx r body d).0 ≡ ok tt
      → sql.select_header background (sql.insert_header ctx r body d).1 ≡ ok (some (r, body))
  pub update_done :
      (ctx : Context) (r old n : ℕ) (body : Bytes) (d : D)
      → (sql.update_header ctx r body old d).0 ≡ ok (ok n)
      → n ≢ 0
      → (was : Bytes) × (sql.select_header background d ≡ ok (some (old, was)))
        × (sql.select_header background (sql.update_header ctx r body old d).1
            ≡ ok (some (r, body)))
  pub insert_header_envelope :
      (ctx : Context) (r : ℕ) (body j : Bytes) (d : D)
      → sql.envelopes.select background j (sql.insert_header ctx r body d).1
        ≡ sql.envelopes.select background j d
  pub update_header_envelope :
      (ctx : Context) (r old : ℕ) (body j : Bytes) (d : D)
      → sql.envelopes.select background j (sql.update_header ctx r body old d).1
        ≡ sql.envelopes.select background j d
  pub delete_envelope_header :
      (ctx : Context) (k : Bytes) (d : D)
      → sql.select_header background (sql.envelopes.delete ctx k d).1
        ≡ sql.select_header background d
  pub insert_envelope_header :
      (ctx : Context) (k : Bytes) (e : EncryptedBlob) (d : D)
      → sql.select_header background (sql.envelopes.insert ctx k e d).1
        ≡ sql.select_header background d
