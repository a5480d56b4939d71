-- ===== src/Sqlite/Credentials.antt =====
-- `Put`, `Get`, `Delete` and `Has` of pkg/store/sqlite/sqlite.go, one after the other.
use hmacsecret.Base.{
  ◌≡◌, true, false, Bytes, trim, codes, Bool-cases, ap, ◌⊎◌, Option, none, some, ok, err, arith,
  Option-cases, inl, inr,
}
use hmacsecret.Base.Fallible.{Result-cases}
use hmacsecret.Store.{Record, Context, exists, not_found, validate_alias, validate_record}
use hmacsecret.Pebble.Engine.{Codecs}
use hmacsecret.Pebble.Credentials.{trim_record}
use hmacsecret.Authenticator.ClientJson.{AreAscii}
use hmacsecret.Sqlite.Unique.{Mentions, says_unique-Mentions, Mentions-says_unique}
use hmacsecret.Sqlite.Engine.{Sql, IsSql, Failure, IsLive, CredentialRow, background}
use hmacsecret.Sqlite.{put, get, delete, has, says_unique}

-- The row that a record is stored as.
abbrev pub row_of : Record → CredentialRow
row_of rec = record { credential_id = rec.credential_id; salt = rec.salt; rp_id = trim rec.rp_id }

valid-alias :
    (rec : Record)
    → validate_record (trim_record rec) ≡ ok tt
    → validate_alias (trim rec.alias) ≡ ok tt
unfolding validate_record
valid-alias rec h = ground arith

module _ {D : Type 0} (sql : Sql D) (json : Codecs) where
  pub record IsPut (ctx : Context) (rec : Record) (s s' : Option D) : Type 0 where
    pub db_before : D
    pub opened : s ≡ some db_before
    pub valid : validate_record (trim_record rec) ≡ ok tt
    pub done : (sql.credentials.insert ctx (trim rec.alias) (row_of rec) db_before).0 ≡ ok tt
    pub after : s' ≡ some (sql.credentials.insert ctx (trim rec.alias) (row_of rec) db_before).1

  pub put_inv :
      (ctx : Context) (rec : Record) (s s' : Option D)
      → put sql json ctx rec s ≡ (ok tt, s')
      → IsPut ctx rec s s'
  unfolding put
  put_inv ctx rec s s' e = elim (Result-cases (validate_record (trim_record rec))) [
    | inr (x, v) ↦ absurd (ground arith)
    | inl (_, v) ↦ elim (Option-cases s) [
      | inl gone ↦ absurd (ground arith)
      | inr (d, held) ↦
          elim (Result-cases (sql.credentials.insert ctx (trim rec.alias) (row_of rec) d).0) [
            | inr (f, x) ↦ absurd (ground arith)
            | inl (_, x) ↦ record {
              db_before = d;
              opened = held;
              valid = v;
              done = x;
              after = ground arith;
            }
          ]
    ]
  ]

  stored_row :
      (law : IsSql sql) (ctx : Context) (rec : Record) (raw : Bytes) (d : D)
      → IsLive ctx
      → trim raw ≡ trim rec.alias
      → validate_record (trim_record rec) ≡ ok tt
      → sql.credentials.select background (trim rec.alias) d ≡ ok (some (row_of rec))
      → (get sql json ctx raw (some d) ≡ (ok (trim_record rec), some d))
        × (has sql json ctx raw (some d) ≡ (ok true, some d))
  unfolding get has
  stored_row law ctx rec raw d live same valid found =
      let k = trim rec.alias in
      let named = valid-alias rec valid in
      rw same (
        ground (arith, law.credentials.live ctx k d live, found, named, valid),
        ground (arith, law.credentials.counted ctx k d (some (row_of rec)) live found, named),
      )

  -- What `put` makes of the driver's refusal.
  put_refused :
      (ctx : Context) (rec : Record) (k : Bytes) (d : D) (f : Failure)
      → trim rec.alias ≡ k
      → validate_record (trim_record rec) ≡ ok tt
      → sql.credentials.insert ctx k (row_of rec) d ≡ (err f, d)
      → AreAscii f.message
      → (Mentions (codes "unique") f.message
          × (put sql json ctx rec (some d) ≡ (err exists, some d)))
        ⊎ ((¬ Mentions (codes "unique") f.message)
            × (put sql json ctx rec (some d) ≡ (err f.cause, some d)))
  unfolding put
  put_refused ctx rec k d f same valid refused ascii = elim (Bool-cases (says_unique f.message)) [
    | inl says ↦
        inl (says_unique-Mentions f.message ascii says, ground (arith, refused, says, same))
    | inr not_said ↦ inr (
      λ m. ground (arith, Mentions-says_unique f.message ascii m, not_said),
      ground (arith, refused, not_said, same),
    )
  ]

  module _ (law : IsSql sql) where
    -- The record is read back.
    pub sqlite_put_reads :
        (ctx ctx' : Context) (rec : Record) (raw : Bytes) (s s' : Option D)
        → IsLive ctx'
        → trim raw ≡ trim rec.alias
        → put sql json ctx rec s ≡ (ok tt, s')
        → (get sql json ctx' raw s' ≡ (ok (trim_record rec), s'))
          × (has sql json ctx' raw s' ≡ (ok true, s'))
    sqlite_put_reads ctx ctx' rec raw s s' live same e =
        let p = put_inv ctx rec s s' e in
        let k = trim rec.alias in
        rw p.after (
          stored_row law ctx' rec raw (sql.credentials.insert ctx k (row_of rec) p.db_before).1 live
            same p.valid (law.credentials.insert_done ctx k (row_of rec) p.db_before p.done))

    -- After a `put` that returned no error, and under live contexts, `get` of the alias returns the
    -- trimmed record and `has` answers true. A second `put` of a valid record under the alias fails where
    -- the driver writes its messages in ASCII: with `exists` where the message of the refused insertion
    -- mentions "unique" in any case, and with the cause of the driver's error where it does not. None of
    -- them changes the store.
    pub sqlite_put_stores :
        (ctx ctx' : Context) (rec rec' : Record) (raw : Bytes) (s s' : Option D)
        → IsLive ctx'
        → ((d : D) (f : Failure)
            → (sql.credentials.insert ctx' (trim rec.alias) (row_of rec') d).0 ≡ err f
            → AreAscii f.message)
        → trim raw ≡ trim rec.alias
        → trim rec'.alias ≡ trim rec.alias
        → validate_record (trim_record rec') ≡ ok tt
        → put sql json ctx rec s ≡ (ok tt, s')
        → (get sql json ctx' raw s' ≡ (ok (trim_record rec), s'))
          × (has sql json ctx' raw s' ≡ (ok true, s'))
          × ((d : D) × (f : Failure) × (s' ≡ some d)
              × (sql.credentials.insert ctx' (trim rec.alias) (row_of rec') d ≡ (err f, d))
              × ((Mentions (codes "unique") f.message
                    × (put sql json ctx' rec' s' ≡ (err exists, s')))
                  ⊎ ((¬ Mentions (codes "unique") f.message)
                      × (put sql json ctx' rec' s' ≡ (err f.cause, s')))))
    sqlite_put_stores ctx ctx' rec rec' raw s s' live ascii same same' valid e =
        let p = put_inv ctx rec s s' e in
        let k = trim rec.alias in
        let d : D = (sql.credentials.insert ctx k (row_of rec) p.db_before).1 in
        let found : sql.credentials.select background k d ≡ ok (some (row_of rec)) =
          law.credentials.insert_done ctx k (row_of rec) p.db_before p.done in
        let (f, refused) =
          law.credentials.insert_refused ctx' k (row_of rec') (row_of rec) d found in
        let (got, held) = sqlite_put_reads ctx ctx' rec raw s s' live same e in
        (
          got,
          held,
          (
            d,
            f,
            p.after,
            refused,
            rw p.after (
                put_refused ctx' rec' k d f same' valid refused
                  (ascii d f (ap (λ r. r.0) refused))),
          ),
        )

    -- After a `delete` that returned no error, and under live contexts, `get` of the alias returns
    -- `not_found` and `has` answers false; neither changes the store.
    pub sqlite_delete_removes :
        (ctx ctx' : Context) (raw raw' : Bytes) (s s' : Option D)
        → IsLive ctx'
        → trim raw' ≡ trim raw
        → delete sql json ctx raw s ≡ (ok tt, s')
        → (get sql json ctx' raw' s' ≡ (err not_found, s'))
          × (has sql json ctx' raw' s' ≡ (ok false, s'))
    unfolding get has delete
    sqlite_delete_removes ctx ctx' raw raw' none s' live same e = absurd (ground arith)
    sqlite_delete_removes ctx ctx' raw raw' (some d) s' live same e =
        elim (Result-cases (sql.credentials.delete ctx (trim raw) d).0) [
          | inr (f, x) ↦ absurd (ground arith)
          | inl (n, x) ↦
              let k = trim raw in
              let d' : D = (sql.credentials.delete ctx k d).1 in
              let gone : sql.credentials.select background k d' ≡ ok none =
                law.credentials.delete_done ctx k d n x in
              let after : s' ≡ some d' = ground arith in
              rw (after, same)
                (
                  ground (arith, law.credentials.live ctx' k d' live, gone),
                  ground (arith, law.credentials.counted ctx' k d' none live gone),
                )
        ]
