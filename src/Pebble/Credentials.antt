-- ===== src/Pebble/Credentials.antt =====
-- `Put`, `Get`, `Delete` and `Has` of pkg/store/pebble/pebble.go, one after the other.
use hmacsecret.Base.{
  ◌≡◌, ◌≢◌, true, false, Bytes, bytes_eq_iff, trim, Option, none, some, ok, err, arith, refl,
  Option-cases, inl, inr,
}
use hmacsecret.Base.Fallible.{Result-cases}
use hmacsecret.Store.{Record, Context, exists, not_found, validate_alias, validate_record}
use hmacsecret.Pebble.Engine.{Db, IsDb, Codecs, StoredRecord, RoundTrips}
use hmacsecret.Pebble.{put, get, delete, has}

abbrev pub trim_record : Record → Record
trim_record rec = record rec { alias = trim rec.alias; rp_id = trim rec.rp_id }

-- The part of a record that is the value under its alias.
abbrev pub stored_record : Record → StoredRecord
stored_record rec = record {
  credential_id = rec.credential_id;
  salt = rec.salt;
  rp_id = trim rec.rp_id;
}

valid-alias :
    (rec : Record)
    → validate_record (trim_record rec) ≡ ok tt
    → validate_alias (trim rec.alias) ≡ ok tt
unfolding validate_record
valid-alias rec h = ground arith

module _ {D : Type 0} (db : Db D) (json : Codecs) where
  -- What `put` has done when it returns no error.
  pub record IsPut (rec : Record) (s s' : Option D) : Type 0 where
    pub db_before : D
    pub body : Bytes
    pub opened : s ≡ some db_before
    pub valid : validate_record (trim_record rec) ≡ ok tt
    pub encoded : json.record_codec.marshal (stored_record rec) ≡ some body
    pub missing : db.get (trim rec.alias) db_before ≡ ok none
    pub done : (db.set (trim rec.alias) body db_before).0 ≡ ok tt
    pub after : s' ≡ some (db.set (trim rec.alias) body db_before).1

  pub put_inv :
      (ctx : Context) (rec : Record) (s s' : Option D)
      → put db json ctx rec s ≡ (ok tt, s')
      → IsPut rec s s'
  unfolding put
  put_inv ctx rec none s' e = absurd (ground arith)
  put_inv ctx rec (some d) s' e =
      elim (Option-cases (json.record_codec.marshal (stored_record rec))) [
        | inl m ↦ absurd (ground arith)
        | inr (body, m) ↦ elim (Result-cases (db.get (trim rec.alias) d)) [
          | inl (some v, g) ↦ absurd (ground arith)
          | inr (x, g) ↦ absurd (ground arith)
          | inl (none, g) ↦ record {
            db_before = d;
            body = body;
            opened = refl;
            valid = ground arith;
            encoded = m;
            missing = g;
            done = ground arith;
            after = ground arith;
          }
        ]
      ]

  module _ (law : IsDb db) where
    -- After a `put` that returned no error, `get` of the alias returns the trimmed record, `has` answers
    -- true, and a second `put` under the alias returns `exists`; none of them changes the store. The
    -- record's value is one that JSON carries, and the contexts of the later calls are live.
    pub put_stores :
        (ctx ctx' : Context) (rec rec' : Record) (raw : Bytes) (s s' : Option D)
        → RoundTrips json.record_codec (stored_record rec)
        → ctx' 0 ≡ false
        → trim raw ≡ trim rec.alias
        → trim rec'.alias ≡ trim rec.alias
        → validate_record (trim_record rec') ≡ ok tt
        → put db json ctx rec s ≡ (ok tt, s')
        → (get db json ctx' raw s' ≡ (ok (trim_record rec), s'))
          × (has db json ctx' raw s' ≡ (ok true, s'))
          × (put db json ctx' rec' s' ≡ (err exists, s'))
    unfolding get has put
    put_stores ctx ctx' rec rec' raw s s' keeps c0 same same' valid e =
        let p = put_inv ctx rec s s' e in
        let k = trim rec.alias in
        let found : db.get k (db.set k p.body p.db_before).1 ≡ ok (some p.body) =
          ground (arith, law.get-set k k p.body p.db_before p.done, bytes_eq_iff k k) in
        let named = valid-alias rec p.valid in
        rw (p.after, same)
          (
            ground (arith, keeps.returns p.body p.encoded, found, named, p.valid),
            ground (arith, found, named),
            ground (arith, found, named),
          )

    -- A `put` that returned no error changes no other alias: `get` and `has` answer as before. The
    -- database reads back its writes and leaves other keys alone.
    pub put_keeps_others :
        (ctx ctx' : Context) (rec : Record) (raw : Bytes) (s s' : Option D)
        → trim rec.alias ≢ trim raw
        → put db json ctx rec s ≡ (ok tt, s')
        → ((get db json ctx' raw s').0 ≡ (get db json ctx' raw s).0)
          × ((has db json ctx' raw s').0 ≡ (has db json ctx' raw s).0)
    unfolding get has
    put_keeps_others ctx ctx' rec raw s s' ne e =
        let p = put_inv ctx rec s s' e in
        let k = trim rec.alias in
        let other : db.get (trim raw) (db.set k p.body p.db_before).1
            ≡ db.get (trim raw) p.db_before =
          ground (
            arith,
            law.get-set k (trim raw) p.body p.db_before p.done,
            bytes_eq_iff k (trim raw),
          ) in
        rw (p.after, p.opened) (ground (arith, other), ground (arith, other))

    -- After a `delete` that returned no error, and under live contexts, `get` of the alias returns
    -- `not_found`, `has` answers false, and a second `delete` returns `not_found`; none of them changes
    -- the store. The database reads back its writes.
    pub delete_removes :
        (ctx ctx' : Context) (raw raw' : Bytes) (s s' : Option D)
        → ctx' 0 ≡ false
        → trim raw' ≡ trim raw
        → delete db json ctx raw s ≡ (ok tt, s')
        → (get db json ctx' raw' s' ≡ (err not_found, s'))
          × (has db json ctx' raw' s' ≡ (ok false, s'))
          × (delete db json ctx' raw' s' ≡ (err not_found, s'))
    unfolding get has delete
    delete_removes ctx ctx' raw raw' none s' c0 same e = absurd (ground arith)
    delete_removes ctx ctx' raw raw' (some d) s' c0 same e =
        elim (Result-cases (db.get (trim raw) d)) [
          | inl (none, g) ↦ absurd (ground arith)
          | inr (x, g) ↦ absurd (ground arith)
          | inl (some v, g) ↦
              let k = trim raw in
              let done : (db.delete k d).0 ≡ ok tt = ground arith in
              let after : s' ≡ some (db.delete k d).1 = ground arith in
              let gone : db.get k (db.delete k d).1 ≡ ok none =
                ground (arith, law.get-delete k k d done, bytes_eq_iff k k) in
              rw (after, same) (ground (arith, gone), ground (arith, gone), ground (arith, gone))
        ]
