-- ===== src/Sqlite/Envelopes.antt =====
-- The methods of pkg/store/sqlite/sqlite.go that the encrypted store calls, against its contract.
use hmacsecret.Base.{arith}
use hmacsecret.Store.Backend.{IsBackend}
use hmacsecret.Pebble.Engine.{Codecs}
use hmacsecret.Sqlite.Engine.{Sql, IsSql}
use hmacsecret.Sqlite.{load_header, sqlite_backend}
use hmacsecret.Sqlite.Writes.{
  sqlite_view, read_envelope, load_live, get_live, held_revision, create_inv, swap_inv, insert_inv,
  delete_inv,
}

module _ {D : Type 0} (sql : Sql D) (json : Codecs) (law : IsSql sql) where
  -- The SQLite store keeps the contract of an envelope backend: for headers that JSON carries, a write
  -- that returns no error is what reads answer from then on, other names are untouched, and a header is
  -- created once and swapped only at its revision.
  pub sqlite_backend-IsBackend : IsBackend (sqlite_backend sql json) (sqlite_view sql json)
  unfolding load_header read_envelope
  sqlite_backend-IsBackend = record {
    load = load_live sql json law;
    get = get_live sql json law;
    create_once = λ ctx h s e.
        let w = create_inv sql json law ctx h s e in
        rw w.opened (ground (arith, law.insert_fresh ctx h.revision w.body w.db_before w.done));
    create_header = λ ctx h s keeps e.
        let w = create_inv sql json law ctx h s e in
        rw w.after (
          ground (
            arith,
            law.insert_done ctx h.revision w.body w.db_before w.done,
            keeps.returns w.body w.marshalled,
          ));
    create_envelope = λ ctx h s j e.
        let w = create_inv sql json law ctx h s e in
        rw (w.after, w.opened)
          (ground (arith, law.insert_header_envelope ctx h.revision w.body j w.db_before));
    swap_matches = λ ctx r h k s e held.
        let w = swap_inv sql json law ctx r h s e in
        let (was, row, _) =
          law.update_done ctx h.revision r w.rows w.body w.db_before w.done w.updated in
        held_revision sql json law k s r was w.db_before w.opened row held;
    swap_header = λ ctx r h s keeps e.
        let w = swap_inv sql json law ctx r h s e in
        let (was, _, row) =
          law.update_done ctx h.revision r w.rows w.body w.db_before w.done w.updated in
        rw w.after (ground (arith, row, keeps.returns w.body w.marshalled));
    swap_envelope = λ ctx r h s j e.
        let w = swap_inv sql json law ctx r h s e in
        rw (w.after, w.opened)
          (ground (arith, law.update_header_envelope ctx h.revision r w.body j w.db_before));
    put_once = λ ctx a blob s i e.
        let w = insert_inv sql json law ctx a blob s i e in
        rw w.opened (ground (arith, law.envelopes.insert_fresh ctx a blob w.db_before w.done));
    put_envelope = λ ctx a blob s i keeps e.
        let w = insert_inv sql json law ctx a blob s i e in
        rw w.after (ground (arith, law.envelopes.insert_done ctx a blob w.db_before w.done));
    put_other = λ ctx a j blob s i ne e.
        let w = insert_inv sql json law ctx a blob s i e in
        rw (w.after, w.opened)
          (ground (arith, law.envelopes.insert_other ctx a j blob w.db_before w.done ne));
    put_header = λ ctx a blob s i e.
        let w = insert_inv sql json law ctx a blob s i e in
        rw (w.after, w.opened) (ground (arith, law.insert_envelope_header ctx a blob w.db_before));
    delete_envelope = λ ctx a s i e.
        let w = delete_inv sql json law ctx a s i e in
        rw w.after (ground (arith, law.envelopes.delete_done ctx a w.db_before w.rows w.done));
    delete_other = λ ctx a j s i ne e.
        let w = delete_inv sql json law ctx a s i e in
        rw (w.after, w.opened)
          (ground (arith, law.envelopes.delete_other ctx a j w.db_before w.rows w.done ne));
    delete_header = λ ctx a s i e.
        let w = delete_inv sql json law ctx a s i e in
        rw (w.after, w.opened) (ground (arith, law.delete_envelope_header ctx a w.db_before));
  }
