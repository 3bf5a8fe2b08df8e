-- ===== src/Session/System.antt =====
-- The whole program, from probed operations to the search of the command.
use everyfile.Db.Sqlite.{Sqlite}
