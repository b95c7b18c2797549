-- ===== src/Owner/Auth.antt =====
-- Caller authentication, and the opening and closing of an owner
-- (src/zworkbench/composition.py).
pub mod Follow
use zworkbench.Owner.Core.{core_code}
use zworkbench.Common.{
  String, Bool, true, false, not, ◌||◌, ◌+◌, ◌*◌, Option, none, some, [], ◌∷◌, ◌++◌, ◌==◌,
  if◌then◌else◌,
}
use zworkbench.Common.Tables.{find, update, exists}
use zworkbench.Exec.{
  Exec, sqlite_integrity, caller_auth_error, ok, pure, query, write, ask, raise_if, ◌>>=◌, ◌>>◌,
  now, new_id,
}
use zworkbench.Owner.State.{Owner, Db, Caller, SessionRow, CallerSession}
use zworkbench.Owner.Core.{
  require_connection, require_authenticated_caller, transaction, exempt_transaction, require_text,
}

abbrev pub has_caller_id : String → Caller → Bool
has_caller_id id c = c.caller_id == id

unfoldable pub put_session : SessionRow → Db → Db
put_session r d = record d { sessions = d.sessions ++ r ∷ [] }

unfoldable pub set_session : CallerSession → Exec (Unit {0})
set_session c s = (ok tt, record s { caller_session = some c })

unfoldable pub set_required : Exec (Unit {0})
set_required s = (ok tt, record s { caller_auth_required = true })

-- `_establish_session`: the session is set in memory before its row is written.
unfoldable pub establish_session : String → String → Exec String
establish_session caller_id token_hash = do
  session_id ← new_id
  created_at ← now
  issued ← now
  set_session (record { caller_id = caller_id; session_id = session_id })
  exempt_transaction (do
    conflict ← query (λ d.
        exists (λ r. r.session_id == session_id) d.sessions
        || not (exists (has_caller_id caller_id) d.callers))
    raise_if conflict sqlite_integrity
    write (
        put_session (record {
          session_id = session_id;
          caller_id = caller_id;
          token_hash = token_hash;
          created_at = created_at;
          expires_at = issued + 3600 * 1000;
        })))
  pure session_id

-- Sets the flag of `owner_meta`, and inserts or replaces the caller.
unfoldable pub put_caller : Caller → Db → Db
put_caller c d = record d {
  auth_flag = true;
  callers =
      if exists (has_caller_id c.caller_id) d.callers
      then update (has_caller_id c.caller_id) (λ _. c) d.callers
      else d.callers ++ c ∷ [];
}

unfoldable pub enable_caller_auth : String → String → Exec (Unit {0})
enable_caller_auth caller_id caller_token = do
  require_text caller_id
  require_text caller_token
  token_hash ← ask (λ env. env.sha256 caller_token)
  exempt_transaction (do
    created_at ← now
    write (
        put_caller (record {
          caller_id = caller_id;
          caller_token_hash = token_hash;
          created_at = created_at;
        })))
  set_required
  establish_session caller_id token_hash
  pure tt

unfoldable pub add_caller : Caller → Db → Db
add_caller c d = record d { callers = d.callers ++ c ∷ [] }

unfoldable pub register_caller : String → String → Exec (Unit {0})
register_caller caller_id caller_token = do
  require_authenticated_caller
  require_text caller_id
  require_text caller_token
  token_hash ← ask (λ env. env.sha256 caller_token)
  transaction (do
    created_at ← now
    taken ← query (λ d. exists (has_caller_id caller_id) d.callers)
    raise_if taken sqlite_integrity
    write (
        add_caller (record {
          caller_id = caller_id;
          caller_token_hash = token_hash;
          created_at = created_at;
        })))

-- A caller with this identity and token.
unfoldable pub is_registered : String → Option Caller → Bool
is_registered token_hash none = false
is_registered token_hash (some c) = c.caller_token_hash == token_hash

unfoldable pub authenticate_caller : String → String → Exec String
authenticate_caller caller_id caller_token = do
  require_text caller_id
  require_text caller_token
  token_hash ← ask (λ env. env.sha256 caller_token)
  require_connection
  found ← query (λ d. find (has_caller_id caller_id) d.callers)
  raise_if (not (is_registered token_hash found)) caller_auth_error
  establish_session caller_id token_hash

-- `close`
unfoldable pub close : Owner → Owner
close s = record s { closed = true }

-- `__init__` on the database that another owner has left.
unfoldable pub reopen : Owner → Owner
reopen s = record s { caller_auth_required = s.db.auth_flag; caller_session = none; closed = false }

-- Opens the code of this module, for a run of it.
unfoldable pub auth_code : Unit {0}
unfolding core_code put_session set_session set_required establish_session put_caller
    enable_caller_auth add_caller register_caller is_registered authenticate_caller close reopen
auth_code = tt
