-- ===== src/Request.antt =====
-- rd/tcp_connection.c, and `process_buffer` of rd/flask_engine.c: the connection of the web server, and
-- the reading of its request. `none` is undefined behaviour.
pub mod Fresh
pub mod Short
use p.Prelude.{
  ℕ, ◌+◌, Bool, List, [], ◌∷◌, ◌++◌, Option, none, some, if◌then◌else◌, CString, str_eq, ◌>>=◌,
  ◌>>◌,
}
use p.Text.{codes, zeros, strcpy, strncpy_to, Scanner, scanning, strtok, atoi}
use p.Tables.{max_buf}

-- `struct tcp_connection`
pub record TcpConnection : Type 0 where
  pub request : List ℕ
  pub request_index : ℕ
  pub response : List ℕ
  pub response_index : ℕ
  pub method : List ℕ
  pub name_length : List ℕ
  pub name : List ℕ
  pub path_length : List ℕ
  pub path : List ℕ
  pub status : ℕ

-- `request_index` is set twice and `response_index` is not.
unfoldable pub init_connection : TcpConnection → TcpConnection
init_connection connection = record connection {
  request = zeros max_buf;
  request_index = 0;
  response = zeros max_buf;
  method = zeros max_buf;
  name_length = zeros max_buf;
  name = zeros max_buf;
  path_length = zeros max_buf;
  path = zeros max_buf;
  status = 0;
}

-- The copies of `process_buffer`, from the tokens; a missing token is a null pointer.
unfoldable pub copy_path : Option CString → Option CString → TcpConnection → Option TcpConnection
copy_path token3 token4 connection = do
  path_text ← token3
  path_length ← strcpy connection.path_length path_text
  source ← token4
  n ← atoi path_text
  path ← strncpy_to connection.path source n
  some (record connection { path_length = path_length; path = path })

unfoldable pub copy_tokens :
    CString
    → Option CString
    → Option CString
    → Option CString
    → Option CString
    → TcpConnection
    → Option TcpConnection
copy_tokens token0 token1 token2 token3 token4 connection = do
  method ← strcpy connection.method token0
  length_text ← token1
  name_length ← strcpy connection.name_length length_text
  source ← token2
  n ← atoi length_text
  name ← strncpy_to connection.name source n
  let named = record connection { method = method; name_length = name_length; name = name }
  if str_eq token0 (codes "ADDFILE") then copy_path token3 token4 named else some named

-- The array as `strtok` has left it.
abbrev pub scanned : Scanner → List ℕ
scanned s = s.passed ++ s.rest

unfoldable pub process_buffer : TcpConnection → Option TcpConnection
process_buffer connection = do
  (token0, s0) ← strtok (scanning connection.request)
  elim token0 [
    | none ↦ some (record connection { request = scanned s0; status = 500 })
    | some verb ↦ do
      (token1, s1) ← strtok s0
      (token2, s2) ← strtok s1
      (token3, s3) ← strtok s2
      (token4, s4) ← strtok s3
      copy_tokens verb token1 token2 token3 token4 (record connection { request = scanned s4 })
  ]
