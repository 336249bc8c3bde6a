-- ===== src/Tables.antt =====
-- rd/direct_links.h, rd/local_objects.h and rd/constants.h: the tables of the neighbours and of the
-- local objects. An array with its count is the list of the entries that are counted.
use p.Prelude.{ℕ, List, CString}

abbrev pub max_nodes : ℕ
max_nodes = 150

abbrev pub max_obj_len : ℕ
max_obj_len = 64

abbrev pub max_path_len : ℕ
max_path_len = 2048

abbrev pub max_obj_num : ℕ
max_obj_num = 10000

abbrev pub max_buf : ℕ
max_buf = 1024

pub record LinkEntry : Type 0 where
  pub id : ℕ
  pub host : CString
  pub local_p : ℕ
  pub route_p : ℕ
  pub server_p : ℕ

-- `num_links` is the length.
abbrev pub DirectLinks : Type 0
DirectLinks = List LinkEntry

pub record ObjectEntry : Type 0 where
  pub name : CString
  pub path : CString

-- `num_objects` is the length.
abbrev pub LocalObjects : Type 0
LocalObjects = List ObjectEntry
