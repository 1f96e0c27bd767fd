-- ===== src/Index.antt =====
-- index.rs: the index groups that the client, files, symbols and the task information use.
use ads_rs.Prelude.{ℕ}

abbrev pub get_symhandle_byname : ℕ
get_symhandle_byname = 0xF003

abbrev pub rw_symval_byhandle : ℕ
rw_symval_byhandle = 0xF005

abbrev pub release_symhandle : ℕ
release_symhandle = 0xF006

abbrev pub sumup_write : ℕ
sumup_write = 0xF081

abbrev pub sumup_readwrite : ℕ
sumup_readwrite = 0xF082

abbrev pub sumup_read_ex : ℕ
sumup_read_ex = 0xF083

abbrev pub sumup_adddevnote : ℕ
sumup_adddevnote = 0xF085

abbrev pub sumup_deldevnote : ℕ
sumup_deldevnote = 0xF086

abbrev pub file_open : ℕ
file_open = 120

abbrev pub file_close : ℕ
file_close = 121

abbrev pub file_read : ℕ
file_read = 122

abbrev pub file_write : ℕ
file_write = 123

abbrev pub file_delete : ℕ
file_delete = 131

abbrev pub file_browse : ℕ
file_browse = 133

abbrev pub get_syminfo_byname : ℕ
get_syminfo_byname = 0xF007

abbrev pub sym_upload : ℕ
sym_upload = 0xF00B

abbrev pub sym_dt_upload : ℕ
sym_dt_upload = 0xF00E

abbrev pub sym_upload_info2 : ℕ
sym_upload_info2 = 0xF00F

abbrev pub get_typeinfo_byname_ex : ℕ
get_typeinfo_byname_ex = 0xF011
