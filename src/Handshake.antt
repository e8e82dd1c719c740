-- ===== src/Handshake.antt =====
-- proto.h, cmd_shex.c and cmd_stub.c: the messages behind the hello message, which give the stub the
-- command line, the environment and the directory of the child.
pub mod Host
pub mod Child
pub mod Frame
pub mod Item
pub mod Items
pub mod Turn
pub mod Effect
pub mod Environ
pub mod Loop
pub mod Setup
pub mod Send
pub mod RoundTrip
mod Tests
use fb_adb.Prelude.{ℕ, ◌++◌, Bytes}
use fb_adb.Proto.{Msg, msg_bytes}

abbrev pub msg_cmdline_argument : ℕ
msg_cmdline_argument = 48

abbrev pub msg_cmdline_argument_jumbo : ℕ
msg_cmdline_argument_jumbo = 49

abbrev pub msg_clearenv : ℕ
msg_clearenv = 50

abbrev pub msg_environment_variable_set : ℕ
msg_environment_variable_set = 51

abbrev pub msg_environment_variable_unset : ℕ
msg_environment_variable_unset = 52

abbrev pub msg_environment_variable_set_jumbo : ℕ
msg_environment_variable_set_jumbo = 53

abbrev pub msg_environment_variable_unset_jumbo : ℕ
msg_environment_variable_unset_jumbo = 54

abbrev pub msg_cmdline_default_sh : ℕ
msg_cmdline_default_sh = 55

abbrev pub msg_cmdline_default_sh_login : ℕ
msg_cmdline_default_sh_login = 56

abbrev pub msg_cmdline_exec_file : ℕ
msg_cmdline_exec_file = 57

abbrev pub msg_cmdline_self_argv0 : ℕ
msg_cmdline_self_argv0 = 58

abbrev pub msg_chdir : ℕ
msg_chdir = 61

abbrev pub msg_open_exec_file : ℕ
msg_open_exec_file = 66

abbrev pub msg_exec_file_ok : ℕ
msg_exec_file_ok = 67

abbrev pub msg_exec_file_mismatch : ℕ
msg_exec_file_mismatch = 68

-- `MSG_MAX_SIZE` and `UINT32_MAX`.
abbrev pub msg_max_size : ℕ
msg_max_size = 65535

abbrev pub uint32_max : ℕ
uint32_max = 4294967295

-- A message's header with its size and type.
abbrev pub header_of : ℕ → ℕ → Bytes
header_of size type = msg_bytes (record { size = size; type = type })
