-- ===== src/Config.antt =====
-- utils/config.py: the limits of transfers.
use mesh_direct.Prelude.{ℕ, ◌*◌}

abbrev pub chunk_size : ℕ
chunk_size = 64 * 1024

abbrev pub header_max_size : ℕ
header_max_size = 4096

abbrev pub max_files_per_session : ℕ
max_files_per_session = 1024

abbrev pub max_file_size : ℕ
max_file_size = 100 * 1024 * 1024 * 1024

abbrev pub max_session_size : ℕ
max_session_size = 1024 * 1024 * 1024 * 1024

abbrev pub max_retries : ℕ
max_retries = 3

-- of core/session.py
abbrev pub protocol_version : ℕ
protocol_version = 3

-- of core/protocol.py
abbrev pub max_transfer_message_length : ℕ
max_transfer_message_length = 4096
