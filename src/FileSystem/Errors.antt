-- ===== src/FileSystem/Errors.antt =====
-- Shared/Error.h and Kernel/Core/ErrorCode.h: the error codes, and `ErrorOr<T>` as a `Result`.
use ultra_os.Common.{Result}

pub data ErrorCode : Type 0 where
  no_error access_denied invalid_argument bad_path disk_not_found unsupported : ErrorCode
  no_such_file is_directory is_file file_is_busy file_already_exists name_too_long : ErrorCode
  bad_filename interrupted stream_closed would_block_forever memory_access_violation : ErrorCode

abbrev pub ErrorOr {ℓ} : Type ℓ → Type ℓ
ErrorOr = Result ErrorCode
