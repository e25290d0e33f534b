-- ===== src/Server/Recorder.antt =====
-- `statusRecorder` and the log level of `loggingMiddleware`, in internal/server/server.go. `Flush` and `Unwrap`, which
-- change nothing of the recorder, are not among the calls.
pub mod Refine
use yet_another_memory_bank.Common.{
  ℕ, ◌+◌, ◌-◌, String, Bool, true, false, ◌&&◌, ◌||◌, not, Option, none, some, List, [], ◌∷◌, ◌++◌,
  if◌then◌else◌, ltb, leb, str_eq, length, take,
}

-- The recorder, with the statuses that reach the underlying writer.
pub record StatusRecorder : Type 0 where
  pub status : ℕ
  pub bytes : ℕ
  pub wrote_header : Bool
  pub preview : List ℕ
  pub sent : List ℕ

-- &statusRecorder{ResponseWriter: w, status: http.StatusOK}
abbrev pub new_recorder : StatusRecorder
new_recorder = record { status = 200; bytes = 0; wrote_header = false; preview = []; sent = [] }

unfoldable pub write_header : StatusRecorder → ℕ → StatusRecorder
write_header r status =
    if r.wrote_header
    then r
    else record r { status = status; wrote_header = true; sent = r.sent ++ status ∷ [] }

-- data[:remaining] in the preview, where there is room
unfoldable pub keep_preview : StatusRecorder → List ℕ → StatusRecorder
keep_preview r bytes =
    if ltb (length r.preview) 512
    then (let room = 512 - length r.preview in
        record r {
          preview =
              r.preview ++ take (if ltb (length bytes) room then length bytes else room) bytes;
        })
    else r

-- `Write`, for the number of bytes that the underlying writer returns
unfoldable pub write : StatusRecorder → List ℕ → ℕ → StatusRecorder
unfolding write_header keep_preview
write r bytes n =
    let started = if r.wrote_header then r else write_header r 200 in
    let kept = keep_preview started bytes in record kept { bytes = kept.bytes + n }

-- a call of the handler
pub data WriterCall : Type 0 where
  header : (status : ℕ) → WriterCall
  body : (bytes : List ℕ) (n : ℕ) → WriterCall

unfoldable pub record_calls : StatusRecorder → List WriterCall → StatusRecorder
record_calls r [] = r
record_calls r (header status ∷ calls) = record_calls (write_header r status) calls
record_calls r (body bytes n ∷ calls) = record_calls (write r bytes n) calls

pub data Level : Type 0 where
  info warn error : Level

unfoldable pub is_quiet_health_check : String → ℕ → Bool
is_quiet_health_check path status =
    ltb status 400 && (str_eq path "/healthz" || str_eq path "/readyz")

-- the line that is logged, if there is one
unfoldable pub log_level : String → ℕ → Option Level
unfolding is_quiet_health_check
log_level path status =
    if is_quiet_health_check path status
    then none
    else if leb 500 status
    then some error
    else if leb 400 status
    then some warn
    else some info
