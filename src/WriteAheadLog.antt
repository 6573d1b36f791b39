-- ===== src/WriteAheadLog.antt =====
-- src/WriteAheadLog.h and src/WriteAheadLog.cpp: the log that every row goes to first.
-- The stream is opened for output, which empties the file. What the stream has taken and not yet
-- written is `pending`; it reaches the file at a flush and when the stream is closed. Spills of a
-- full buffer before that change the file only for someone who reads it meanwhile, and nobody does.
use open_x_database.Shared.{ℕ, [], ◌++◌}
use open_x_database.Bytes.{Bytes}
use open_x_database.SsTableRow.{SsTableRow, serialize}

pub record WriteAheadLog : Type 0 where
  pub file : Bytes
  pub pending : Bytes
  pub buffer_size : ℕ

unfoldable pub open_log : ℕ → WriteAheadLog
open_log buffer_size = record { file = []; pending = []; buffer_size = buffer_size }

unfoldable pub log : WriteAheadLog → SsTableRow → WriteAheadLog
log w row = record w { pending = w.pending ++ serialize row }

unfoldable pub flush_and_clear : WriteAheadLog → WriteAheadLog
flush_and_clear w = record { file = w.file ++ w.pending; pending = []; buffer_size = 0 }

-- What the file holds once the stream is closed.
abbrev pub contents : WriteAheadLog → Bytes
contents w = w.file ++ w.pending
