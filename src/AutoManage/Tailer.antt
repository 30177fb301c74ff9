-- ===== src/AutoManage/Tailer.antt =====
-- autoManage/src/ingest/tailer.ts: reads what was appended to a trace file since the last read. The
-- file's bytes are an argument, and so is the decoding of bytes, `Buffer.toString('utf-8')`.
pub mod Appends
use oss_agent_tools.Prelude.{
  ℕ, Bool, true, false, not, List, [], ◌∷◌, ◌++◌, text_key, lookup, insert, erase, or_else,
  if◌then◌else◌, length, drop, ltb,
}
use oss_agent_tools.AutoManage.Text.{Text, split_lines, ends_with_newline, init, last, clean}

pub record TailReadResult : Type 0 where
  pub lines : List Text
  pub offset : ℕ
  pub rotated : Bool

-- Both maps are keyed by the file's path.
pub record TraceTailer : Type 0 where
  pub offsets : List (Text × ℕ)
  pub remainders : List (Text × Text)

abbrev pub empty_tailer : TraceTailer
empty_tailer = record { offsets = []; remainders = [] }

-- `segments.pop() ?? ''`, unless the text ends with a line break.
abbrev pub kept_segments : Text → List Text
kept_segments text = if ends_with_newline text then split_lines text else init (split_lines text)

abbrev pub trailing_remainder : Text → Text
trailing_remainder text = if ends_with_newline text then [] else last (split_lines text)

module _ (decode : List ℕ → Text) where
  unfoldable pub read_appended_lines : TraceTailer → Text → List ℕ → TraceTailer × TailReadResult
  read_appended_lines t file_path bytes =
      let previous_offset = or_else (lookup file_path t.offsets) 0 in
      let was_rotated = ltb (length bytes) previous_offset in
      let start_offset : ℕ = if was_rotated then 0 else previous_offset in
      let previous_remainder : Text =
        if was_rotated then [] else or_else (lookup file_path t.remainders) [] in
      let merged_text = previous_remainder ++ decode (drop start_offset bytes) in
      (
        record {
          offsets = insert file_path (length bytes) t.offsets;
          remainders = insert file_path (trailing_remainder merged_text) t.remainders;
        },
        record {
          lines = clean (kept_segments merged_text);
          offset = length bytes;
          rotated = was_rotated;
        },
      )

unfoldable pub reset : TraceTailer → Text → TraceTailer
reset t file_path = record {
  offsets = erase file_path t.offsets;
  remainders = erase file_path t.remainders;
}
