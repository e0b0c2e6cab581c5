-- ===== src/VerdictLog/Journal.antt =====
-- verdictlog/journal.go. The file is the list of its code points, which an append adds to and a read splits
-- into lines. Writing and reading the file succeed here, and no line is longer than the reader's
-- buffer; what json.Marshal and json.Unmarshal do is given by the parameters `encode` and `decode`.
pub mod Found
pub mod Kept
pub mod Recorded
pub mod Torn
use mathlib.Core.List.{reverse}
use xray_checker_modify.Base.{
  ℕ, zero, suc, ◌+◌, ◌-◌, Bool, true, false, ◌&&◌, ◌||◌, not, Option, none, some, List, [], ◌∷◌,
  ◌++◌, Text, text_eq, ℤ, pos, negsuc, if◌then◌else◌, trim_space, is_empty, length, byte_length,
  take, ltb, leb, ◌==◌, sort_by,
}
use xray_checker_modify.Diagnostics.Types.{Time}

pub record Entry : Type 0 where
  pub at : Time
  pub source : Text
  pub trigger : Text
  pub kind : Text
  pub outcome : Text
  pub stable_id : Text
  pub node : Text
  pub session_id : Text
  pub agent_id : Text
  pub agent_name : Text
  pub region : Text
  pub provider : Text
  pub verdict : Text
  pub detail : Text
  pub local_status : Text
  pub local_failure_code : Text
  pub local_mbps : ℤ
  pub threshold_mbps : ℤ
  pub local_server_id : Text
  pub local_at : Time
  pub agent_status : Text
  pub agent_failure_code : Text
  pub agent_failure_stage : Text
  pub agent_mbps : ℤ
  pub agent_server_id : Text
  pub agent_latency_ms : ℤ
  pub agent_tcp_reached : Option Bool
  pub agent_at : Time

-- truncate, with the sign of an ellipsis in the last place
unfoldable pub truncate : Text → Text
truncate value = if leb (length value) 200 then value else take 199 value ++ 8230 ∷ []

-- bounded
abbrev pub field : Text → Text
field value = truncate (trim_space value)

unfoldable pub bounded : Entry → Entry
bounded e = record e {
  source = field e.source;
  trigger = field e.trigger;
  kind = field e.kind;
  outcome = field e.outcome;
  stable_id = field e.stable_id;
  node = field e.node;
  session_id = field e.session_id;
  agent_id = field e.agent_id;
  agent_name = field e.agent_name;
  region = field e.region;
  provider = field e.provider;
  verdict = field e.verdict;
  detail = field e.detail;
  local_status = field e.local_status;
  local_failure_code = field e.local_failure_code;
  local_server_id = field e.local_server_id;
  agent_status = field e.agent_status;
  agent_failure_code = field e.agent_failure_code;
  agent_failure_stage = field e.agent_failure_stage;
  agent_server_id = field e.agent_server_id;
}

pub record Config : Type 0 where
  pub retention : ℕ
  pub max_bytes : ℕ

-- New: 90 days in nanoseconds and 16 MiB stand for what is not positive. No path is an error.
abbrev or_default : ℤ → ℕ → ℕ
or_default (pos zero) d = d
or_default (pos (suc n)) d = suc n
or_default (negsuc n) d = d

unfoldable pub configured : Text → ℤ → ℤ → Option Config
unfolding trim_space
configured path retention max_bytes =
    if is_empty (trim_space path)
    then none
    else some (record {
      retention = or_default retention 7776000000000000;
      max_bytes = or_default max_bytes 16777216;
    })

abbrev pub Line : Type 0
Line = Text

pub record Journal : Type 0 where
  pub file : Text
  pub appended : ℕ

pub data Failure : Type 0 where
  incomplete not_encoded : Failure

pub record Filter : Type 0 where
  pub stable_id : Text
  pub source : Text
  pub verdict : Text
  pub from : Time
  pub to : Time
  pub limit : ℤ

abbrev pub newer : Entry → Entry → Bool
newer a b = ltb b.at a.at

abbrev pub passes_text : Text → Text → Bool
passes_text wanted value = is_empty wanted || text_eq value wanted

unfoldable pub matches : Filter → Entry → Bool
matches f e =
    passes_text f.stable_id e.stable_id
    && passes_text f.source e.source
    && passes_text f.verdict e.verdict
    && not (not (f.from == 0) && ltb e.at f.from)
    && not (not (f.to == 0) && not (ltb e.at f.to))

unfoldable pub matching : Filter → List Entry → List Entry
unfolding matches
matching f [] = []
matching f (e ∷ es) = if matches f e then e ∷ matching f es else matching f es

abbrev pub at_most : ℕ → ℕ
at_most n = if ltb 2000 n then 2000 else n

abbrev pub query_limit : ℤ → ℕ
query_limit (pos zero) = 200
query_limit (pos (suc n)) = at_most (suc n)
query_limit (negsuc n) = 200

-- The lines of bufio.Scanner: each ends at a newline, and what follows the last newline is a line unless
-- it is empty. A carriage return at the end is left to TrimSpace, which readLocked calls.
unfoldable pub scan : Line → Text → List Line
scan line [] = if is_empty line then [] else line ∷ []
scan line (c ∷ rest) = if c == 10 then line ∷ scan [] rest else scan (line ++ c ∷ []) rest

-- The buffer of compactLocked, for the lines that it writes.
unfoldable pub file_of : List Line → Text
file_of [] = []
file_of (l ∷ ls) = l ++ 10 ∷ file_of ls

module _ (encode : Entry → Option Line) (decode : Line → Option Entry) where
  -- readLocked. A blank line decodes to nothing that is kept.
  abbrev pub kept_entry : Line → Option Entry → Option Entry
  kept_entry line none = none
  kept_entry line (some e) =
      if is_empty line || (is_empty e.stable_id || e.at == 0) then none else some e

  unfoldable pub read_line : Line → Option Entry
  unfolding trim_space
  read_line line = kept_entry (trim_space line) (decode (trim_space line))

  abbrev pub with_entry : Option Entry → List Entry → List Entry
  with_entry none es = es
  with_entry (some e) es = e ∷ es

  unfoldable pub read_lines : List Line → List Entry
  unfolding read_line
  read_lines [] = []
  read_lines (l ∷ ls) = with_entry (read_line l) (read_lines ls)

  unfoldable pub read_file : Text → List Entry
  unfolding scan read_lines
  read_file file = read_lines (scan [] file)

  -- compactLocked: the lines that are kept, the newest first.
  abbrev pub keep_line : Option Line → ℕ → ℕ → (ℕ → List Line) → List Line → List Line
  keep_line none max size further skipped = skipped
  keep_line (some line) max size further skipped =
      let grown = size + byte_length line + 1 in if ltb max grown then [] else line ∷ further grown

  unfoldable pub keep : Config → Time → List Entry → ℕ → List Line
  keep cfg now [] size = []
  keep cfg now (e ∷ es) size =
      let skipped = keep cfg now es size in
      if ltb (e.at + cfg.retention) now
      then skipped
      else keep_line (encode e) cfg.max_bytes size (λ n. keep cfg now es n) skipped

  unfoldable pub compact : Config → Time → Journal → Journal
  unfolding read_file keep sort_by file_of
  compact cfg now j = record {
    file = file_of (reverse (keep cfg now (sort_by newer (read_file j.file)) 0));
    appended = 0;
  }

  -- Record, for an entry that is bounded and has its time.
  abbrev pub append_line : Config → Time → Option Line → Journal → Journal × Option Failure
  append_line cfg now none j = (j, some not_encoded)
  append_line cfg now (some line) j =
      let longer : Journal = record {
        file = j.file ++ (line ++ 10 ∷ []);
        appended = j.appended + 1;
      } in
      (if leb 500 longer.appended then compact cfg now longer else longer, none)

  abbrev pub timed : Time → Entry → Entry
  timed now e = record e { at = if e.at == 0 then now else e.at }

  unfoldable pub record_verdict : Config → Time → Entry → Journal → Journal × Option Failure
  unfolding bounded compact
  record_verdict cfg now entry j =
      let e = bounded entry in
      if is_empty e.stable_id || is_empty e.verdict || is_empty e.source
      then (j, some incomplete)
      else append_line cfg now (encode (timed now e)) j

  -- Query
  unfoldable pub query : Filter → Journal → List Entry
  unfolding read_file matching sort_by
  query f j = take (query_limit f.limit) (sort_by newer (matching f (read_file j.file)))
