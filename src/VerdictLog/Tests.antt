-- ===== src/VerdictLog/Tests.antt =====
-- The journal at concrete entries, with lines that a table encodes.
use xray_checker_modify.Base.{
  ◌≤◌, true, Option, none, some, List, [], ◌∷◌, ◌++◌, ◌≡◌, refl, Text, codes, text_eq, pos,
  if◌then◌else◌, inr, trim_space, arith, sort_by, insert_sorted, byte_length,
}
use xray_checker_modify.Diagnostics.Types.{Time}
use xray_checker_modify.VerdictLog.Journal.{
  Entry, Config, Line, Journal, Filter, truncate, bounded, timed, matches, matching, scan, file_of,
  read_line, read_lines, read_file, keep, compact, record_verdict, query,
}
use xray_checker_modify.VerdictLog.Journal.Kept.{IsKept, compact-bounded}
use xray_checker_modify.VerdictLog.Journal.Found.{IsAnswer, query-IsAnswer}
use xray_checker_modify.VerdictLog.Journal.Recorded.{RoundTrips, record_verdict-read}
use xray_checker_modify.VerdictLog.Journal.Torn.{record_verdict-torn}

abbrev entry : Text → Time → Entry
entry node at = record {
  at = at;
  source = codes "speed";
  trigger = codes "auto_speed_fallback";
  kind = [];
  outcome = codes "low_speed";
  stable_id = node;
  node = codes "Frankfurt";
  session_id = codes "diag-1";
  agent_id = codes "eu-1";
  agent_name = [];
  region = [];
  provider = [];
  verdict = codes "reproduced";
  detail = [];
  local_status = [];
  local_failure_code = [];
  local_mbps = pos 4500000;
  threshold_mbps = pos 20000000;
  local_server_id = codes "ovh-proof";
  local_at = 5;
  agent_status = codes "online";
  agent_failure_code = [];
  agent_failure_stage = [];
  agent_mbps = pos 9;
  agent_server_id = codes "ovh-proof";
  agent_latency_ms = pos 40;
  agent_tcp_reached = some true;
  agent_at = 9;
}

abbrev old : Entry
old = entry (codes "node-1") 10

abbrev fresh : Entry
fresh = entry (codes "node-2") 90

abbrev encode : Entry → Option Line
encode e = some (if text_eq e.stable_id (codes "node-1") then codes "{1}" else codes "{2}")

abbrev decode : Line → Option Entry
decode line =
    if text_eq line (codes "{1}")
    then some old
    else if text_eq line (codes "{2}")
    then some fresh
    else none

abbrev cfg : Config
cfg = record { retention = 50; max_bytes = 100 }

abbrev line_end : Text
line_end = 10 ∷ []

abbrev whole : Journal
whole = record { file = codes "{1}" ++ line_end; appended = 2 }

abbrev torn_line : Text
torn_line = codes "{\"at\""

abbrev torn : Journal
torn = record { file = whole.file ++ torn_line; appended = 2 }

abbrev all_entries : Filter
all_entries = record { stable_id = []; source = []; verdict = []; from = 0; to = 0; limit = pos 0 }

abbrev after : Journal
after = (record_verdict encode decode cfg 90 fresh whole).0

nodes : List Entry → List Text
nodes [] = []
nodes (e ∷ es) = e.stable_id ∷ nodes es

newest_first : nodes (query encode decode all_entries after) ≡ codes "node-2" ∷ codes "node-1" ∷ []
unfolding nodes query matching matches read_file scan read_lines read_line record_verdict bounded
    truncate trim_space sort_by insert_sorted
newest_first = refl

forgets : (compact encode decode cfg 90 after).file ≡ codes "{2}" ++ line_end
unfolding compact keep file_of read_file scan read_lines read_line record_verdict bounded truncate
    trim_space sort_by insert_sorted byte_length
forgets = refl

compact-bounded_example :
    (byte_length (compact encode decode cfg 90 after).file ≤ 100)
    × IsKept encode cfg 90 (compact encode decode cfg 90 after).file
compact-bounded_example = compact-bounded encode decode cfg 90 after

query-IsAnswer_example :
    IsAnswer all_entries
      (read_file encode decode after.file)
      (query encode decode all_entries after)
query-IsAnswer_example = query-IsAnswer encode decode all_entries after

reads_back : RoundTrips encode decode (timed encode decode 90 (bounded fresh))
unfolding bounded truncate trim_space
reads_back = record {
  line = codes "{2}";
  one_line = (refl, (refl, (refl, tt)));
  encoded = refl;
  tight = refl;
  full = refl;
  decoded = refl;
}

record_verdict-read_example :
    read_file encode decode after.file
    ≡ read_file encode decode whole.file ++ timed encode decode 90 (bounded fresh) ∷ []
unfolding bounded truncate trim_space
record_verdict-read_example =
    record_verdict-read encode decode cfg 90 fresh whole refl reads_back (omega arith) refl
      (inr (codes "{1}", refl))

record_verdict-torn_example :
    (read_file encode decode (record_verdict encode decode cfg 90 fresh torn).0.file
      ≡ read_file encode decode whole.file)
    × ((record_verdict encode decode cfg 90 fresh torn).1 ≡ none)
unfolding bounded truncate trim_space
record_verdict-torn_example =
    record_verdict-torn encode decode cfg 90 fresh torn whole.file torn_line refl reads_back
      (omega arith) refl (inr (codes "{1}", refl)) (refl, (refl, (refl, (refl, (refl, tt))))) refl
