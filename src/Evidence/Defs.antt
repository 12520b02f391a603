-- ===== src/Evidence/Defs.antt =====
-- `EvidenceWriter` of app/core/evidence.py. The hash, the length in bytes and the redaction of
-- secrets are parameters, and the new id and the time are arguments. The snapshot file is left out:
-- it is written beside the record and not read here. A `KeyError` of the index is an error.
use ai_team_os.Prelude.{
  ℕ, ◌+◌, String, Text, Bool, Option, none, some, List, [], ◌∷◌, ◌++◌, if◌then◌else◌, str_eq, ltb,
  leb, length, take, Dict, lookup, insert, Result, ok, err,
}

pub record Surroundings : Type 0 where
  pub content_hash_of : Text → String
  pub byte_length : Text → ℕ
  pub redact : Text → Text

pub record Source : Type 0 where
  pub tool_name : String
  pub source_type : String
  pub source_uri : String
  pub title : Text
  pub content_type : String
  pub subtask_id : Option String

pub record EvidenceRecord : Type 0 where
  pub evidence_id : String
  pub source : Source
  pub retrieved_at : ℕ
  pub content_hash : String
  pub content_length : ℕ
  pub summary : Text
  pub truncated : Bool
  -- metadata["duplicates"]: where and when the same content came again
  pub duplicates : List (String × ℕ)

pub data EvidenceError : Type 0 where
  quota_exceeded : ℕ → EvidenceError
  missing_record : EvidenceError

pub record EvidenceWriter : Type 0 where
  pub max_snapshot_bytes : ℕ
  pub max_evidence : ℕ
  pub records : Dict EvidenceRecord
  pub hash_index : Dict String

abbrev pub new_writer : ℕ → ℕ → EvidenceWriter
new_writer max_snapshot_bytes max_evidence = record {
  max_snapshot_bytes = max_snapshot_bytes;
  max_evidence = max_evidence;
  records = [];
  hash_index = [];
}

-- `if existing_id`: an empty id counts as none.
abbrev pub known_id : Option String → Option String
known_id none = none
known_id (some id) = if str_eq id "" then none else some id

abbrev pub note_duplicate : String → ℕ → EvidenceRecord → EvidenceRecord
note_duplicate source_uri now r = record r { duplicates = r.duplicates ++ (source_uri, now) ∷ [] }

abbrev pub new_evidence :
    Surroundings → String → ℕ → Source → Text → EvidenceWriter → EvidenceRecord
new_evidence w id now source content writer = record {
  evidence_id = id;
  source = source;
  retrieved_at = now;
  content_hash = w.content_hash_of content;
  content_length = w.byte_length content;
  summary = w.redact (take 300 content);
  truncated = ltb writer.max_snapshot_bytes (w.byte_length content);
  duplicates = [];
}

-- The writer after the call, and the record or the exception.
abbrev pub Outcome : Type 0
Outcome = EvidenceWriter × Result EvidenceError EvidenceRecord

unfoldable pub write_new : Surroundings → String → ℕ → Source → Text → EvidenceWriter → Outcome
write_new w id now source content writer =
    let r = new_evidence w id now source content writer in
    if leb writer.max_evidence (length writer.records)
    then (writer, err (quota_exceeded writer.max_evidence))
    else (
      record writer {
        records = insert id r writer.records;
        hash_index = insert (w.content_hash_of content) id writer.hash_index;
      },
      ok r,
    )

abbrev pub write_known : String → ℕ → Source → Option EvidenceRecord → EvidenceWriter → Outcome
write_known id now source none writer = (writer, err missing_record)
write_known id now source (some r) writer =
    let r' = note_duplicate source.source_uri now r in
    (record writer { records = insert id r' writer.records }, ok r')

-- What `write` does with the id that the hash index has.
abbrev pub write_by :
    Surroundings → String → ℕ → Source → Text → EvidenceWriter → Option String → Outcome
write_by w id now source content writer none = write_new w id now source content writer
write_by w id now source content writer (some known) =
    write_known known now source (lookup known writer.records) writer

unfoldable pub write : Surroundings → String → ℕ → Source → Text → EvidenceWriter → Outcome
write w id now source content writer =
    write_by w id now source content writer
      (known_id (lookup (w.content_hash_of content) writer.hash_index))

unfoldable pub count : EvidenceWriter → ℕ
count writer = length writer.records

abbrev sum_lengths : Dict EvidenceRecord → ℕ
sum_lengths [] = 0
sum_lengths ((id, r) ∷ d) = r.content_length + sum_lengths d

unfoldable pub total_bytes : EvidenceWriter → ℕ
total_bytes writer = sum_lengths writer.records
