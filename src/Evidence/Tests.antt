-- ===== src/Evidence/Tests.antt =====
-- Contents that are written once and twice, and the theorems at them.
use ai_team_os.Prelude.{
  is_nil, if◌then◌else◌, ◌≤◌, String, codes, ◌≡◌, refl, none, [], ◌∷◌, length, arith, lookup,
  insert, ok, err,
}
use ai_team_os.Evidence.Defs.{
  Surroundings, Source, EvidenceRecord, EvidenceWriter, new_writer, new_evidence, write_new, write,
  count, quota_exceeded,
}
use ai_team_os.Evidence.Laws.{Request, write_once}

-- A hash that tells only the empty text, under which "a" and "b" are the same content.
abbrev around : Surroundings
around = record {
  content_hash_of = λ t. if is_nil t then "empty" else "text";
  byte_length = λ t. length t;
  redact = λ t. t;
}

abbrev page : Source
page = record {
  tool_name = "web_fetch";
  source_type = "web";
  source_uri = "u";
  title = [];
  content_type = "text/plain";
  subtask_id = none;
}

abbrev empty_writer : EvidenceWriter
empty_writer = new_writer 100 1

abbrev request : String → String → Request
request id content = record { id = id; now = 5; source = page; content = codes content }

abbrev first : EvidenceRecord
first = new_evidence around "e1" 5 page (codes "a") empty_writer

written : (write around "e1" 5 page (codes "a") empty_writer).1 ≡ ok first
unfolding write write_new lookup
written = refl

-- The quota is one: another content is refused.
refused :
    (write around "e2" 6 page [] (write around "e1" 5 page (codes "a") empty_writer).0).1
    ≡ err (quota_exceeded 1)
unfolding write write_new lookup insert
refused = refl

in_quota : count empty_writer ≤ 1
unfolding count
in_quota = omega arith

nothing_known : lookup (around.content_hash_of (codes "a")) empty_writer.hash_index ≡ none
unfolding lookup
nothing_known = refl

write_once_example :
    ((write around "e2" 6 page (codes "b") (write around "e1" 5 page (codes "a") empty_writer).0).1
      ≡ ok (record first { duplicates = ("u", 6) ∷ [] }))
    × (count
          (write around "e2" 6 page
            (codes "b")
            (write around "e1" 5 page (codes "a") empty_writer).0).0
        ≡ count (write around "e1" 5 page (codes "a") empty_writer).0)
write_once_example =
    write_once around "e1" "e2" 5 6 page page (codes "a") (codes "b") empty_writer first
      nothing_known (λ h. cc h) written refl
