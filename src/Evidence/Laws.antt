-- ===== src/Evidence/Laws.antt =====
-- The quota of evidence, and that the same content is kept once.
use ai_team_os.Prelude.{
  leb, subst, ◌++◌, ℕ, ◌+◌, ◌≤◌, String, Text, ◌≡◌, ◌≢◌, refl, sym, ap, ◌∙◌, Option, none, some,
  List, [], ◌∷◌, str_eq, eq_iff, length, Dict, lookup, insert, lookup-insert, arith, Bool-cases,
  Option-cases, ok, inl, inr,
}
use ai_team_os.Evidence.Defs.{
  Outcome, write_by, note_duplicate, Surroundings, Source, EvidenceRecord, EvidenceWriter, known_id,
  write_new, write_known, write, count, new_evidence,
}

length-insert {ℓ} :
    {V : Type ℓ} (k : String) (v : V) (d : Dict V) → length (insert k v d) ≤ length d + 1
unfolding insert
length-insert k v [] = omega arith
length-insert k v ((j, w) ∷ d) = ground (arith, length-insert k v d)

-- A key that is there is not added again.
length-insert-known {ℓ} :
    {V : Type ℓ} (k : String) (v w : V) (d : Dict V)
    → lookup k d ≡ some w
    → length (insert k v d) ≡ length d
unfolding insert lookup
length-insert-known k v w [] h = absurd (cc h)
length-insert-known k v w ((j, u) ∷ d) h = elim (Bool-cases (str_eq j k)) [
  | inl e ↦ ground (arith, e)
  | inr e ↦ ground (arith, e, length-insert-known k v w d (rw (e, lookup) at h))
]

-- What was asked of the writer, one after the other, with the ids that were drawn.
pub record Request : Type 0 where
  pub id : String
  pub now : ℕ
  pub source : Source
  pub content : Text

unfoldable pub write_all : Surroundings → List Request → EvidenceWriter → EvidenceWriter
write_all w [] writer = writer
write_all w (r ∷ rs) writer = write_all w rs (write w r.id r.now r.source r.content writer).0

write_bounded :
    (w : Surroundings) (id : String) (now : ℕ) (source : Source) (content : Text)
    (writer : EvidenceWriter)
    → count writer ≤ writer.max_evidence
    → (count (write w id now source content writer).0 ≤ writer.max_evidence)
      × ((write w id now source content writer).0.max_evidence ≡ writer.max_evidence)
unfolding write count write_new
write_bounded w id now source content writer h =
    elim (Option-cases (known_id (lookup (w.content_hash_of content) writer.hash_index))) [
      | inl n ↦
          let grown =
            length-insert id (new_evidence w id now source content writer) writer.records in
          (ground (arith, n, grown), ground (arith, n))
      | inr (k, e) ↦ elim (Option-cases (lookup k writer.records)) [
        | inl m ↦ (ground (arith, e, m), ground (arith, e, m))
        | inr (x, m) ↦
            let same =
              length-insert-known k (note_duplicate source.source_uri now x) x writer.records m in
            (ground (arith, e, m, same), ground (arith, e, m))
      ]
    ]

-- Whatever is written, with whatever ids, a writer that is within its quota of evidence stays within
-- it, and keeps the quota.
pub writes_bounded :
    (w : Surroundings) (rs : List Request) (writer : EvidenceWriter)
    → count writer ≤ writer.max_evidence
    → (count (write_all w rs writer) ≤ writer.max_evidence)
      × ((write_all w rs writer).max_evidence ≡ writer.max_evidence)
unfolding write_all
writes_bounded w [] writer h = (h, refl)
writes_bounded w (r ∷ rs) writer h =
    let (fits, same) = write_bounded w r.id r.now r.source r.content writer h in
    let (rest, kept) =
      writes_bounded w rs (write w r.id r.now r.source r.content writer).0
        (omega (arith, fits, same)) in
    (omega (arith, rest, same), kept ∙ same)

-- The writer after a new content.
abbrev with_new : Surroundings → String → EvidenceRecord → EvidenceWriter → EvidenceWriter
with_new w id r writer = record writer {
  records = insert id r writer.records;
  hash_index = insert r.content_hash id writer.hash_index;
}

room_write :
    (w : Surroundings) (id : String) (now : ℕ) (source : Source) (content : Text)
    (writer : EvidenceWriter) (r : EvidenceRecord)
    → (write_new w id now source content writer).1 ≡ ok r
    → ((write_new w id now source content writer).0 ≡ with_new w id r writer)
      × (r ≡ new_evidence w id now source content writer)
unfolding write_new
room_write w id now source content writer r done =
    elim (Bool-cases (leb writer.max_evidence (length writer.records))) [
      | inl full ↦ absurd (cc (rw full at done))
      | inr room ↦
          let made : new_evidence w id now source content writer ≡ r = cc (rw room at done) in
          (rw room (ap (λ x. with_new w id x writer) made), sym made)
    ]

first_write :
    (w : Surroundings) (id : String) (now : ℕ) (source : Source) (content : Text)
    (writer : EvidenceWriter) (r : EvidenceRecord)
    → lookup (w.content_hash_of content) writer.hash_index ≡ none
    → (write w id now source content writer).1 ≡ ok r
    → ((write w id now source content writer).0 ≡ with_new w id r writer)
      × (r ≡ new_evidence w id now source content writer)
unfolding write
first_write w id now source content writer r fresh done =
    let as_new =
      ap (λ (o : Option String). write_by w id now source content writer (known_id o)) fresh in
    let (after, made) =
      room_write w id now source content writer r (sym (ap (λ (o : Outcome). o.1) as_new) ∙ done) in
    (ap (λ (o : Outcome). o.0) as_new ∙ after, made)

known_named : (k : String) → k ≢ "" → known_id (some k) ≡ some k
known_named k h = ground (arith, eq_iff k "")

known_write :
    (w : Surroundings) (id known : String) (now : ℕ) (source : Source) (content : Text)
    (writer : EvidenceWriter) (r : EvidenceRecord)
    → lookup (w.content_hash_of content) writer.hash_index ≡ some known
    → known ≢ ""
    → lookup known writer.records ≡ some r
    → write w id now source content writer ≡ (
      record writer {
        records = insert known (note_duplicate source.source_uri now r) writer.records;
      },
      ok (note_duplicate source.source_uri now r),
    )
unfolding write
known_write w id known now source content writer r e named found =
    ap (λ (o : Option String). write_by w id now source content writer o)
      (ap (λ (o : Option String). known_id o) e ∙ known_named known named)
    ∙ ap (λ (o : Option EvidenceRecord). write_known known now source o writer) found

-- A new content is written under an id that is not empty. When the very next content that is written
-- has the same hash, it comes back as the record of that id, with one note of a duplicate, and the
-- number of records stays.
pub write_once :
    (w : Surroundings) (id id' : String) (now now' : ℕ) (source source' : Source)
    (content content' : Text) (writer : EvidenceWriter) (r : EvidenceRecord)
    → lookup (w.content_hash_of content) writer.hash_index ≡ none
    → id ≢ ""
    → (write w id now source content writer).1 ≡ ok r
    → w.content_hash_of content' ≡ w.content_hash_of content
    → ((write w id' now' source' content' (write w id now source content writer).0).1
        ≡ ok (record r { duplicates = (source'.source_uri, now') ∷ [] }))
      × (count (write w id' now' source' content' (write w id now source content writer).0).0
          ≡ count (write w id now source content writer).0)
write_once w id id' now now' source source' content content' writer r fresh named done same =
    let (after, made) = first_write w id now source content writer r fresh done in
    let kept : r.content_hash ≡ w.content_hash_of content =
      ap (λ (x : EvidenceRecord). x.content_hash) made in
    let none_yet : r.duplicates ≡ [] = ap (λ (x : EvidenceRecord). x.duplicates) made in
    let indexed : lookup (w.content_hash_of content') (with_new w id r writer).hash_index
        ≡ some id =
      ground (
        arith,
        lookup-insert r.content_hash (w.content_hash_of content') id writer.hash_index,
        eq_iff r.content_hash (w.content_hash_of content'),
        kept,
        same,
      ) in
    let found : lookup id (with_new w id r writer).records ≡ some r =
      ground (arith, lookup-insert id id r writer.records, eq_iff id id) in
    let again =
      known_write w id' id now' source' content' (with_new w id r writer) r indexed named found in
    (
      subst
          (λ x.
            (write w id' now' source' content' x).1
            ≡ ok (record r { duplicates = (source'.source_uri, now') ∷ [] }))
          (sym after)
          (ap (λ (o : Outcome). o.1) again
            ∙ ap
                (λ (l : List (String × ℕ)).
                  ok (record r { duplicates = l ++ (source'.source_uri, now') ∷ [] }))
                none_yet),
      subst (λ x. count (write w id' now' source' content' x).0 ≡ count x) (sym after)
          (ap (λ (o : Outcome). count o.0) again
            ∙ unfold count in
              length-insert-known id (note_duplicate source'.source_uri now' r) r
                (with_new w id r writer).records found),
    )
