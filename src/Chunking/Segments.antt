-- ===== src/Chunking/Segments.antt =====
-- `semantic_chunks` of s13code/core/memory/chunking.py, over code points. The segmenter is an argument;
-- it gives a text or raises. `max_words` is positive.
use s14code.Prelude.{
  ℕ, zero, suc, ◌+◌, ◌-◌, String, Bool, false, not, ◌&&◌, ◌||◌, Option, none, some, List, [], ◌∷◌,
  ◌>>=◌, leb, ltb, length, nat_eq, take, if◌then◌else◌,
}
use s14code.Ui.Patterns.{is_space}
use s14code.Chunking.Words.{
  drop, slice, is_empty, strip, lstrip, rstrip, find, rfind, is_suffix, leading, word_count,
  end_of_word,
}
use s14code.Chunking.Markdown.{heading_starts, heading, prepare_markdown, structural_end}

-- What `second_topic` gives, or the type and the message of what it raises.
pub data TopicReply : Type 0 where
  topic : List ℕ → TopicReply
  failed : String → TopicReply

pub record TopicSegmenter : Type 0 where
  pub mode : String
  pub model : Option String
  pub second_topic : List ℕ → TopicReply

-- `HeadingTopicSegmenter.second_topic`
unfoldable pub heading_topic : List ℕ → TopicReply
unfolding heading_starts lstrip rstrip
heading_topic block = elim (heading_starts block) [
  | [] ↦ topic []
  | at ∷ more ↦ elim more [ [] ↦ topic [] | second ∷ rest ↦ topic (strip (drop second block)) ]
]

-- `decision["outcome"]`
pub data ChunkOutcome : Type 0 where
  below_semantic_floor second_topic_returned one_topic segmenter_failed suffix_rollover :
      ChunkOutcome
  suffix_at_block_start non_suffix_rejected : ChunkOutcome

-- `suffix` holds `suffix_start_char` and `suffix_words`.
pub record Decision : Type 0 where
  pub mode : String
  pub model : Option String
  pub block_words : ℕ
  pub outcome : ChunkOutcome
  pub error : Option String
  pub suffix : Option (ℕ × ℕ)

pub record RawChunk : Type 0 where
  pub text : List ℕ
  pub decision : Decision
  pub start : ℕ
  pub end : ℕ

-- The block at a position: its text, its start, and where the next one starts if it is kept whole.
pub record Block : Type 0 where
  pub text : List ℕ
  pub start : ℕ
  pub remainder : ℕ

abbrev pub nominal_end : ℕ → List ℕ → ℕ → ℕ
nominal_end max_words markdown pending =
    let rest = drop pending markdown in
    if leb (word_count rest) max_words
    then length markdown
    else pending + end_of_word max_words false rest

unfoldable pub block_end : ℕ → List ℕ → ℕ → ℕ
unfolding structural_end is_space
block_end max_words markdown pending =
    let nominal = nominal_end max_words markdown pending in
    let structural = structural_end markdown pending nominal in
    if leb structural pending then nominal else structural

unfoldable pub block_at : ℕ → List ℕ → ℕ → Block
unfolding block_end find leading lstrip rstrip
block_at max_words markdown pending =
    let end = block_end max_words markdown pending in
    let piece = slice pending end markdown in
    record {
      text = strip piece;
      start = elim (find (strip piece) piece) [ none ↦ pending - 1 | some i ↦ pending + i ];
      remainder = end + leading (drop end markdown);
    }

-- What the segmenter says of a block: the second topic, "" for none, and the decision so far.
abbrev pub ask : TopicSegmenter → ℕ → List ℕ → List ℕ × Decision
ask s floor block =
    if ltb (word_count block) floor
    then ([], decided below_semantic_floor none)
    else elim (s.second_topic block) [
      | topic t ↦
          (strip t, decided (if is_empty (strip t) then one_topic else second_topic_returned) none)
      | failed error ↦ ([], decided segmenter_failed (some error))
    ]
  where
    decided : ChunkOutcome → Option String → Decision
    decided outcome error = record {
      mode = s.mode;
      model = s.model;
      block_words = word_count block;
      outcome = outcome;
      error = error;
      suffix = none;
    }

-- Where the second topic begins in the block, none where it is no verbatim suffix.
unfoldable pub split_point : List ℕ → List ℕ → Option ℕ
unfolding rstrip rfind
split_point block second =
    if not (is_empty second) && is_suffix (rstrip second) (rstrip block)
    then rfind (rstrip second) (rstrip block)
    else none

-- The decision where the block is kept whole.
abbrev pub whole_decision : List ℕ → Option ℕ → Decision → Decision
whole_decision second split d = if is_empty second then d else elim split [
  | none ↦ record d { outcome = non_suffix_rejected }
  | some at ↦ record d { outcome = suffix_at_block_start }
]

-- The chunk of one turn of the loop, if it makes one, and the next position.
abbrev pub cut_whole : Block → List ℕ → Option ℕ → Decision → Option RawChunk × ℕ
cut_whole b second split d = (
  some (record {
    text = b.text;
    decision = whole_decision second split d;
    start = b.start;
    end = b.start + length b.text;
  }),
  b.remainder,
)

abbrev pub cut_first : Block → List ℕ → ℕ → Decision → Option RawChunk × ℕ
cut_first b second at d = (
  if is_empty (strip (take at b.text))
      then none
      else some (record {
        text = strip (take at b.text);
        decision = record d { outcome = suffix_rollover; suffix = some (at, word_count second) };
        start = b.start;
        end = b.start + at;
      }),
  b.start + at,
)

abbrev pub cut_block : Block → List ℕ → Option ℕ → Decision → Option RawChunk × ℕ
cut_block b second none d = cut_whole b second none d
cut_block b second (some at) d =
    if ltb 0 at then cut_first b second at d else cut_whole b second (some at) d

unfoldable pub turn : TopicSegmenter → ℕ → ℕ → List ℕ → ℕ → Option RawChunk × ℕ
unfolding block_at split_point is_space lstrip rstrip
turn s max_words floor markdown pending =
    let b = block_at max_words markdown pending in
    let (second, d) = ask s floor b.text in cut_block b second (split_point b.text second) d

abbrev pub add_raw : Option RawChunk → List RawChunk → List RawChunk
add_raw none cs = cs
add_raw (some c) cs = c ∷ cs

-- The loop, on fuel; none where the fuel ends.
unfoldable pub raw_from : TopicSegmenter → ℕ → ℕ → List ℕ → ℕ → ℕ → Option (List RawChunk)
unfolding turn is_space
raw_from s max_words floor markdown zero pending = none
raw_from s max_words floor markdown (suc fuel) pending =
    let (piece, position) = turn s max_words floor markdown pending in
    let later = raw_from s max_words floor markdown fuel position in
    if not (ltb pending (length markdown)) || nat_eq (word_count (drop pending markdown)) 0
    then some []
    else later >>= λ cs. some (add_raw piece cs)

-- From the first word, with one turn more than there are code points.
unfoldable pub raw_chunks : TopicSegmenter → ℕ → ℕ → List ℕ → Option (List RawChunk)
unfolding raw_from leading lstrip rstrip
raw_chunks s max_words floor markdown =
    if is_empty (strip markdown)
    then some []
    else raw_from s max_words floor markdown (suc (length markdown)) (leading markdown)

-- `_word_number`
abbrev pub word_number : List ℕ → ℕ → ℕ
word_number source offset = word_count (take offset source)

pub record DocumentChunk : Type 0 where
  pub text : List ℕ
  pub heading : Option (List ℕ)
  pub ordinal : ℕ
  pub previous_ordinal : Option ℕ
  pub next_ordinal : Option ℕ
  pub segmentation : Decision
  pub source_start_char : ℕ
  pub source_end_char : ℕ
  pub source_start_word : ℕ
  pub source_end_word : ℕ

-- The chunks from an ordinal on.
unfoldable pub document_chunks : List ℕ → ℕ → ℕ → List RawChunk → List DocumentChunk
unfolding heading is_space
document_chunks markdown total i [] = []
document_chunks markdown total i (c ∷ cs) =
    record {
      text = c.text;
      heading = heading c.text;
      ordinal = i;
      previous_ordinal = if nat_eq i 0 then none else some (i - 1);
      next_ordinal = if ltb (i + 1) total then some (i + 1) else none;
      segmentation = c.decision;
      source_start_char = c.start;
      source_end_char = c.end;
      source_start_word = word_number markdown c.start;
      source_end_word = word_number markdown c.end;
    }
    ∷ document_chunks markdown total (i + 1) cs

unfoldable pub chunk_prepared : TopicSegmenter → ℕ → ℕ → List ℕ → Option (List DocumentChunk)
unfolding raw_chunks document_chunks
chunk_prepared s max_words floor markdown = raw_chunks s max_words floor markdown >>= λ raw.
    some (document_chunks markdown (length raw) 0 raw)

-- `semantic_chunks`, without the release of the segmenter.
unfoldable pub semantic_chunks :
    TopicSegmenter → ℕ → ℕ → Bool → List ℕ → Option (List DocumentChunk)
unfolding chunk_prepared prepare_markdown
semantic_chunks s max_words floor preprocess markdown =
    chunk_prepared s max_words floor
      (if preprocess then (prepare_markdown markdown).0 else markdown)
