-- ===== src/Chunking/Tests.antt =====
-- Runs of s13code/core/memory/chunking.py on a small document.
use s14code.Prelude.{ℕ, ◌≡◌, refl, false, Option, none, some, List, [], ◌∷◌, codes, map}
use s14code.Chunking.Markdown.{prepare_markdown, structural_end, heading}
use s14code.Chunking.Segments.{TopicSegmenter, heading_topic, DocumentChunk, semantic_chunks}
use s14code.Chunking.Cover.{IsCover, semantic_chunks-IsCover}

abbrev by_heading : TopicSegmenter
unfolding heading_topic
by_heading = record { mode = "heading_fallback"; model = none; second_topic = heading_topic }

abbrev document : List ℕ
document = codes "  # One\nfirst words\n\n# Two\nlast words\n"

abbrev texts : Option (List DocumentChunk) → List (List ℕ)
texts none = []
texts (some cs) = map (λ (c : DocumentChunk). c.text) cs

abbrev starts : Option (List DocumentChunk) → List ℕ
starts none = []
starts (some cs) = map (λ (c : DocumentChunk). c.source_start_char) cs

two_chunks :
    texts (semantic_chunks by_heading 512 0 false document)
    ≡ codes "# One\nfirst words" ∷ codes "# Two\nlast words" ∷ []
unfolding semantic_chunks by_heading heading_topic
two_chunks = refl

two_starts : starts (semantic_chunks by_heading 512 0 false document) ≡ 2 ∷ 21 ∷ []
unfolding semantic_chunks by_heading heading_topic
two_starts = refl

-- Three words at a time.
small_chunks :
    texts (semantic_chunks by_heading 3 40 false document)
    ≡ codes "# One\nfirst" ∷ codes "words" ∷ codes "# Two\nlast" ∷ codes "words" ∷ []
unfolding semantic_chunks by_heading heading_topic
small_chunks = refl

abstract_page :
    prepare_markdown
      (codes "menu\n# Title: T\nby A\n> Abstract: B\n| Comments: C\n## Submission history\nv1")
    ≡ (codes "# Title: T\nby A\n> Abstract: B", "arxiv_abstract_page")
unfolding prepare_markdown
abstract_page = refl

-- A table that begins inside the block moves on whole.
table_moves : structural_end (codes "words\n| a |\n| b |\n") 0 17 ≡ 6
unfolding structural_end
table_moves = refl

first_title : heading (codes "text\n## The title \nmore") ≡ some (codes "The title")
unfolding heading
first_title = refl

semantic_chunks-IsCover_example :
    (cs : List DocumentChunk) × (semantic_chunks by_heading 3 40 false document ≡ some cs)
    × IsCover 0 0 document cs
semantic_chunks-IsCover_example = semantic_chunks-IsCover by_heading 3 40 false document
