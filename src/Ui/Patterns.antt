-- ===== src/Ui/Patterns.antt =====
-- The regular expressions of s13code/ui/validator.py, as recognisers over texts. `re.I` folds the
-- case of a code point as Python's `re` does, with its four letters beyond ASCII.
use s14code.Prelude.{
  ℕ, ◌+◌, codes, Bool, true, false, not, ◌&&◌, ◌||◌, List, [], ◌∷◌, leb, nat_eq, if◌then◌else◌,
}

-- The lower-case letter that `re.I` compares: also for U+0130, U+0131, U+017F and U+212A.
unfoldable pub fold : ℕ → ℕ
fold c =
    if leb b'A' c && leb c b'Z'
    then c + 32
    else if nat_eq c 0x130 || nat_eq c 0x131
    then b'i'
    else if nat_eq c 0x17F
    then b's'
    else if nat_eq c 0x212A
    then b'k'
    else c

-- `[a-z]` under `re.I`
unfoldable pub is_letter : ℕ → Bool
unfolding fold
is_letter c = leb b'a' (fold c) && leb (fold c) b'z'

-- `\s`
unfoldable pub is_space : ℕ → Bool
is_space c =
    leb 9 c && leb c 13
    || leb 0x1C c && leb c 0x20
    || nat_eq c 0x85
    || nat_eq c 0xA0
    || nat_eq c 0x1680
    || leb 0x2000 c && leb c 0x200A
    || nat_eq c 0x2028
    || nat_eq c 0x2029
    || nat_eq c 0x202F
    || nat_eq c 0x205F
    || nat_eq c 0x3000

-- `[^>]*>` at the start: there is a `>` further on.
unfoldable pub has_close : List ℕ → Bool
has_close [] = false
has_close (c ∷ cs) = nat_eq c b'>' || has_close cs

-- `<[a-z!/][^>]*>` at the start
unfoldable pub is_tag : List ℕ → Bool
unfolding is_letter has_close
is_tag (a ∷ b ∷ cs) =
    nat_eq a b'<' && (is_letter b || nat_eq b b'!' || nat_eq b b'/') && has_close cs
is_tag _ = false

-- `[a-z]*>` at the start
unfoldable pub is_name_close : List ℕ → Bool
unfolding is_letter
is_name_close [] = false
is_name_close (c ∷ cs) = nat_eq c b'>' || is_letter c && is_name_close cs

-- `</[a-z]+>` at the start
unfoldable pub is_close_tag : List ℕ → Bool
unfolding is_letter is_name_close
is_close_tag (a ∷ b ∷ c ∷ cs) = nat_eq a b'<' && nat_eq b b'/' && is_letter c && is_name_close cs
is_close_tag _ = false

-- `_MARKUP.search`
unfoldable pub has_markup : List ℕ → Bool
unfolding is_tag is_close_tag
has_markup [] = false
has_markup (c ∷ cs) = is_tag (c ∷ cs) || is_close_tag (c ∷ cs) || has_markup cs

-- A literal in lower case at the start, under `re.I`.
unfoldable pub starts_folded : List ℕ → List ℕ → Bool
unfolding fold
starts_folded [] cs = true
starts_folded (l ∷ ls) [] = false
starts_folded (l ∷ ls) (c ∷ cs) = nat_eq l (fold c) && starts_folded ls cs

abbrev pub is_scheme : List ℕ → Bool
is_scheme cs =
    starts_folded (codes "javascript:") cs
    || starts_folded (codes "data:") cs
    || starts_folded (codes "vbscript:") cs

-- `_JS_URL.match`: white space, then one of the schemes.
unfoldable pub is_js_url : List ℕ → Bool
unfolding is_space starts_folded
is_js_url [] = false
is_js_url (c ∷ cs) = is_scheme (c ∷ cs) || is_space c && is_js_url cs

-- `[a-z]+$`: `$` also stands before a newline at the end.
unfoldable pub is_letters_end : List ℕ → Bool
unfolding is_letter
is_letters_end [] = true
is_letters_end (c ∷ []) = is_letter c || nat_eq c 10
is_letters_end (c ∷ cs) = is_letter c && is_letters_end cs

-- `_HANDLER.match`: `^on[a-z]+$`
unfoldable pub is_handler : List ℕ → Bool
unfolding fold is_letter is_letters_end
is_handler (a ∷ b ∷ c ∷ cs) =
    nat_eq (fold a) b'o' && nat_eq (fold b) b'n' && is_letter c && is_letters_end cs
is_handler _ = false

-- `[^\s]*$`
unfoldable pub is_unspaced_end : List ℕ → Bool
unfolding is_space
is_unspaced_end [] = true
is_unspaced_end (c ∷ []) = not (is_space c) || nat_eq c 10
is_unspaced_end (c ∷ cs) = not (is_space c) && is_unspaced_end cs

-- `_POINTER.match`: `^/[^\s]*$`
unfoldable pub is_pointer : List ℕ → Bool
unfolding is_unspaced_end
is_pointer [] = false
is_pointer (c ∷ cs) = nat_eq c b'/' && is_unspaced_end cs
