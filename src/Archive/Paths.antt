-- ===== src/Archive/Paths.antt =====
-- `safePath` of internal/archive/validate.go, and `fs.ValidPath` of Go's io/fs that it calls.
use traicr.Prelude.{
  ◌≤◌, ℕ, suc, ◌<◌, Bool, true, not, ◌&&◌, ◌||◌, Option, none, some, List, [], ◌∷◌, ltb, ◌==◌,
  if◌then◌else◌, length, Text, text_eq, contains_byte, count_byte, ◌≡◌, refl, arith, ltb→lt,
  Bool-cases, inl, inr, ◌∙◌,
}
use traicr.Prelude.Utf8.{valid_utf8}

-- The bytes before the first `/`, and those behind each, as `strings.Split(name, "/")`.
abbrev prepend : ℕ → List Text → List Text
prepend b [] = (b ∷ []) ∷ []
prepend b (e ∷ es) = (b ∷ e) ∷ es

unfoldable pub elements : Text → List Text
elements [] = [] ∷ []
elements (b ∷ name) = let rest = elements name in if b == b'/' then [] ∷ rest else prepend b rest

-- `elem == "" || elem == "." || elem == ".."` refuses an element
abbrev pub dot : Text
dot = b'.' ∷ []

abbrev dot_dot : Text
dot_dot = b'.' ∷ b'.' ∷ []

unfoldable pub plain_element : Text → Bool
plain_element e = not (text_eq e [] || text_eq e dot || text_eq e dot_dot)

unfoldable pub plain_elements : List Text → Bool
plain_elements [] = true
plain_elements (e ∷ es) = plain_element e && plain_elements es

-- `fs.ValidPath`
unfoldable pub valid_path : Text → Bool
valid_path name = valid_utf8 name && (text_eq name dot || plain_elements (elements name))

-- `safePath`
unfoldable pub safe_path : Text → ℕ → Bool
unfolding valid_path
safe_path name depth =
    valid_path name
    && not (text_eq name dot)
    && not (contains_byte b'\\' name || contains_byte b':' name || contains_byte 0 name)
    && ltb (count_byte b'/' name) depth

-- Where a file system leads that reads `name` from a directory, one level down for each name on
-- the stack; `none` is a step above that directory.
abbrev pub resolve : List Text → List Text → Option (List Text)
resolve stack [] = some stack
resolve stack (e ∷ es) =
    let stay = resolve stack es in
    let up : Option (List Text) = elim stack [ [] ↦ none | top ∷ rest ↦ resolve rest es ] in
    let down = resolve (e ∷ stack) es in
    if text_eq e [] || text_eq e dot then stay else if text_eq e dot_dot then up else down

abbrev pub reverse_onto : List Text → List Text → List Text
reverse_onto stack [] = stack
reverse_onto stack (e ∷ es) = reverse_onto (e ∷ stack) es

resolve_plain :
    (stack es : List Text)
    → plain_elements es ≡ true
    → resolve stack es ≡ some (reverse_onto stack es)
unfolding plain_elements plain_element
resolve_plain stack [] h = refl
resolve_plain stack (e ∷ es) h = ground (arith, resolve_plain (e ∷ stack) es)

length-prepend : (b : ℕ) (es : List Text) → 0 < length es → length (prepend b es) ≡ length es
length-prepend b [] h = absurd (omega arith)
length-prepend b (e ∷ es) h = refl

count_byte-elements : (name : Text) → length (elements name) ≡ suc (count_byte b'/' name)
unfolding elements count_byte
count_byte-elements [] = refl
count_byte-elements (b ∷ name) = elim (Bool-cases (b == b'/')) [
  | inl slash ↦ rw slash (omega (arith, count_byte-elements name))
  | inr other ↦
      let ih = count_byte-elements name in
      rw other (length-prepend b (elements name) (omega (arith, ih)) ∙ omega (arith, ih))
]

-- A safe path stays in the directory that it is read from: each of its elements is one level
-- down, and there are at most `depth` of them.
pub safe_path-resolve :
    (name : Text) (depth : ℕ)
    → safe_path name depth ≡ true
    → (resolve [] (elements name) ≡ some (reverse_onto [] (elements name)))
      × (length (elements name) ≤ depth)
unfolding safe_path
safe_path-resolve name depth h =
    let plain : plain_elements (elements name) ≡ true = ground arith in
    let shallow : ltb (count_byte b'/' name) depth ≡ true = ground arith in
    (
      resolve_plain [] (elements name) plain,
      omega (arith, count_byte-elements name, ltb→lt _ _ shallow),
    )
