-- ===== src/Webhook/Pointer.antt =====
-- escapeJSONPointer: a key as one segment of a JSON pointer (RFC 6901), and its decoding.
use Prim.Native.Char.{Char, code}
use Prim.Native.String.{[], ◌∷◌}
use text.Mathlib.TextEquality.{Char-path}
use pvc_chonker.Prelude.{
  ℕ, String, ◌&&◌, ◌≡◌, ◌≢◌, refl, arith, eqb, if◌then◌else◌, Bool-cases, inl, inr,
}

-- strings.ReplaceAll(s, old, new) for a text `old` of one character and a `new` of two
unfoldable pub replace_all : ℕ → Char → Char → String → String
replace_all old a b [] = []
replace_all old a b (c ∷ s) =
    let rest = replace_all old a b s in if eqb (code c) old then a ∷ b ∷ rest else c ∷ rest

unfoldable pub escape_json_pointer : String → String
unfolding replace_all
escape_json_pointer s = replace_all b'/' "~" "1" (replace_all b'~' "~" "0" s)

-- RFC 6901, section 4: ~1 stands for / and ~0 for ~.
unfoldable pub unescape_json_pointer : String → String
unescape_json_pointer [] = []
unescape_json_pointer (c ∷ []) = c ∷ []
unescape_json_pointer (c ∷ d ∷ s) =
    let one = "/" ∷ unescape_json_pointer s in
    let zero = "~" ∷ unescape_json_pointer s in
    let plain = c ∷ unescape_json_pointer (d ∷ s) in
    if eqb (code c) b'~' && eqb (code d) b'1'
    then one
    else if eqb (code c) b'~' && eqb (code d) b'0'
    then zero
    else plain

abbrev pub NoSlash : String → Type 0
NoSlash [] = Unit
NoSlash (c ∷ s) = (code c ≢ b'/') × NoSlash s

unescape-plain :
    (c : Char) (s : String)
    → code c ≢ b'~'
    → unescape_json_pointer (c ∷ s) ≡ c ∷ unescape_json_pointer s
unfolding unescape_json_pointer
unescape-plain c [] h = refl
unescape-plain c (d ∷ s) h = ground arith

escape-tilde :
    (c : Char) (s : String)
    → code c ≡ b'~'
    → escape_json_pointer (c ∷ s) ≡ "~" ∷ "0" ∷ escape_json_pointer s
unfolding escape_json_pointer
escape-tilde c s h = ground arith

escape-slash :
    (c : Char) (s : String)
    → code c ≡ b'/'
    → escape_json_pointer (c ∷ s) ≡ "~" ∷ "1" ∷ escape_json_pointer s
unfolding escape_json_pointer
escape-slash c s h = ground arith

escape-plain :
    (c : Char) (s : String)
    → code c ≢ b'~'
    → code c ≢ b'/'
    → escape_json_pointer (c ∷ s) ≡ c ∷ escape_json_pointer s
unfolding escape_json_pointer
escape-plain c s h k = ground arith

unescape-tilde :
    (s : String) → unescape_json_pointer ("~" ∷ "0" ∷ s) ≡ "~" ∷ unescape_json_pointer s
unfolding unescape_json_pointer
unescape-tilde s = refl

unescape-slash :
    (s : String) → unescape_json_pointer ("~" ∷ "1" ∷ s) ≡ "/" ∷ unescape_json_pointer s
unfolding unescape_json_pointer
unescape-slash s = refl

-- The escaped text has no slash, so it is one segment of a pointer, and decoding it by RFC 6901
-- gives the text back.
pub unescape-escape :
    (s : String)
    → (unescape_json_pointer (escape_json_pointer s) ≡ s) × NoSlash (escape_json_pointer s)
unescape-escape [] =
    (unfold escape_json_pointer unescape_json_pointer in refl, unfold escape_json_pointer in tt)
unescape-escape (c ∷ s) = elim (Bool-cases (eqb (code c) b'~')) [
  | inl tilde ↦
      let e : code c ≡ b'~' = ground arith in
      let (back, clean) = unescape-escape s in
      (
        rw (escape-tilde c s e, unescape-tilde, back, Char-path c "~" e),
        rw (escape-tilde c s e) (omega arith, (omega arith, clean)),
      )
  | inr other ↦ elim (Bool-cases (eqb (code c) b'/')) [
    | inl slash ↦
        let e : code c ≡ b'/' = ground arith in
        let (back, clean) = unescape-escape s in
        (
          rw (escape-slash c s e, unescape-slash, back, Char-path c "/" e),
          rw (escape-slash c s e) (omega arith, (omega arith, clean)),
        )
    | inr plain ↦
        let h : code c ≢ b'~' = ground arith in
        let k : code c ≢ b'/' = ground arith in
        let (back, clean) = unescape-escape s in
        (
          rw (escape-plain c s h k, unescape-plain c _ h, back),
          rw (escape-plain c s h k) (k, clean),
        )
  ]
]

escapes : escape_json_pointer "pvc-chonker.io/a~b" ≡ "pvc-chonker.io~1a~0b"
unfolding escape_json_pointer
escapes = refl
