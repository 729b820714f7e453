-- ===== src/Path/Grammar.antt =====
-- What `validate` of src/path.rs accepts.
use project_db.Base.{
  ℕ, ◌≤◌, String, Text, codes, slash, split, length, byte_len, utf8_len, text_eq, text_eq_iff, ◌≡◌,
  refl, ◌↔◌, ◌⊎◌, inl, inr, ◌≢◌, true, false, not, ◌||◌, List, [], ◌∷◌, all, In, All, All-In, arith,
  grow, or-cases, ◌==◌, ==_iff, Bool-cases, In-All,
}
use project_db.Status.{ok}
use project_db.Path.{
  is_segment_char, segment_is_legal, starts_with_slash, ends_with_slash, is_empty,
  validate_segments, validate, max_len,
}

-- A character of a segment: a letter, a digit, or one of `.`, `_`, `-`.
abbrev pub IsSegmentChar : ℕ → Type 0
IsSegmentChar c =
    ((b'A' ≤ c) × (c ≤ b'Z'))
    ⊎ ((b'a' ≤ c) × (c ≤ b'z'))
    ⊎ ((b'0' ≤ c) × (c ≤ b'9'))
    ⊎ (c ≡ b'.')
    ⊎ (c ≡ b'_')
    ⊎ (c ≡ b'-')

abbrev pub IsSegment : Text → Type 0
IsSegment s = (s ≢ []) × (s ≢ codes ".") × (s ≢ codes "..") × All IsSegmentChar s

-- A project path: it fits its column, and every part between slashes is a segment.
abbrev pub IsProjectPath : Text → Type 0
IsProjectPath p = (byte_len p ≤ max_len) × All IsSegment (split p)

is_segment_char_iff : (c : ℕ) → (is_segment_char c ≡ true) ↔ IsSegmentChar c
unfolding is_segment_char
is_segment_char_iff c = ground arith

all-is_segment_char_iff : (s : Text) → (all is_segment_char s ≡ true) ↔ All IsSegmentChar s
all-is_segment_char_iff [] = (λ _. tt, λ _. refl)
all-is_segment_char_iff (c ∷ s) =
    let (to, from) = is_segment_char_iff c in
    let (to', from') = all-is_segment_char_iff s in
    (λ h. (to (ground arith), to' (ground arith)), λ h. rw (from h.0, from' h.1))

not-text_eq_iff : (s t : Text) → (not (text_eq s t) ≡ true) ↔ (s ≢ t)
not-text_eq_iff s t =
    let (to, from) = text_eq_iff s t in
    (
      λ h e. cc (from e, h),
      λ n. elim (Bool-cases (text_eq s t)) [
        | inl same ↦ absurd (n (to same))
        | inr other ↦ rw other
      ],
    )

segment_is_legal_iff : (s : Text) → (segment_is_legal s ≡ true) ↔ IsSegment s
unfolding segment_is_legal
segment_is_legal_iff s =
    let (a, a') = not-text_eq_iff s [] in
    let (b, b') = not-text_eq_iff s (codes ".") in
    let (c, c') = not-text_eq_iff s (codes "..") in
    let (d, d') = all-is_segment_char_iff s in
    (
      λ h. (a (ground arith), b (ground arith), c (ground arith), d (ground arith)),
      λ h. rw (a' h.0, b' h.1, c' h.2, d' h.3),
    )

validate_segments_iff :
    (what : String) (path : Text) (segments : List Text)
    → (validate_segments what path segments ≡ ok tt) ↔ All IsSegment segments
unfolding validate_segments
validate_segments_iff what path [] = (λ _. tt, λ _. refl)
validate_segments_iff what path (s ∷ segments) =
    let (to, from) = segment_is_legal_iff s in
    let (to', from') = validate_segments_iff what path segments in
    (λ h. (to (ground arith), to' (ground arith)), λ h. rw (from h.0, from' h.1))

pub split_of_slash : (c : ℕ) (s : Text) → (c == slash) ≡ true → split (c ∷ s) ≡ [] ∷ split s
unfolding split
split_of_slash c s h = rw h

pub split_of_other : (c : ℕ) (s : Text) → (c == slash) ≡ false → split (c ∷ s) ≡ grow c (split s)
unfolding split
split_of_other c s h = rw h

-- The parts behind the first slash.
abbrev later : List Text → List Text
later [] = []
later (part ∷ parts) = parts

later-grow : (c : ℕ) (parts : List Text) → later (grow c parts) ≡ later parts
later-grow c [] = refl
later-grow c (part ∷ parts) = refl

In_of_later : (parts : List Text) → In [] (later parts) → In [] parts
In_of_later [] m = m
In_of_later (part ∷ parts) m = inr m

later_of_ends_with_slash : (p : Text) → ends_with_slash p ≡ true → In [] (later (split p))
unfolding ends_with_slash
later_of_ends_with_slash [] h = cc
later_of_ends_with_slash (c ∷ []) h = rw (split_of_slash c [] h) (unfold split in inl refl)
later_of_ends_with_slash (c ∷ d ∷ s) h = elim (Bool-cases (c == slash)) [
  | inl is ↦
      rw (split_of_slash c (d ∷ s) is)
        (In_of_later (split (d ∷ s)) (later_of_ends_with_slash (d ∷ s) h))
  | inr isnt ↦
      rw (split_of_other c (d ∷ s) isnt, later-grow c (split (d ∷ s)))
        (later_of_ends_with_slash (d ∷ s) h)
]

first_of_starts_with_slash : (p : Text) → starts_with_slash p ≡ true → In [] (split p)
first_of_starts_with_slash [] h = cc
first_of_starts_with_slash (c ∷ s) h = rw (split_of_slash c s h) (inl refl)

no_edge_slash :
    (p : Text) → All IsSegment (split p) → (starts_with_slash p || ends_with_slash p) ≡ false
no_edge_slash p h = elim (Bool-cases (starts_with_slash p || ends_with_slash p)) [
  | inr e ↦ e
  | inl e ↦
      let empty_part : In [] (split p) =
        elim (or-cases (starts_with_slash p) (ends_with_slash p) e) [
          | inl first ↦ first_of_starts_with_slash p first
          | inr last ↦ In_of_later (split p) (later_of_ends_with_slash p last)
        ] in
      absurd ((All-In IsSegment (split p) h [] empty_part).0 refl)
]

not_empty : (p : Text) → All IsSegment (split p) → is_empty p ≡ false
unfolding split
not_empty [] h = absurd (h.0.0 refl)
not_empty (c ∷ s) h = refl

-- `validate` accepts exactly the project paths, whatever field it names.
pub validate_iff : (what : String) (p : Text) → (validate what p ≡ ok tt) ↔ IsProjectPath p
unfolding validate
validate_iff what p =
    let (to, from) = validate_segments_iff what p (split p) in
    (
      λ h. (ground arith, to (ground arith)),
      λ h. ground (arith, no_edge_slash p h.1, not_empty p h.1, from h.1),
    )

pub All-grow :
    (c : ℕ) (parts : List Text)
    → All (All IsSegmentChar) (grow c parts)
    → IsSegmentChar c × All (All IsSegmentChar) parts
All-grow c [] h = (h.0.0, tt)
All-grow c (part ∷ parts) h = (h.0.0, (h.0.1, h.1))

utf8_len_of_IsSegmentChar : (c : ℕ) → IsSegmentChar c → utf8_len c ≡ 1
unfolding utf8_len
utf8_len_of_IsSegmentChar c h = ground arith

byte_len_of_chars : (p : Text) → All (All IsSegmentChar) (split p) → byte_len p ≡ length p
unfolding byte_len
byte_len_of_chars [] h = refl
byte_len_of_chars (c ∷ s) h = elim (Bool-cases (c == slash)) [
  | inl is ↦
      let rest = byte_len_of_chars s (rw (split_of_slash c s is) at h).1 in
      let one : utf8_len c ≡ 1 = unfold utf8_len in rw ((==_iff c slash).0 is) in omega arith
  | inr isnt ↦
      let (char, chars) = All-grow c (split s) (rw (split_of_other c s isnt) at h) in
      omega (arith, byte_len_of_chars s chars, utf8_len_of_IsSegmentChar c char)
]

byte_len_of_IsProjectPath : (p : Text) → IsProjectPath p → byte_len p ≡ length p
byte_len_of_IsProjectPath p h =
    byte_len_of_chars p
      (In-All (All IsSegmentChar) (split p) (λ s m. (All-In IsSegment (split p) h.1 s m).3))

-- A path that validation accepts has as many bytes as characters, so that it fits the column's 255
-- characters because it has at most 255 bytes.
pub validate-byte_len :
    (what : String) (p : Text)
    → validate what p ≡ ok tt
    → (byte_len p ≡ length p) × (length p ≤ 255)
validate-byte_len what p h =
    let path = (validate_iff what p).0 h in
    let same = byte_len_of_IsProjectPath p path in (same, omega (arith, same, path.0))
