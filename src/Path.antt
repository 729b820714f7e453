-- ===== src/Path.antt =====
-- src/path.rs: the grammar of a project path, its class, and the chain of its ancestors.
pub mod Grammar
pub mod Ancestors
pub mod Class
pub mod Check
use project_db.Base.{
  ℕ, zero, suc, ◌+◌, String, Text, codes, slash, split, length, byte_len, text_eq,
  eq_ignore_ascii_case, Bool, true, false, not, ◌&&◌, ◌||◌, Option, none, some, List, [], ◌∷◌, all,
  ltb, leb, ◌==◌, if◌then◌else◌,
}
use project_db.Status.{Code, Detail, Status, status, Result, ok, err, ◌>>=◌, ◌>>◌, refuse_unless}

abbrev pub max_len : ℕ
max_len = 255

abbrev pub reserved_root : Text
reserved_root = codes "local"

unfoldable pub refuse_reserved_root : String → Text → Result Status Unit
unfolding eq_ignore_ascii_case
refuse_reserved_root what path =
    if eq_ignore_ascii_case path reserved_root
    then err (status Code.invalid_argument (Detail.reserved what path))
    else ok tt

-- `split_once('/')`: what stands before the first slash, and after it.
abbrev prepend : ℕ → Option (Text × Text) → Option (Text × Text)
prepend c none = none
prepend c (some (a, b)) = some (c ∷ a, b)

unfoldable pub split_once : Text → Option (Text × Text)
split_once [] = none
split_once (c ∷ s) = if c == slash then some ([], s) else prepend c (split_once s)

unfoldable pub is_private_class : Text → Bool
unfolding split_once eq_ignore_ascii_case
is_private_class path = elim (split_once path) [
  | none ↦ false
  | some (root, rest) ↦ eq_ignore_ascii_case root reserved_root
]

abbrev pub user_id_prefix : Text
user_id_prefix = codes "yadgar:user:"

-- `strip_prefix`
unfoldable pub strip_prefix : Text → Text → Option Text
strip_prefix [] s = some s
strip_prefix (c ∷ p) [] = none
strip_prefix (c ∷ p) (d ∷ s) = if c == d then strip_prefix p s else none

-- What the program asks of the `uuid` crate: the version and the variant of a text that parses,
-- and its own lowercase hyphenated rendering.
pub record Uuid : Type 0 where
  pub version_num : ℕ
  pub is_rfc4122 : Bool
  pub hyphenated : Text

module _ (try_parse : Text → Option Uuid) where
  unfoldable pub account_segment : Text → Option Text
  unfolding strip_prefix text_eq
  account_segment user_id = elim (strip_prefix user_id_prefix user_id) [
    | none ↦ none
    | some seg ↦ elim (try_parse seg) [
      | none ↦ none
      | some uuid ↦
          if (uuid.version_num == 7 && uuid.is_rfc4122) && text_eq uuid.hyphenated seg
          then some seg
          else none
    ]
  ]

-- The first two segments, byte for byte.
own_root : List Text → Text → Bool
unfolding text_eq
own_root (root ∷ account ∷ rest) seg = text_eq root reserved_root && text_eq account seg
own_root _ seg = false

unfoldable pub is_under_own_root : Text → Text → Bool
unfolding own_root split
is_under_own_root path seg = own_root (split path) seg

unfoldable pub is_segment_char : ℕ → Bool
is_segment_char c =
    (leb b'A' c && leb c b'Z' || leb b'a' c && leb c b'z' || leb b'0' c && leb c b'9')
    || (c == b'.' || c == b'_' || c == b'-')

unfoldable pub segment_is_legal : Text → Bool
unfolding is_segment_char text_eq
segment_is_legal segment =
    not (text_eq segment [])
    && (not (text_eq segment (codes "."))
        && (not (text_eq segment (codes "..")) && all is_segment_char segment))

abbrev is_empty : Text → Bool
is_empty [] = true
is_empty (c ∷ s) = false

abbrev starts_with_slash : Text → Bool
starts_with_slash [] = false
starts_with_slash (c ∷ s) = c == slash

unfoldable ends_with_slash : Text → Bool
ends_with_slash [] = false
ends_with_slash (c ∷ []) = c == slash
ends_with_slash (c ∷ d ∷ s) = ends_with_slash (d ∷ s)

-- The loop over the segments: the first illegal one is named.
unfoldable validate_segments : String → Text → List Text → Result Status Unit
unfolding segment_is_legal
validate_segments what path [] = ok tt
validate_segments what path (segment ∷ segments) =
    if segment_is_legal segment
    then validate_segments what path segments
    else err (status Code.invalid_argument (Detail.illegal_segment what segment path))

unfoldable pub validate : String → Text → Result Status Unit
unfolding byte_len ends_with_slash validate_segments split
validate what path =
    if is_empty path
    then err (status Code.invalid_argument (Detail.required what))
    else if ltb max_len (byte_len path)
    then err (status Code.invalid_argument (Detail.too_long what (byte_len path)))
    else if starts_with_slash path || ends_with_slash path
    then err (status Code.invalid_argument (Detail.edge_slash what path))
    else validate_segments what path (split path)

-- `&rest[..rest.rfind('/')]`: what stands before the last slash.
unfoldable pub before_last_slash : Text → Option Text
before_last_slash [] = none
before_last_slash (c ∷ s) = elim (before_last_slash s) [
  | some r ↦ some (c ∷ r)
  | none ↦ if c == slash then some [] else none
]

-- The `while let` loop; every round shortens `rest`, so its length is fuel enough.
unfoldable climb : ℕ → Text → List Text
unfolding before_last_slash
climb zero rest = []
climb (suc f) rest = elim (before_last_slash rest) [ none ↦ [] | some r ↦ r ∷ climb f r ]

unfoldable pub ancestors : Text → List Text
unfolding climb
ancestors path = path ∷ climb (length path) path
