-- ===== src/Kube/Encode.antt =====
-- `encodeURIComponent` and `decodeURIComponent`, as far as server/kind-paths.mjs and
-- server/k8s-path.mjs use them.
use Prim.Native.String
use aliangboard.Base.{
  ℕ, ◌+◌, ◌/◌, ◌%◌, String, code, ◌≡◌, refl, ap, Bool, true, ◌&&◌, ◌||◌, Option, none, some, List,
  [], ◌∷◌, arith, ltb, leb, eqb, if◌then◌else◌, get_elem?, get_or, every, has_char,
}

abbrev pub is_between : ℕ → ℕ → ℕ → Bool
is_between lo hi k = leb lo k && leb k hi

abbrev pub is_alphanumeric : ℕ → Bool
is_alphanumeric k = is_between b'a' b'z' k || is_between b'A' b'Z' k || is_between b'0' b'9' k

-- The characters that `encodeURIComponent` leaves alone: A-Z a-z 0-9 - _ . ! ~ * ' ( )
is_unreserved : ℕ → Bool
is_unreserved k =
    is_alphanumeric k
    || eqb k b'-'
    || eqb k b'_'
    || eqb k b'.'
    || eqb k b'!'
    || eqb k b'~'
    || is_between 0x27 0x2a k

-- The UTF-8 bytes of a code point.
utf8 : ℕ → List ℕ
utf8 k =
    if ltb k 0x80
    then k ∷ []
    else if ltb k 0x800
    then (0xc0 + k / 64) ∷ (0x80 + k % 64) ∷ []
    else if ltb k 0x10000
    then (0xe0 + k / 4096) ∷ (0x80 + k / 64 % 64) ∷ (0x80 + k % 64) ∷ []
    else (0xf0 + k / 262144) ∷ (0x80 + k / 4096 % 64) ∷ (0x80 + k / 64 % 64) ∷ (0x80 + k % 64) ∷ []

abbrev hex_digits : List String
hex_digits =
    "0" ∷ "1" ∷ "2" ∷ "3" ∷ "4" ∷ "5" ∷ "6" ∷ "7" ∷ "8" ∷ "9" ∷ "A" ∷ "B" ∷ "C" ∷ "D" ∷ "E" ∷ "F"
    ∷ []

abbrev hex_digit : ℕ → String
hex_digit d = get_or (get_elem? hex_digits d) ""

percent : List ℕ → String
percent [] = ""
percent (b ∷ bs) =
    String.◌++◌ "%"
      (String.◌++◌ (hex_digit (b / 16)) (String.◌++◌ (hex_digit (b % 16)) (percent bs)))

unfoldable pub encode_uri_component : String → String
unfolding is_unreserved utf8 percent
encode_uri_component String.[] = ""
encode_uri_component (String.◌∷◌ c s) =
    let rest = encode_uri_component s in
    if is_unreserved (code c) then String.◌∷◌ c rest else String.◌++◌ (percent (utf8 (code c))) rest

-- The only caller has refused every text with a '%'; a text without one is its own decoding, and
-- the call cannot throw. (`none` is the throw; no escape is read here.)
unfoldable pub decode_uri_component : String → Option String
decode_uri_component s = if has_char b'%' s then none else some s

-- One character of `/^[\w.-]+$/`.
unfoldable pub is_seg_char : ℕ → Bool
is_seg_char k = is_alphanumeric k || eqb k b'_' || eqb k b'.' || eqb k b'-'

is_unreserved_of_is_seg_char : (k : ℕ) → is_seg_char k ≡ true → is_unreserved k ≡ true
unfolding is_seg_char is_unreserved
is_unreserved_of_is_seg_char k h = ground arith

-- A text of segment characters is its own encoding.
pub encode_uri_component_of_seg :
    (s : String) → every is_seg_char s ≡ true → encode_uri_component s ≡ s
unfolding encode_uri_component
encode_uri_component_of_seg String.[] h = refl
encode_uri_component_of_seg (String.◌∷◌ c s) h =
    let ih = encode_uri_component_of_seg s (ground arith) in
    let un = is_unreserved_of_is_seg_char (code c) (ground arith) in
    rw un (ap (λ r. String.◌∷◌ c r) ih)

encode_slash : encode_uri_component "a/é" ≡ "a%2F%C3%A9"
unfolding encode_uri_component
encode_slash = refl
