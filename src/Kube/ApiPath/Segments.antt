-- ===== src/Kube/ApiPath/Segments.antt =====
-- Paths joined from safe segments, and how `parseApiPath` splits them again.
use text.Mathlib.TextLemmas.{nil-append, cons-append, append_assoc}
use aliangboard.Base.{
  ℕ, String, Char, code, ◌≡◌, refl, ap, true, false, some, List, [], ◌∷◌, ◌++◌, arith, All, ◌==◌,
  eqb, every, has_char, split_on,
}
use aliangboard.Kube.Encode.{
  is_seg_char, decode_uri_component, encode_uri_component, encode_uri_component_of_seg,
}
use aliangboard.Kube.Kinds.{◌+++◌}
use aliangboard.Kube.ApiPath.{
  has_pair, matches_seg, is_suspect, normalize_seg, normalize_segs, parse_segs, parse_api_path,
  starts_with_char,
}
use aliangboard.Kube.ApiPath.Safe.{IsSafe}

abbrev pub slash : Char
slash = "/"

-- "/" and each segment in turn.
unfoldable pub slash_join : List String → String
slash_join [] = ""
slash_join (s ∷ ss) = String.◌∷◌ slash (s +++ slash_join ss)

seg_char-ne-slash : (k : ℕ) → is_seg_char k ≡ true → eqb k b'/' ≡ false
unfolding is_seg_char
seg_char-ne-slash k h = ground arith

every_of_IsSafe : (s : String) → IsSafe s → every is_seg_char s ≡ true
unfolding matches_seg
every_of_IsSafe s h = ground arith

pub encode_of_IsSafe : (s : String) → IsSafe s → encode_uri_component s ≡ s
encode_of_IsSafe s h = encode_uri_component_of_seg s (every_of_IsSafe s h)

-- A text of segment characters, and what follows it: the split is at the first slash.
split_on-append :
    (w t : String) (ss : List String)
    → every is_seg_char w ≡ true
    → split_on b'/' t ≡ "" ∷ ss
    → split_on b'/' (w +++ t) ≡ w ∷ ss
unfolding split_on
split_on-append String.[] t ss h e = rw nil-append e
split_on-append (String.◌∷◌ c w) t ss h e =
    let ih = split_on-append w t ss (ground arith) e in
    let other = seg_char-ne-slash (code c) (ground arith) in rw (cons-append, other, ih) refl

split_on-slash_join : (ss : List String) → All IsSafe ss → split_on b'/' (slash_join ss) ≡ "" ∷ ss
unfolding slash_join split_on
split_on-slash_join [] h = refl
split_on-slash_join (s ∷ ss) h =
    ap (λ r. "" ∷ r)
      (split_on-append s (slash_join ss) ss (every_of_IsSafe s h.0) (split_on-slash_join ss h.1))

has_pair-append :
    (w t : String) → every is_seg_char w ≡ true → has_pair b'/' (w +++ t) ≡ has_pair b'/' t
unfolding has_pair
has_pair-append String.[] t h = rw nil-append refl
has_pair-append (String.◌∷◌ c w) t h =
    let ih = has_pair-append w t (ground arith) in
    let other = seg_char-ne-slash (code c) (ground arith) in rw (cons-append, other, ih) refl

starts_with_char-append : (w t : String) → IsSafe w → starts_with_char b'/' (w +++ t) ≡ false
unfolding matches_seg
starts_with_char-append String.[] t h = ground arith
starts_with_char-append (String.◌∷◌ c w) t h =
    rw cons-append (seg_char-ne-slash (code c) (ground arith))

has_pair-slash_join : (ss : List String) → All IsSafe ss → has_pair b'/' (slash_join ss) ≡ false
unfolding slash_join has_pair
has_pair-slash_join [] h = refl
has_pair-slash_join (s ∷ ss) h =
    rw
      (
        starts_with_char-append s (slash_join ss) h.0,
        has_pair-append s (slash_join ss) (every_of_IsSafe s h.0),
        has_pair-slash_join ss h.1,
      )
      refl

has_char_of_every :
    (k : ℕ) (s : String) → is_seg_char k ≡ false → every is_seg_char s ≡ true → has_char k s ≡ false
has_char_of_every k String.[] n h = refl
has_char_of_every k (String.◌∷◌ c s) n h = ground (arith, has_char_of_every k s n, ap is_seg_char)

is_suspect_of_IsSafe : (s : String) → IsSafe s → is_suspect s ≡ false
unfolding is_suspect is_seg_char
is_suspect_of_IsSafe s h =
    let e = every_of_IsSafe s h in
    ground (
      arith,
      has_char_of_every 0x5c s refl e,
      has_char_of_every b'~' s refl e,
      has_char_of_every b'%' s refl e,
    )

is_blank_of_IsSafe : (s : String) → IsSafe s → (s == "") ≡ false
unfolding matches_seg
is_blank_of_IsSafe s h = ground arith

decode_of_IsSafe : (s : String) → IsSafe s → decode_uri_component s ≡ some s
unfolding decode_uri_component is_seg_char
decode_of_IsSafe s h = rw (has_char_of_every b'%' s refl (every_of_IsSafe s h)) refl

normalize_seg_of_IsSafe : (s : String) → IsSafe s → normalize_seg s ≡ some s
unfolding normalize_seg
normalize_seg_of_IsSafe s h =
    ground (arith, is_blank_of_IsSafe s h, is_suspect_of_IsSafe s h, decode_of_IsSafe s h)

normalize_segs_of_IsSafe : (ss : List String) → All IsSafe ss → normalize_segs ss ≡ some ss
unfolding normalize_segs
normalize_segs_of_IsSafe [] h = refl
normalize_segs_of_IsSafe (s ∷ ss) h =
    rw (is_blank_of_IsSafe s h.0, normalize_seg_of_IsSafe s h.0, normalize_segs_of_IsSafe ss h.1)
      refl

-- A path joined from safe segments is parsed as those segments.
pub parse_api_path-slash_join :
    (ss : List String) → All IsSafe ss → parse_api_path (slash_join ss) ≡ parse_segs ss
unfolding parse_api_path
parse_api_path-slash_join ss h =
    let skip : normalize_segs ("" ∷ ss) ≡ some ss =
      unfold normalize_segs in normalize_segs_of_IsSafe ss h in
    rw (has_pair-slash_join ss h, split_on-slash_join ss h, skip) refl

pub slash_join-append :
    (xs ys : List String) → slash_join (xs ++ ys) ≡ slash_join xs +++ slash_join ys
unfolding slash_join
slash_join-append [] ys = rw nil-append refl
slash_join-append (x ∷ xs) ys = rw (slash_join-append xs ys, cons-append, append_assoc) refl
