-- ===== src/Terminal/Ring.antt =====
-- The ring buffer that keeps the last output of a terminal (`createRingBuffer` of
-- server/ssh/terminal-service.mjs). Bytes are only moved, so a byte is of any type.
pub mod Contents
pub mod Tail
use aliangboard.Base.{
  ℕ, ◌+◌, ◌-◌, Bool, ◌||◌, Option, none, some, List, [], ◌∷◌, ◌++◌, if◌then◌else◌, length, drop,
  ltb, leb, eqb,
}

-- `chunks` and `total`
pub record Ring {ℓ} (A : Type ℓ) : Type ℓ where
  pub chunks : List (List A)
  pub total : ℕ

module _ {ℓ} {A : Type ℓ} where
  abbrev pub empty_ring : Ring A
  empty_ring = record { chunks = []; total = 0 }

  -- `Buffer.concat`
  abbrev pub concat : List (List A) → List A
  concat [] = []
  concat (c ∷ cs) = c ++ concat cs

  abbrev pub reverse_onto : List (List A) → List (List A) → List (List A)
  reverse_onto [] acc = acc
  reverse_onto (c ∷ cs) acc = reverse_onto cs (c ∷ acc)

  -- while (total > maxBytes && chunks.length > 1), dropping the first chunk
  abbrev pub shift_chunks : ℕ → List (List A) → ℕ → Ring A
  shift_chunks max_bytes [] total = record { chunks = []; total = total }
  shift_chunks max_bytes (c ∷ []) total = record { chunks = c ∷ []; total = total }
  shift_chunks max_bytes (c ∷ d ∷ cs) total =
      let rest = shift_chunks max_bytes (d ∷ cs) (total - length c) in
      if ltb max_bytes total then rest else record { chunks = c ∷ d ∷ cs; total = total }

  unfoldable pub push : ℕ → Ring A → List A → Ring A
  push max_bytes r [] = r
  push max_bytes r (x ∷ xs) =
      let buf = x ∷ xs in
      let shifted = shift_chunks max_bytes (r.chunks ++ (buf ∷ [])) (r.total + length buf) in
      let tail = drop (length buf - max_bytes) buf in
      if ltb max_bytes shifted.total
      then record { chunks = tail ∷ []; total = length tail }
      else shifted

  abbrev pub snapshot : Ring A → List A
  snapshot r = concat r.chunks

  -- The loop from the last chunk on, over the chunks in reverse.
  abbrev pub pick : ℕ → List (List A) → ℕ → List (List A) → List (List A)
  pick max_bytes [] acc picked = picked
  pick max_bytes (c ∷ cs) acc picked =
      if ltb acc max_bytes then pick max_bytes cs (acc + length c) (c ∷ picked) else picked

  -- The bound is `none` where it is no finite number.
  unfoldable pub snapshot_tail : Ring A → Option ℕ → List A
  snapshot_tail r none = concat r.chunks
  snapshot_tail r (some max_bytes) =
      let buf = concat (pick max_bytes (reverse_onto r.chunks []) 0 []) in
      if eqb max_bytes 0 || leb r.total max_bytes
      then concat r.chunks
      else if ltb max_bytes (length buf)
      then drop (length buf - max_bytes) buf
      else buf
