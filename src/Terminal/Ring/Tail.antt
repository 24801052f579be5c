-- ===== src/Terminal/Ring/Tail.antt =====
-- The replay of a ring's last bytes, against the same cut of all that it holds.
use aliangboard.Base.{
  ℕ, zero, suc, ◌+◌, ◌-◌, ◌≤◌, ◌<◌, Bool, true, false, ◌≡◌, refl, sym, ap, ◌∙◌, inl, inr, ◌⊎◌, some,
  List, [], ◌∷◌, ◌++◌, length, drop, subst, ltb, leb, eqb, ◌||◌, arith, Bool-cases, length-append,
  if◌then◌else◌,
}
use mathlib.Core.List.{append_assoc, append-nil}
use aliangboard.Terminal.Ring.{Ring, concat, reverse_onto, pick, snapshot, snapshot_tail}
use aliangboard.Terminal.Ring.Contents.{IsRing}

module _ {ℓ} {A : Type ℓ} where
  drop-append : (xs ys : List A) (n k : ℕ) → k ≡ length xs + n → drop k (xs ++ ys) ≡ drop n ys
  drop-append [] ys n k e = ap (λ m. drop m ys) (omega arith)
  drop-append (x ∷ xs) ys n zero e = absurd (omega arith)
  drop-append (x ∷ xs) ys n (suc k) e = drop-append xs ys n k (omega arith)

  concat-reverse_onto :
      (cs ds : List (List A))
      → concat (reverse_onto cs ds) ≡ concat (reverse_onto cs []) ++ concat ds
  concat-reverse_onto [] ds = refl
  concat-reverse_onto (c ∷ cs) ds =
      concat-reverse_onto cs (c ∷ ds)
      ∙ sym (append_assoc (concat (reverse_onto cs [])) c (concat ds))
      ∙ ap (λ xs. xs ++ concat ds)
          (ap (λ d. concat (reverse_onto cs []) ++ d) (sym (append-nil c))
            ∙ sym (concat-reverse_onto cs (c ∷ [])))

  reverse_onto-reverse_onto :
      (xs ys zs : List (List A)) → reverse_onto (reverse_onto xs ys) zs ≡ reverse_onto ys (xs ++ zs)
  reverse_onto-reverse_onto [] ys zs = refl
  reverse_onto-reverse_onto (x ∷ xs) ys zs = reverse_onto-reverse_onto xs (x ∷ ys) zs

  -- The chunks that the loop picks, in their order: all of them, or enough.
  record IsPicked (max_bytes : ℕ) (whole : List A) (picked : List (List A)) : Type ℓ where
    before : List A
    split : before ++ concat picked ≡ whole
    enough : (before ≡ []) ⊎ (max_bytes ≤ length (concat picked))

  pick-IsPicked :
      (max_bytes : ℕ) (cs : List (List A)) (acc : ℕ) (picked : List (List A))
      → acc ≡ length (concat picked)
      → IsPicked max_bytes (concat (reverse_onto cs picked)) (pick max_bytes cs acc picked)
  pick-IsPicked max_bytes [] acc picked e = record { before = []; split = refl; enough = inl refl }
  pick-IsPicked max_bytes (c ∷ cs) acc picked e = elim (Bool-cases (ltb acc max_bytes)) [
    | inl more ↦ rw more (
        pick-IsPicked max_bytes cs (acc + length c) (c ∷ picked)
          (omega (arith, e, length-append c (concat picked))))
    | inr done ↦ rw done (record {
      before = concat (reverse_onto (c ∷ cs) []);
      split = sym (concat-reverse_onto (c ∷ cs) picked);
      enough = inr (ground arith);
    })
  ]

  -- The tail of a valid ring under a bound is the last bytes of its snapshot, as many as the bound allows,
  -- and the whole snapshot where the bound is zero: which chunks the bytes came in makes no difference.
  pub snapshot_tail_lem :
      (max_bytes : ℕ) (r : Ring A) (n : ℕ)
      → IsRing max_bytes r
      → snapshot_tail r (some n)
        ≡ (if eqb n 0 then snapshot r else drop (length (snapshot r) - n) (snapshot r))
  unfolding snapshot_tail
  snapshot_tail_lem max_bytes r n v = elim (Bool-cases (eqb n 0 || leb r.total n)) [
    | inl all ↦ rw all (whole_cut (eqb n 0) refl all)
    | inr cut ↦ rw cut (cut_short (ground arith) (ground arith))
  ]
    where
      buf : List A
      buf = concat (pick n (reverse_onto r.chunks []) 0 [])

      picked : IsPicked n (snapshot r) (pick n (reverse_onto r.chunks []) 0 [])
      picked =
          subst (λ cs. IsPicked n (concat cs) (pick n (reverse_onto r.chunks []) 0 []))
            (reverse_onto-reverse_onto r.chunks [] [] ∙ append-nil r.chunks)
            (pick-IsPicked n (reverse_onto r.chunks []) 0 [] refl)

      lengths : length picked.before + length buf ≡ length (snapshot r)
      lengths = sym (length-append picked.before buf) ∙ ap length picked.split

      enough : n < r.total → n ≤ length buf
      enough short = elim picked.enough [
        | inl none_before ↦ omega (arith, lengths, ap length none_before, v.counted, short)
        | inr many ↦ many
      ]

      whole_cut :
          (zero_bound : Bool)
          → zero_bound ≡ eqb n 0
          → (eqb n 0 || leb r.total n) ≡ true
          → snapshot r
            ≡ (if zero_bound then snapshot r else drop (length (snapshot r) - n) (snapshot r))
      whole_cut true e all = refl
      whole_cut false e all = ap (λ m. drop m (snapshot r)) {x = 0} (ground (arith, v.counted))

      buf_cut :
          n < r.total → drop (length buf - n) buf ≡ drop (length (snapshot r) - n) (snapshot r)
      buf_cut short =
          sym (
            drop-append picked.before buf (length buf - n) (length (snapshot r) - n)
              (omega (arith, lengths, enough short)))
          ∙ ap (drop (length (snapshot r) - n)) picked.split

      cut_short :
          eqb n 0 ≡ false
          → n < r.total
          → (if ltb n (length buf) then drop (length buf - n) buf else buf)
            ≡ (if eqb n 0 then snapshot r else drop (length (snapshot r) - n) (snapshot r))
      cut_short some_bound short = elim (Bool-cases (ltb n (length buf))) [
        | inl longer ↦ rw (longer, some_bound) (buf_cut short)
        | inr exact ↦
            rw (exact, some_bound)
              (ap (λ m. drop m buf) {x = 0} (ground (arith, enough short)) ∙ buf_cut short)
      ]
