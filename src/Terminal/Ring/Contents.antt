-- ===== src/Terminal/Ring/Contents.antt =====
-- What a ring holds after any pushes: the end of what was pushed.
use aliangboard.Base.{
  ℕ, zero, suc, ◌+◌, ◌-◌, ◌≤◌, min, ◌≡◌, refl, sym, ap, ◌∙◌, inl, inr, List, [], ◌∷◌, ◌++◌, length,
  drop, ltb, if◌then◌else◌, subst, arith, Bool-cases, length-append,
}
use mathlib.Core.List.{append_assoc, append-nil}
use aliangboard.Terminal.Ring.{Ring, concat, shift_chunks, push, snapshot}

module _ {ℓ} {A : Type ℓ} where
  -- `xs` is the end of `ys`.
  pub record IsEnd (xs ys : List A) : Type ℓ where
    pub before : List A
    pub split : before ++ xs ≡ ys

  pub record IsRing (max_bytes : ℕ) (r : Ring A) : Type ℓ where
    pub counted : r.total ≡ length (snapshot r)
    pub bounded : r.total ≤ max_bytes

  pub concat-append : (cs ds : List (List A)) → concat (cs ++ ds) ≡ concat cs ++ concat ds
  concat-append [] ds = refl
  concat-append (c ∷ cs) ds = rw (concat-append cs ds, append_assoc c (concat cs) (concat ds)) refl

  pub drop-IsEnd : (n : ℕ) (xs : List A) → IsEnd (drop n xs) xs
  drop-IsEnd zero xs = record { before = []; split = refl }
  drop-IsEnd (suc n) [] = record { before = []; split = refl }
  drop-IsEnd (suc n) (x ∷ xs) =
      let rest = drop-IsEnd n xs in
      record { before = x ∷ rest.before; split = ap (λ ys. x ∷ ys) rest.split }

  pub length-drop : (n : ℕ) (xs : List A) → length (drop n xs) ≡ length xs - n
  length-drop zero xs = omega arith
  length-drop (suc n) [] = omega arith
  length-drop (suc n) (x ∷ xs) = omega (arith, length-drop n xs)

  IsEnd-append : (ws xs ys : List A) → IsEnd xs ys → IsEnd xs (ws ++ ys)
  IsEnd-append ws xs ys e = record {
    before = ws ++ e.before;
    split = append_assoc ws e.before xs ∙ ap (λ zs. ws ++ zs) e.split;
  }

  append-IsEnd : (xs ys : List A) → IsEnd ys (xs ++ ys)
  append-IsEnd xs ys = record { before = xs; split = refl }

  IsEnd-trans : (xs ys zs : List A) → IsEnd xs ys → IsEnd ys zs → IsEnd xs zs
  IsEnd-trans xs ys zs p q = record {
    before = q.before ++ p.before;
    split = append_assoc q.before p.before xs ∙ ap (λ ws. q.before ++ ws) p.split ∙ q.split;
  }

  IsEnd-append_right : (ws xs ys : List A) → IsEnd xs ys → IsEnd (xs ++ ws) (ys ++ ws)
  IsEnd-append_right ws xs ys e = record {
    before = e.before;
    split = sym (append_assoc e.before xs ws) ∙ ap (λ zs. zs ++ ws) e.split;
  }

  length-IsEnd : (xs ys : List A) → IsEnd xs ys → length xs ≤ length ys
  length-IsEnd xs ys e = rw (← e.split) (omega (arith, length-append e.before xs))

  -- What the loop leaves of some chunks whose last is `buf`.
  record IsShifted (max_bytes : ℕ) (buf : List A) (whole : List (List A)) (r : Ring A)
      : Type ℓ where
    counted : r.total ≡ length (snapshot r)
    is_end : IsEnd (snapshot r) (concat whole)
    last_kept : IsEnd buf (snapshot r)
    all_kept : length (concat whole) ≤ max_bytes → snapshot r ≡ concat whole

  last-IsShifted :
      (max_bytes : ℕ) (buf : List A) (cs : List (List A)) (total : ℕ)
      → total ≡ length (concat (cs ++ (buf ∷ [])))
      → IsShifted max_bytes buf
          (cs ++ (buf ∷ []))
          (record { chunks = cs ++ (buf ∷ []); total = total })
  last-IsShifted max_bytes buf cs total e = record {
    counted = e;
    is_end = record { before = []; split = refl };
    last_kept = record {
      before = concat cs;
      split = rw (concat-append cs (buf ∷ []), append-nil buf) refl;
    };
    all_kept = λ h. refl;
  }

  shift-IsShifted :
      (max_bytes : ℕ) (c buf : List A) (cs : List (List A)) (total : ℕ) (rest : Ring A)
      → total ≡ length (concat (c ∷ (cs ++ (buf ∷ []))))
      → IsShifted max_bytes buf (cs ++ (buf ∷ [])) rest
      → IsShifted max_bytes buf (c ∷ (cs ++ (buf ∷ []))) (
          if ltb max_bytes total
          then rest
          else record { chunks = c ∷ (cs ++ (buf ∷ [])); total = total })
  shift-IsShifted max_bytes c buf cs total rest e h = elim (Bool-cases (ltb max_bytes total)) [
    | inl over ↦ rw over (record {
      counted = h.counted;
      is_end = IsEnd-append c (snapshot rest) (concat (cs ++ (buf ∷ []))) h.is_end;
      last_kept = h.last_kept;
      all_kept = λ fits. absurd (ground (arith, e, fits, over));
    })
    | inr under ↦ rw under (last-IsShifted max_bytes buf (c ∷ cs) total e)
  ]

  shift_chunks-IsShifted :
      (max_bytes : ℕ) (buf : List A) (cs : List (List A)) (total : ℕ)
      → total ≡ length (concat (cs ++ (buf ∷ [])))
      → IsShifted max_bytes buf (cs ++ (buf ∷ [])) (shift_chunks max_bytes (cs ++ (buf ∷ [])) total)
  shift_chunks-IsShifted max_bytes buf [] total e = last-IsShifted max_bytes buf [] total e
  shift_chunks-IsShifted max_bytes buf (c ∷ []) total e =
      shift-IsShifted max_bytes c buf [] total _ e (
        shift_chunks-IsShifted max_bytes buf [] (total - length c)
          (omega (arith, e, length-append c (buf ++ []))))
  shift_chunks-IsShifted max_bytes buf (c ∷ d ∷ cs) total e =
      shift-IsShifted max_bytes c buf (d ∷ cs) total _ e (
        shift_chunks-IsShifted max_bytes buf (d ∷ cs) (total - length c)
          (omega (arith, e, length-append c (d ++ concat (cs ++ (buf ∷ []))))))

  -- What a push leaves: the bytes are counted and within the bound, they are the end of what the ring
  -- held and the new bytes, all of it where it fits, and at least the new bytes or as many of them as fit.
  pub record IsPushed (max_bytes : ℕ) (r : Ring A) (buf : List A) (r' : Ring A) : Type ℓ where
    pub valid : IsRing max_bytes r'
    pub is_end : IsEnd (snapshot r') (snapshot r ++ buf)
    pub all_kept : length (snapshot r ++ buf) ≤ max_bytes → snapshot r' ≡ snapshot r ++ buf
    pub newest : min max_bytes (length buf) ≤ length (snapshot r')

  pub push-IsPushed :
      (max_bytes : ℕ) (r : Ring A) (buf : List A)
      → IsRing max_bytes r
      → IsPushed max_bytes r buf (push max_bytes r buf)
  unfolding push
  push-IsPushed max_bytes r [] v = record {
    valid = v;
    is_end = record { before = []; split = sym (append-nil (snapshot r)) };
    all_kept = λ h. sym (append-nil (snapshot r));
    newest = omega arith;
  }
  push-IsPushed max_bytes r (x ∷ xs) v = elim (Bool-cases (ltb max_bytes shifted.total)) [
    | inl over ↦ rw over (record {
      valid = record {
        counted = ap length (sym (append-nil tail));
        bounded = omega (arith, length-drop (length buf - max_bytes) buf);
      };
      is_end =
          IsEnd-trans (tail ++ []) buf (snapshot r ++ buf)
            (rw (append-nil tail) (drop-IsEnd (length buf - max_bytes) buf))
            (append-IsEnd (snapshot r) buf);
      all_kept =
          λ fits. absurd (ground (arith, h.counted, h.all_kept (rw whole fits), whole, fits, over));
      newest = rw (append-nil tail) (omega (arith, length-drop (length buf - max_bytes) buf));
    })
    | inr under ↦ rw under (record {
      valid = record { counted = h.counted; bounded = ground arith };
      is_end = subst (IsEnd (snapshot shifted)) whole h.is_end;
      all_kept = λ fits. h.all_kept (rw whole fits) ∙ whole;
      newest = omega (arith, h.counted, length-IsEnd buf (snapshot shifted) h.last_kept);
    })
  ]
    where
      buf : List A
      buf = x ∷ xs

      shifted : Ring A
      shifted = shift_chunks max_bytes (r.chunks ++ (buf ∷ [])) (r.total + length buf)

      whole : concat (r.chunks ++ (buf ∷ [])) ≡ snapshot r ++ buf
      whole = rw (concat-append r.chunks (buf ∷ []), append-nil buf) refl

      h : IsShifted max_bytes buf (r.chunks ++ (buf ∷ [])) shifted
      h =
          shift_chunks-IsShifted max_bytes buf r.chunks (r.total + length buf)
            (rw whole (omega (arith, v.counted, length-append (snapshot r) buf)))

      tail : List A
      tail = drop (length buf - max_bytes) buf

  -- Everything a terminal writes, one push after the other.
  abbrev pub push_all : ℕ → Ring A → List (List A) → Ring A
  push_all max_bytes r [] = r
  push_all max_bytes r (buf ∷ bufs) = push_all max_bytes (push max_bytes r buf) bufs

  -- After any pushes into a ring the bytes are counted and within the bound, and they are the end of
  -- what it held and all that was pushed, in its order; nothing of it is lost where it fits the bound.
  pub push_all-IsEnd :
      (max_bytes : ℕ) (r : Ring A) (bufs : List (List A))
      → IsRing max_bytes r
      → let r' = push_all max_bytes r bufs in
        let whole = snapshot r ++ concat bufs in
        IsRing max_bytes r'
        × IsEnd (snapshot r') whole
        × (length whole ≤ max_bytes → snapshot r' ≡ whole)
  push_all-IsEnd max_bytes r [] v = (
    v,
    record { before = []; split = sym (append-nil (snapshot r)) },
    (λ h. sym (append-nil (snapshot r))),
  )
  push_all-IsEnd max_bytes r (buf ∷ bufs) v =
      let p = push-IsPushed max_bytes r buf v in
      let (valid, is_end, kept) = push_all-IsEnd max_bytes (push max_bytes r buf) bufs p.valid in
      let all = sym (append_assoc (snapshot r) buf (concat bufs)) in
      (
        valid,
        IsEnd-trans _ (snapshot (push max_bytes r buf) ++ concat bufs) _ is_end
            (rw all (IsEnd-append_right (concat bufs) _ _ p.is_end)),
        (λ h.
            let same =
              p.all_kept (
                omega (arith, h, ap length all, length-append (snapshot r ++ buf) (concat bufs))) in
            kept (rw (same, ← all) h) ∙ ap (λ xs. xs ++ concat bufs) same ∙ sym all),
      )
