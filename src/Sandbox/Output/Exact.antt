-- ===== src/Sandbox/Output/Exact.antt =====
-- What `SandboxProcess.run` of src/fronta/sandbox.py keeps of the streams, exactly.
use fronta.Prelude.{
  ℕ, zero, suc, ◌-◌, ◌≡◌, refl, sym, ap, subst, ◌∙◌, Bool, true, false, ◌||◌, Option, List, [], ◌∷◌,
  ◌++◌, arith, Bool-cases, inl, inr, ltb, length, take, length-append, length-take, if◌then◌else◌,
  if_true, if_false,
}
use fronta.Codec.Text.{Text}
use fronta.Sandbox.Output.{
  Bytes, Stream, stdout, stderr, Read, Kept, keep_chunk, drain_read, drain_all, nothing_kept,
  same_stream, delivered, Code, text, run_result,
}

take-append : (n : ℕ) (xs ys : Bytes) → take n (xs ++ ys) ≡ take n xs ++ take (n - length xs) ys
take-append zero xs ys =
    let none_left : zero ≡ zero - length xs = omega arith in ap (λ n. take n ys) none_left
take-append (suc n) [] ys =
    let same : suc n ≡ suc n - zero = omega arith in ap (λ m. take m ys) same
take-append (suc n) (x ∷ xs) ys =
    let same : n - length xs ≡ suc n - suc (length xs) = omega arith in
    ap (λ zs. x ∷ zs) (take-append n xs ys ∙ ap (λ m. take n xs ++ take m ys) same)

append_nil : (xs : Bytes) → xs ++ [] ≡ xs
append_nil [] = refl
append_nil (x ∷ xs) = ap (λ zs. x ∷ zs) (append_nil xs)

take_nil : (n : ℕ) → take {A = ℕ} n [] ≡ []
take_nil zero = refl
take_nil (suc n) = refl

-- What is kept of a stream that has delivered `xs`, behind another chunk.
keep_chunk-kept :
    (most : ℕ) (xs chunk : Bytes)
    → (keep_chunk most (take most xs) chunk).0 ≡ take most (xs ++ chunk)
unfolding keep_chunk
keep_chunk-kept most xs chunk =
    let same : most - length (take most xs) ≡ most - length xs =
      omega (arith, length-take most xs) in
    let later = take-append most xs chunk in
    elim (Bool-cases (ltb 0 (most - length (take most xs)))) [
      | inl e ↦ if_true _ _ e ∙ ap (λ n. take most xs ++ take n chunk) same ∙ sym later
      | inr e ↦
          let full : most - length xs ≡ 0 = ground (arith, e, same) in
          if_false _ _ e
          ∙ sym (append_nil (take most xs))
          ∙ ap (λ n. take most xs ++ take n chunk) (sym full)
          ∙ sym later
    ]

keep_chunk-dropped :
    (most : ℕ) (xs chunk : Bytes)
    → (ltb most (length xs) || (keep_chunk most (take most xs) chunk).1)
      ≡ ltb most (length (xs ++ chunk))
unfolding keep_chunk
keep_chunk-dropped most xs chunk = ground (arith, length-take most xs, length-append xs chunk)

-- The state of the drains for what the streams have delivered.
pub record IsKeptOf (most : ℕ) (xs ys : Bytes) (k : Kept) : Type 0 where
  pub out : k.out ≡ take most xs
  pub err : k.err ≡ take most ys
  pub truncated : k.truncated ≡ (ltb most (length xs) || ltb most (length ys))

drain_read-IsKeptOf :
    (most : ℕ) (xs ys : Bytes) (s : Stream) (chunk : Bytes) (k : Kept)
    → IsKeptOf most xs ys k
    → IsKeptOf most
        (if same_stream stdout s then xs ++ chunk else xs)
        (if same_stream stderr s then ys ++ chunk else ys)
        (drain_read most (record { stream = s; chunk = chunk }) k)
drain_read-IsKeptOf most xs ys stdout chunk k i = record {
  out = ap (λ z. (keep_chunk most z chunk).0) i.out ∙ keep_chunk-kept most xs chunk;
  err = i.err;
  truncated =
      let dropped =
        ap (λ z. ltb most (length xs) || (keep_chunk most z chunk).1) i.out
        ∙ keep_chunk-dropped most xs chunk in
      ground (arith, i.truncated, dropped);
}
drain_read-IsKeptOf most xs ys stderr chunk k i = record {
  out = i.out;
  err = ap (λ z. (keep_chunk most z chunk).0) i.err ∙ keep_chunk-kept most ys chunk;
  truncated =
      let dropped =
        ap (λ z. ltb most (length ys) || (keep_chunk most z chunk).1) i.err
        ∙ keep_chunk-dropped most ys chunk in
      ground (arith, i.truncated, dropped);
}

append_assoc : (xs ys zs : Bytes) → (xs ++ ys) ++ zs ≡ xs ++ (ys ++ zs)
append_assoc [] ys zs = refl
append_assoc (x ∷ xs) ys zs = ap (λ ws. x ∷ ws) (append_assoc xs ys zs)

delivered_next :
    (b : Bool) (xs chunk rest : Bytes)
    → (if b then xs ++ chunk else xs) ++ rest ≡ xs ++ (if b then chunk ++ rest else rest)
delivered_next true xs chunk rest = append_assoc xs chunk rest
delivered_next false xs chunk rest = refl

drain_all-IsKeptOf :
    (most : ℕ) (rs : List Read) (xs ys : Bytes) (k : Kept)
    → IsKeptOf most xs ys k
    → IsKeptOf most (xs ++ delivered stdout rs) (ys ++ delivered stderr rs) (drain_all most rs k)
unfolding drain_all
drain_all-IsKeptOf most [] xs ys k i =
    subst (λ z. IsKeptOf most z (ys ++ []) k) (sym (append_nil xs))
      (subst (λ z. IsKeptOf most xs z k) (sym (append_nil ys)) i)
drain_all-IsKeptOf most (r ∷ rs) xs ys k i =
    let later =
      drain_all-IsKeptOf most rs _ _ (drain_read most r k)
        (drain_read-IsKeptOf most xs ys r.stream r.chunk k i) in
    subst (λ z. IsKeptOf most z (ys ++ delivered stderr (r ∷ rs)) (drain_all most (r ∷ rs) k))
      (delivered_next (same_stream stdout r.stream) xs r.chunk (delivered stdout rs))
      (subst
        (λ z.
          IsKeptOf most
            ((if same_stream stdout r.stream then xs ++ r.chunk else xs) ++ delivered stdout rs) z
            (drain_all most (r ∷ rs) k))
        (delivered_next (same_stream stderr r.stream) ys r.chunk (delivered stderr rs)) later)

-- However the reads of the two streams interleave and whatever their chunks: a process's result is made of the
-- first `most` bytes of each stream, and it is marked as truncated exactly if one of the streams has delivered
-- more.
pub run_result-outputs :
    (decode : Bytes → Text) (parse : Bytes → Option Code) (most : ℕ) (reads : List Read)
    (status : List Bytes) (returncode : Option Code)
    → let r = run_result decode parse most reads status returncode in
      (r.stdout ≡ text decode (take most (delivered stdout reads)))
      × (r.stderr ≡ text decode (take most (delivered stderr reads)))
      × (r.truncated ≡ (
          ltb most (length (delivered stdout reads)) || ltb most (length (delivered stderr reads))))
unfolding run_result
run_result-outputs decode parse most reads status returncode =
    let i =
      drain_all-IsKeptOf most reads [] [] nothing_kept (record {
        out = sym (take_nil most);
        err = sym (take_nil most);
        truncated = ground arith;
      }) in
    (ap (text decode) i.out, ap (text decode) i.err, i.truncated)
